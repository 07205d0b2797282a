-- ===== src/Channel/Inbox/Rounds.antt =====
-- One round of the flush loop.
use webrtc_node.Base.{
  ℕ, zero, suc, ◌-◌, ◌<◌, ◌≤◌, ◌≡◌, refl, sym, ap, ◌∙◌, List, [], ◌∷◌, ◌++◌, Option, none, some,
  Bool, true, ◌⊎◌, inl, inr, arith, length, get_elem?, drop, append-nil, append_assoc, Bool-cases,
  leb, ltb,
}
use webrtc_node.Channel.Data.{Payload}
use webrtc_node.Channel.Inbox.{
  Inbox, Action, shuts, begins_operation, adds_listener, removes_listener, sets_handler, perform,
  perform_all, compact, can_continue, schedule_flush, Handler, end_round, early_return,
}

-- The messages that wait in the queue.
abbrev pub waiting : Inbox → List Payload
waiting s = drop s.index s.queue

-- What scripts cannot touch.
abbrev pub SameQueue : Inbox → Inbox → Type 0
SameQueue s t =
    (t.queue ≡ s.queue)
    × (t.index ≡ s.index)
    × (t.dispatched ≡ s.dispatched)
    × (s.closed ≡ true → t.closed ≡ true)
    × (s.flush_scheduled ≡ true → t.flush_scheduled ≡ true)

perform-SameQueue : (a : Action) (s : Inbox) → SameQueue s (perform a s)
unfolding perform
perform-SameQueue shuts s = ground arith
perform-SameQueue begins_operation s = ground arith
perform-SameQueue adds_listener s = ground arith
perform-SameQueue removes_listener s = ground arith
perform-SameQueue (sets_handler h) s = ground arith

pub perform_all-SameQueue : (as' : List Action) (s : Inbox) → SameQueue s (perform_all as' s)
unfolding perform_all
perform_all-SameQueue [] s = ground arith
perform_all-SameQueue (a ∷ as') s =
    ground (arith, perform-SameQueue a s, perform_all-SameQueue as' (perform a s))

pub drop-some :
    (i : ℕ) (xs : List Payload) (m : Payload)
    → get_elem? xs i ≡ some m
    → (drop i xs ≡ m ∷ drop (suc i) xs) × (i < length xs)
drop-some i [] m e = cc
drop-some zero (x ∷ xs) m e = (cc, omega arith)
drop-some (suc i) (x ∷ xs) m e = let (a, b) = drop-some i xs m e in (a, omega arith)

pub drop-none : (i : ℕ) (xs : List Payload) → get_elem? xs i ≡ none → drop i xs ≡ []
drop-none zero [] e = refl
drop-none (suc i) [] e = refl
drop-none zero (x ∷ xs) e = cc
drop-none (suc i) (x ∷ xs) e = drop-none i xs e

length-drop : (i : ℕ) (xs : List Payload) → length (drop i xs) ≡ length xs - i
length-drop zero xs = omega arith
length-drop (suc i) [] = omega arith
length-drop (suc i) (x ∷ xs) = omega (arith, length-drop i xs)

drop_past : (i : ℕ) (xs : List Payload) → length xs ≤ i → drop i xs ≡ []
drop_past zero [] h = refl
drop_past (suc i) [] h = refl
drop_past zero (x ∷ xs) h = absurd (omega arith)
drop_past (suc i) (x ∷ xs) h = drop_past i xs (omega arith)

-- The index points at a queued message, or stands at the start of an empty queue.
abbrev pub IsInRange : Inbox → Type 0
IsInRange s = ((s.queue ≡ []) × (s.index ≡ 0)) ⊎ (s.index < length s.queue)

pub in_range_none : (s : Inbox) → IsInRange s → get_elem? s.queue s.index ≡ none → s.queue ≡ []
in_range_none s (inl (e, _)) f = e
in_range_none s (inr h) f =
    let nil : length (drop s.index s.queue) ≡ 0 = ap length (drop-none s.index s.queue f) in
    absurd (omega (arith, length-drop s.index s.queue))

-- How the waiting messages and the log move: the first ones are dispatched, and the others still
-- wait, unless the channel was closed.
pub record Taken (s t : Inbox) : Type 0 where
  pub done : List Payload
  pub left : List Payload
  pub were_waiting : waiting s ≡ done ++ left
  pub are_dispatched : t.dispatched ≡ s.dispatched ++ done
  pub still_waiting : (waiting t ≡ left) ⊎ ((t.closed ≡ true) × (waiting t ≡ []))

pub compact_lem :
    (s : Inbox)
    → (waiting (compact s) ≡ waiting s)
      × ((compact s).dispatched ≡ s.dispatched)
      × ((compact s).closed ≡ s.closed)
unfolding compact
compact_lem s = elim (Bool-cases (ltb 1024 s.index)) [
  | inl e ↦ rw e (refl, refl, refl)
  | inr e ↦ rw e (refl, refl, refl)
]

pub Taken-trans :
    {s u t : Inbox} (m : Payload)
    → waiting s ≡ m ∷ waiting u
    → u.dispatched ≡ s.dispatched ++ m ∷ []
    → Taken u t
    → Taken s t
Taken-trans {s} m w d r = record {
  done = m ∷ r.done;
  left = r.left;
  were_waiting = w ∙ ap (λ l. m ∷ l) r.were_waiting;
  are_dispatched = r.are_dispatched ∙ rw d (append_assoc s.dispatched (m ∷ []) r.done);
  still_waiting = r.still_waiting;
}

-- Nothing is taken.
pub Taken-none :
    (s t : Inbox)
    → t.dispatched ≡ s.dispatched
    → (waiting t ≡ waiting s) ⊎ ((t.closed ≡ true) × (waiting t ≡ []))
    → Taken s t
Taken-none s t d w = record {
  done = [];
  left = waiting s;
  were_waiting = refl;
  are_dispatched = d ∙ sym (append-nil _);
  still_waiting = w;
}

pub early_return-Taken : (s t : Inbox) → early_return s ≡ some t → Taken s t
unfolding early_return
early_return-Taken s t e = Taken-none s t (ground arith) (ground arith)

Taken-compact : (u t : Inbox) → Taken (compact u) t → Taken u t
Taken-compact u t r =
    let (w, d, _) = compact_lem u in
    record {
      done = r.done;
      left = r.left;
      were_waiting = sym w ∙ r.were_waiting;
      are_dispatched = r.are_dispatched ∙ ap (λ l. l ++ r.done) d;
      still_waiting = r.still_waiting;
    }

pub compact-IsInRange : (u : Inbox) → u.index < length u.queue → IsInRange (compact u)
unfolding compact
compact-IsInRange u h = elim (Bool-cases (ltb 1024 u.index)) [
  | inl e ↦ rw e (inr (omega (arith, length-drop u.index u.queue)))
  | inr e ↦ rw e (inr h)
]

abbrev Good : Inbox → Inbox → Type 0
Good s t = Taken s t × IsInRange t

pub end_round-Good :
    (h : Option Handler) (y : Bool) (u rest : Inbox)
    → (IsInRange (compact u) → Good (compact u) rest)
    → Good u (end_round h y u rest)
unfolding end_round schedule_flush
end_round-Good h y u rest k = elim (Bool-cases (leb (length u.queue) u.index)) [
  | inl e ↦
      rw e (
        Taken-none u _ refl (inl (sym (drop_past u.index u.queue (ground arith)))),
        inl (refl, refl),
      )
  | inr e ↦
      let r : IsInRange (compact u) = compact-IsInRange u (ground arith) in
      rw e (elim (Bool-cases (can_continue h y (compact u))) [
        | inl f ↦ rw f (Taken-compact u rest (k r).0, (k r).1)
        | inr f ↦ let (w, d, _) = compact_lem u in rw f (Taken-none u _ d (inl w), r)
      ])
]
