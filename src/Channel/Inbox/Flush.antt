-- ===== src/Channel/Inbox/Flush.antt =====
-- The flush loop takes each queued message once, in order, and does not leave any behind unattended.
use webrtc_node.Base.{
  ℕ, zero, suc, ◌<◌, ◌≡◌, refl, sym, ap, ◌∙◌, [], ◌∷◌, ◌++◌, Option, some, Bool, true, false, not,
  ◌&&◌, ◌||◌, ◌⊎◌, inl, inr, arith, length, get_elem?, Bool-cases, Option-cases, leb,
}
use webrtc_node.Channel.Data.{Payload}
use webrtc_node.Channel.Inbox.{
  Inbox, Reaction, dispatch_message, compact, flush, has_consumer, can_continue, schedule_flush,
  Handler, end_round, early_return, after_next,
}
use webrtc_node.Channel.Inbox.Rounds.{
  waiting, perform_all-SameQueue, drop-some, drop-none, IsInRange, in_range_none, Taken,
  compact_lem, Taken-trans, Taken-none, early_return-Taken, compact-IsInRange, end_round-Good,
}

module _ (react : Payload → Reaction) where
  after_next_lem :
      (s : Inbox) (m : Payload)
      → get_elem? s.queue s.index ≡ some m
      → (waiting s ≡ m ∷ waiting (after_next react m s))
        × ((after_next react m s).dispatched ≡ s.dispatched ++ m ∷ [])
        × (length (waiting s) ≡ suc (length (waiting (after_next react m s))))
  unfolding dispatch_message
  after_next_lem s m e =
      let t = record s {
        consumer_gate_active = false;
        index = suc s.index;
        dispatched = s.dispatched ++ m ∷ [];
      } in
      let (q, i, d, _, _) = perform_all-SameQueue (react m).actions t in
      let (w, _) = drop-some s.index s.queue m e in
      let next : waiting s ≡ m ∷ waiting (after_next react m s) = rw (q, i) w in
      (next, d, ap length next)

  early_return-IsInRange : (s t : Inbox) → early_return s ≡ some t → IsInRange s → IsInRange t
  unfolding early_return
  early_return-IsInRange s t e h = ground arith

  -- If the index of the queue is in range, then with any fuel and whatever the consumers of the
  -- events do, a flush dispatches messages from the front of the queue, each once and in order, the
  -- others keep waiting, unless the channel was closed, and the index is in range again.
  pub flush-Taken :
      (fuel : ℕ) (s : Inbox)
      → IsInRange s
      → Taken s (flush react fuel s) × IsInRange (flush react fuel s)
  unfolding flush
  flush-Taken zero s h = (Taken-none s s refl (inl refl), h)
  flush-Taken (suc fuel) s h = elim (Option-cases (early_return s)) [
    | inr (t, e) ↦ rw (e, flush) (early_return-Taken s t e, early_return-IsInRange s t e h)
    | inl e ↦ elim (Option-cases (get_elem? s.queue s.index)) [
      | inl f ↦
          let nil : s.queue ≡ [] = in_range_none s h f in
          let t : Inbox = record s { consumer_gate_active = false; index = 0 } in
          rw (e, flush)
            (rw (f, flush)
              (
                Taken-none s t refl (inl (nil ∙ sym (drop-none s.index s.queue f))),
                inl (nil, refl),
              ))
      | inr (m, f) ↦
          let u : Inbox = after_next react m s in
          let (w, d, _) = after_next_lem s m f in
          let (t, r) =
            end_round-Good s.handler s.needs_task_yield u _ (flush-Taken fuel (compact u)) in
          rw (e, flush) (rw (f, flush) (Taken-trans m w d t, r))
    ]
  ]

-- What will bring on the next flush: a scheduled one, the end of the pending operations, a gate with
-- its timer, or a consumer to come.
abbrev pub is_attended : Inbox → Bool
is_attended s =
    s.flush_scheduled
    || s.waits_for_idle
    || s.gate_active
    || (s.consumer_gate_active && not (has_consumer s))

abbrev pub IsAttended : Inbox → Type 0
IsAttended s = (waiting s ≡ []) ⊎ (is_attended s ≡ true)

early_return-IsAttended : (s t : Inbox) → early_return s ≡ some t → IsAttended t
unfolding early_return
early_return-IsAttended s t e = elim (Bool-cases s.closed) [
  | inl c ↦ let (q, i) : (t.queue ≡ []) × (t.index ≡ 0) = ground arith in inl (rw (q, i))
  | inr c ↦ inr (ground arith)
]

end_round-IsAttended :
    (h : Option Handler) (y : Bool) (u rest : Inbox)
    → (u.index < length u.queue → IsAttended rest)
    → IsAttended (end_round h y u rest)
unfolding end_round schedule_flush
end_round-IsAttended h y u rest k = elim (Bool-cases (leb (length u.queue) u.index)) [
  | inl e ↦ rw e (inl refl)
  | inr e ↦ rw e (elim (Bool-cases (can_continue h y (compact u))) [
    | inl f ↦ rw f (k (ground arith))
    | inr f ↦ rw f (inr refl)
  ])
]

module _ (react : Payload → Reaction) where
  -- If the index is in range and the fuel above the number of waiting messages, a flush ends with
  -- no message waiting, or with something that will bring on the next flush.
  pub flush-IsAttended :
      (fuel : ℕ) (s : Inbox)
      → IsInRange s
      → length (waiting s) < fuel
      → IsAttended (flush react fuel s)
  unfolding flush
  flush-IsAttended zero s r h = absurd (omega arith)
  flush-IsAttended (suc fuel) s r h = elim (Option-cases (early_return s)) [
    | inr (t, e) ↦ rw (e, flush) (early_return-IsAttended s t e)
    | inl e ↦ elim (Option-cases (get_elem? s.queue s.index)) [
      | inl f ↦
          let nil : s.queue ≡ [] = in_range_none s r f in rw (e, flush) (rw (f, flush) (inl nil))
      | inr (m, f) ↦
          let u : Inbox = after_next react m s in
          let (_, _, n) = after_next_lem react s m f in
          let k : length (waiting (compact u)) ≡ length (waiting u) = ap length (compact_lem u).0 in
          rw (e, flush)
            (rw (f, flush)
              (end_round-IsAttended s.handler s.needs_task_yield u _
                (λ i. flush-IsAttended fuel (compact u) (compact-IsInRange u i) (omega arith))))
    ]
  ]
