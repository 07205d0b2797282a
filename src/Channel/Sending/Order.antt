-- ===== src/Channel/Sending/Order.antt =====
-- Runs of a sender: what has become of the messages that were sent, and of the amount.
use mathlib.Core.List.{Sublist}
use mathlib.Core.List.Sublist
use webrtc_node.Base.{
  ◌+◌, ◌≤◌, ◌≡◌, refl, sym, ◌∙◌, List, [], ◌∷◌, ◌++◌, Bool, true, false, arith, length,
  length-append, append_assoc, append-nil, inl, inr, ◌||◌,
}
use webrtc_node.Channel.Data.{Payload, size}
use webrtc_node.Channel.Sending.{Sender, Reply, run_send, enqueue_send, has_pending_sends}
use webrtc_node.Channel.Sending.Accounting.{outstanding}
use webrtc_node.Channel.Sending.Steps.{
  IsSound, Sent, at_once, later, behind, send-Sent, send-IsSound, send_native_lem, increase_lem,
  run_send_lem, Ends,
}
use webrtc_node.Channel.Sending.Moves.{
  Step, run_task-keeps, receives-keeps, sends, runs_send, runs_task, receives, changes,
}

-- `ps` are the messages accepted on the way, oldest first, and the flag tells whether the paired
-- channel received one.
pub data Runs (s : Sender) : List Payload → Bool → Sender → Type 0 where
  here : Runs s [] false s
  next :
      {ps qs rs : List Payload} {a b c : Bool} {t u : Sender}
      → Runs s ps a t
      → Step t qs b u
      → rs ≡ ps ++ qs
      → c ≡ (a || b)
      → Runs s rs c u

-- The constructor's values.
pub record IsNew (s : Sender) : Type 0 where
  pub no_amount : s.buffered_amount ≡ 0
  pub no_decrease : s.pending_decrease ≡ 0
  pub not_scheduled : s.decrease_scheduled ≡ false
  pub no_sends : s.pending_send_count ≡ 0
  pub no_queue : s.send_tail ≡ []
  pub no_tasks : s.tasks ≡ []
  pub none_handed : s.handed_over ≡ []
  pub no_errors : s.error_events ≡ 0

Step-IsSound : {s t : Sender} {ps : List Payload} {b : Bool} → Step s ps b t → IsSound s → IsSound t
Step-IsSound {s} {t} (sends reply p e) h =
    (send-IsSound reply p s t (send-Sent reply p s t e).1 h).0
Step-IsSound {s} (runs_send ready rounds p rest e) h = (run_send_lem ready rounds s p rest e h).0
Step-IsSound {s} (runs_task before task after e) h = (run_task-keeps s before task after e h).0
Step-IsSound {s} (receives p) h = (receives-keeps p s h).0
Step-IsSound {s} {t} (changes c) h = ground arith

Step-covered :
    {s t : Sender} {ps : List Payload} {b : Bool}
    → Step s ps b t
    → IsSound s
    → s.buffered_amount ≤ outstanding s
    → t.buffered_amount ≤ outstanding t
Step-covered {s} {t} (sends reply p e) h k =
    (send-IsSound reply p s t (send-Sent reply p s t e).1 h).1.1 k
Step-covered {s} (runs_send ready rounds p rest e) h k =
    (run_send_lem ready rounds s p rest e h).1.1 k
Step-covered {s} (runs_task before task after e) h k =
    (run_task-keeps s before task after e h).1.1 k
Step-covered {s} (receives p) h k = (receives-keeps p s h).1 k
Step-covered {s} {t} (changes c) h k = ground arith

Step-exact :
    {s t : Sender} {ps : List Payload} {b : Bool}
    → Step s ps b t
    → IsSound s
    → b ≡ false
    → s.buffered_amount ≡ outstanding s
    → t.buffered_amount ≡ outstanding t
Step-exact {s} {t} (sends reply p e) h f k =
    (send-IsSound reply p s t (send-Sent reply p s t e).1 h).1.0 k
Step-exact {s} (runs_send ready rounds p rest e) h f k =
    (run_send_lem ready rounds s p rest e h).1.0 k
Step-exact {s} (runs_task before task after e) h f k =
    (run_task-keeps s before task after e h).1.0 k
Step-exact {s} (receives p) h f k = cc
Step-exact {s} {t} (changes c) h f k = ground arith

-- The messages that are handed over or still queued, oldest first.
abbrev pub kept : Sender → List Payload
kept s = s.handed_over ++ s.send_tail

-- A sender's history: what was accepted, what is left of it, and the reported failures.
abbrev pub Remembers : List Payload → Sender → Type 0
Remembers ps s = Sublist (kept s) ps × (length (kept s) + s.error_events ≡ length ps)

empty_tail : (s : Sender) → IsSound s → has_pending_sends s ≡ false → s.send_tail ≡ []
empty_tail s h e = go s.send_tail (h.counted)
  where
    go : (l : List Payload) → s.pending_send_count ≡ length l → l ≡ []
    go [] f = refl
    go (p ∷ l) f = ground arith

-- Accepting a message puts it behind all that is kept.
kept-send :
    (reply : Reply) (p : Payload) (s t : Sender)
    → Sent reply p s t
    → IsSound s
    → (kept t ≡ kept s ++ p ∷ []) × (t.error_events ≡ s.error_events)
unfolding enqueue_send
kept-send reply p s t (behind e) h =
    (rw e (sym (append_assoc s.handed_over s.send_tail (p ∷ []))), ground arith)
kept-send reply p s t (later u e f) h =
    let (_, a, b, c, d, g, k) = send_native_lem reply p s (false, u) h.flushing e in
    (rw (f, k, a) (sym (append_assoc s.handed_over s.send_tail (p ∷ []))), ground arith)
kept-send reply p s t (at_once u b e f) h =
    let sent = send_native_lem reply p s (true, u) h.flushing e in
    let sound : IsSound u = ground arith in
    let (_, _, g, k, l) = increase_lem (size p) u sound in
    let nil : s.send_tail ≡ [] = empty_tail s h b in
    (rw (f, g, k, sent.6, sent.1, nil) (rw (append-nil s.handed_over, append-nil _)), ground arith)

-- A queued operation that ends leaves the rest in order.
kept-Ends :
    (p : Payload) (s t : Sender) (rest : List Payload)
    → s.send_tail ≡ p ∷ rest
    → t.send_tail ≡ rest
    → Ends p s t
    → Sublist (kept t) (kept s)
      × (length (kept t) + t.error_events ≡ length (kept s) + s.error_events)
kept-Ends p s t rest e f (inl (g, k)) =
    let same : kept t ≡ kept s = rw (e, f, g) (append_assoc s.handed_over (p ∷ []) rest) in
    (rw same (Sublist.refl (kept s)), rw (same, k))
kept-Ends p s t rest e f (inr (g, k)) = (
  rw (e, f, g) (Sublist.append (Sublist.refl s.handed_over) (Sublist.cons p (Sublist.refl rest))),
  rw (e, f, g)
      (omega (arith, k, length-append s.handed_over rest, length-append s.handed_over (p ∷ rest))),
)

Step-Remembers :
    {s t : Sender} {ps : List Payload} {b : Bool} (sent : List Payload)
    → Step s ps b t
    → IsSound s
    → Remembers sent s
    → Remembers (sent ++ ps) t
Step-Remembers {s} {t} sent (sends reply p e) h (k, n) =
    let (f, g) = kept-send reply p s t (send-Sent reply p s t e).1 h in
    (
      rw f (Sublist.append k (Sublist.refl (p ∷ []))),
      rw (f, g) (omega (arith, n, length-append (kept s) (p ∷ []), length-append sent (p ∷ []))),
    )
Step-Remembers {s} sent (runs_send ready rounds p rest e) h (k, n) =
    let (_, _, f, g) = run_send_lem ready rounds s p rest e h in
    let (a, b) = kept-Ends p s (run_send ready rounds s) rest e f g in
    rw (append-nil sent) (Sublist.trans a k, b ∙ n)
Step-Remembers {s} sent (runs_task before task after e) h (k, n) =
    let (_, _, q) = run_task-keeps s before task after e h in
    let (a, b, c, d) = q in rw (append-nil sent) (rw (a, b, d) (k, n))
Step-Remembers {s} sent (receives p) h (k, n) =
    let (_, _, q) = receives-keeps p s h in
    let (a, b, c, d) = q in rw (append-nil sent) (rw (a, b, d) (k, n))
Step-Remembers {s} {t} sent (changes c) h (k, n) =
    let (_, _, _, _, a, _, b, d) = c in rw (append-nil sent) (rw (a, b, d) (k, n))

module _ {s : Sender} (new : IsNew s) where
  Runs-IsSound : {t : Sender} {ps : List Payload} {b : Bool} → Runs s ps b t → IsSound t
  Runs-IsSound here = ground arith
  Runs-IsSound (next r st e f) = Step-IsSound st (Runs-IsSound r)

  -- Whatever happens to a new sender, the amount that scripts see is never more than what its
  -- queued operations, its next flush and its callbacks will take off again; it is exactly that, if
  -- the paired channel has received nothing so far.
  pub Runs-covered :
      {t : Sender} {ps : List Payload} {b : Bool}
      → Runs s ps b t
      → (t.buffered_amount ≤ outstanding t) × (b ≡ false → t.buffered_amount ≡ outstanding t)
  Runs-covered here = ground arith
  Runs-covered (next {a} {b} {t} r st e f) =
      let (k, x) = Runs-covered r in
      let h : IsSound t = Runs-IsSound r in
      (Step-covered st h k, λ no. Step-exact st h (ground arith) (x (ground arith)))

  -- In every run of a new sender, when no operation is queued and no callback is left, the amount is
  -- zero.
  pub Runs-idle :
      {t : Sender} {ps : List Payload} {b : Bool}
      → Runs s ps b t
      → t.pending_send_count ≡ 0
      → t.tasks ≡ []
      → t.buffered_amount ≡ 0
  Runs-idle {t} r n e =
      let h : IsSound t = Runs-IsSound r in
      let nil : t.send_tail ≡ [] = empty_tail t h (ground arith) in ground (arith, Runs-covered r)

  Runs-Remembers : {t : Sender} {ps : List Payload} {b : Bool} → Runs s ps b t → Remembers ps t
  Runs-Remembers here = rw (new.none_handed, new.no_queue, new.no_errors) (Sublist.refl [], refl)
  Runs-Remembers (next {ps} r st e f) =
      rw e (Step-Remembers ps st (Runs-IsSound r) (Runs-Remembers r))

  -- In every run of a new sender, messages are handed over in the order in which they were sent, the
  -- queued ones behind the others; each that was accepted is handed over, queued, or reported by an
  -- error event; and the count of pending sends is the number of queued operations.
  pub Runs-order :
      {t : Sender} {ps : List Payload} {b : Bool}
      → Runs s ps b t
      → Sublist (t.handed_over ++ t.send_tail) ps
        × (length (t.handed_over ++ t.send_tail) + t.error_events ≡ length ps)
        × (t.pending_send_count ≡ length t.send_tail)
  Runs-order r = let (a, b) = Runs-Remembers r in (a, b, (Runs-IsSound r).counted)
