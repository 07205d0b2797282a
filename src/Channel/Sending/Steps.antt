-- ===== src/Channel/Sending/Steps.antt =====
-- Every step of a sender keeps its accounting.
use webrtc_node.Base.{
  ℕ, suc, ◌+◌, ◌-◌, ◌≤◌, ◌≡◌, refl, List, [], ◌∷◌, ◌++◌, none, some, Bool, true, false, not, ◌||◌,
  Result, ok, err, arith, length, length-append, Bool-cases, Option-cases, inl, inr, if◌then◌else◌,
  >>=-eq-ok, type_error, invalid_state, ◌⊎◌, ap,
}
use webrtc_node.Channel.Data.{
  ReadyState, connecting, opened, closing, closed, Payload, blob, other, size, total,
}
use webrtc_node.Channel.Sending.{
  Sender, deliver, Reply, Round, queue_decrease, increase_buffered_amount, send_native,
  enqueue_send, send_or_enqueue, send_payload, send, wait_accepted, run_send, has_pending_sends,
  native_ready_for_send, exceeds,
}
use webrtc_node.Channel.Sending.Accounting.{
  due-append, flushes-append, total-append, outstanding, IsFlushing, queue_decrease_lem,
}

pub record IsSound (s : Sender) : Type 0 where
  pub counted : s.pending_send_count ≡ length s.send_tail
  pub flushing : IsFlushing s

-- How a step moves the amount against what is outstanding.
abbrev pub KeepsAmount : Sender → Sender → Type 0
KeepsAmount s t =
    (s.buffered_amount ≡ outstanding s → t.buffered_amount ≡ outstanding t)
    × (s.buffered_amount ≤ outstanding s → t.buffered_amount ≤ outstanding t)

abbrev pub Sends : Payload → Sender → Bool × Sender → Type 0
Sends p s (sent, t) =
    IsFlushing t
    × (t.send_tail ≡ s.send_tail)
    × (t.pending_send_count ≡ s.pending_send_count)
    × (t.error_events ≡ s.error_events)
    × (outstanding t ≡ outstanding s)
    × (t.buffered_amount ≡ s.buffered_amount)
    × (t.handed_over ≡ (if sent then s.handed_over ++ p ∷ [] else s.handed_over))

pub send_native_lem :
    (reply : Reply) (p : Payload) (s : Sender) (r : Bool × Sender)
    → IsFlushing s
    → send_native reply p s ≡ ok r
    → Sends p s r
unfolding send_native
send_native_lem reply p s (sent, t) h e =
    ground (arith, flushes-append s.tasks (deliver p ∷ []), due-append s.tasks (deliver p ∷ []))

pub enqueue_send_lem :
    (p : Payload) (s : Sender)
    → IsSound s
    → IsSound (enqueue_send p s) × KeepsAmount s (enqueue_send p s)
unfolding enqueue_send
enqueue_send_lem p s h =
    ground (arith, length-append s.send_tail (p ∷ []), total-append s.send_tail (p ∷ []))

pub increase_lem :
    (n : ℕ) (s : Sender)
    → IsSound s
    → IsSound (increase_buffered_amount n s)
      × KeepsAmount s (increase_buffered_amount n s)
      × ((increase_buffered_amount n s).handed_over ≡ s.handed_over)
      × ((increase_buffered_amount n s).send_tail ≡ s.send_tail)
      × ((increase_buffered_amount n s).error_events ≡ s.error_events)
unfolding increase_buffered_amount
increase_lem n s h =
    ground (arith, queue_decrease_lem n (record s { buffered_amount = s.buffered_amount + n }))

-- The ways in which `send` succeeds.
pub data Sent (reply : Reply) (p : Payload) (s t : Sender) : Type 0 where
  at_once :
      (u : Sender)
      → has_pending_sends s ≡ false
      → send_native reply p s ≡ ok (true, u)
      → t ≡ increase_buffered_amount (size p) u
      → Sent reply p s t
  later :
      (u : Sender) → send_native reply p s ≡ ok (false, u) → t ≡ enqueue_send p u → Sent reply p s t
  behind : t ≡ enqueue_send p s → Sent reply p s t

send_or_enqueue-Sent :
    (reply : Reply) (p : Payload) (s t : Sender)
    → send_or_enqueue reply p s ≡ ok t
    → Sent reply p s t
unfolding send_or_enqueue
send_or_enqueue-Sent reply p s t e =
    elim (Bool-cases (has_pending_sends s || not (native_ready_for_send s))) [
      | inl b ↦ let f : ok (enqueue_send p s) ≡ ok t = rw b at e in behind (cc)
      | inr b ↦
          let ((sent, u), f, g) = >>=-eq-ok (send_native reply p s) _ (rw b at e) in
          go sent u f g (ground arith)
    ]
  where
    go :
        (sent : Bool) (u : Sender)
        → send_native reply p s ≡ ok (sent, u)
        → ok (if sent then increase_buffered_amount (size p) u else enqueue_send p u) ≡ ok t
        → has_pending_sends s ≡ false
        → Sent reply p s t
    go true u f g b = at_once u b f (cc)
    go false u f g b = later u f (cc)

send_payload-Sent :
    (reply : Reply) (p : Payload) (s t : Sender)
    → send_payload reply p s ≡ ok t
    → Sent reply p s t × (exceeds (size p) s.max_message_size ≡ false)
unfolding send_payload
send_payload-Sent reply other s t e = cc
send_payload-Sent reply (blob bs) s t e =
    elim (Bool-cases (exceeds (size (blob bs)) s.max_message_size)) [
      | inl b ↦ let f : err type_error ≡ ok t = rw b at e in cc
      | inr b ↦ let f : ok (enqueue_send (blob bs) s) ≡ ok t = rw b at e in (behind (cc), b)
    ]
send_payload-Sent reply p s t e = elim (Bool-cases (exceeds (size p) s.max_message_size)) [
  | inl b ↦ let f : err type_error ≡ ok t = rw b at e in cc
  | inr b ↦ (send_or_enqueue-Sent reply p s t (rw b at e), b)
]

pub send-Sent :
    (reply : Reply) (p : Payload) (s t : Sender)
    → send reply p s ≡ ok t
    → (s.ready_state ≡ opened) × Sent reply p s t × (exceeds (size p) s.max_message_size ≡ false)
unfolding send
send-Sent reply p s t e = go s.ready_state refl
  where
    go :
        (r : ReadyState)
        → s.ready_state ≡ r
        → (s.ready_state ≡ opened)
          × Sent reply p s t
          × (exceeds (size p) s.max_message_size ≡ false)
    go opened f = let (a, b) = send_payload-Sent reply p s t (rw (f, send) at e) in (f, a, b)
    go connecting f = let g : err invalid_state ≡ ok t = rw (f, send) at e in cc
    go closing f = let g : err invalid_state ≡ ok t = rw (f, send) at e in cc
    go closed f = let g : err invalid_state ≡ ok t = rw (f, send) at e in cc

pub send-IsSound :
    (reply : Reply) (p : Payload) (s t : Sender)
    → Sent reply p s t
    → IsSound s
    → IsSound t × KeepsAmount s t
send-IsSound reply p s t (behind e) h = rw e (enqueue_send_lem p s h)
send-IsSound reply p s t (at_once u b e f) h =
    ground (arith, send_native_lem reply p s (true, u), increase_lem (size p) u)
send-IsSound reply p s t (later u e f) h =
    ground (arith, send_native_lem reply p s (false, u), enqueue_send_lem p u)

wait_accepted-Sends :
    (rounds : List Round) (p : Payload) (s t : Sender)
    → IsFlushing s
    → wait_accepted rounds p s ≡ some t
    → Sends p s (true, t)
unfolding wait_accepted
wait_accepted-Sends [] p s t h e = cc
wait_accepted-Sends (r ∷ rs) p s t h e =
    go (wait_accepted-Sends rs p s t h)
      (send_native r.reply p (record s { native_open = r.open_now })) refl
  where
    go :
        (wait_accepted rs p s ≡ some t → Sends p s (true, t))
        → (o : Result (Bool × Sender))
        → send_native r.reply p (record s { native_open = r.open_now }) ≡ o
        → Sends p s (true, t)
    go again (err f) g = let k : none ≡ some t = rw (g, wait_accepted) at e in cc
    go again (ok (true, u)) g =
        let k : some u ≡ some t = rw (g, wait_accepted) at e in
        let sent =
          send_native_lem r.reply p (record s { native_open = r.open_now }) (true, u) h g in
        let same : u ≡ t = cc in rw (← same) sent
    go again (ok (false, u)) g =
        let k : (if r.ready then wait_accepted rs p s else none) ≡ some t =
          rw (g, wait_accepted) at e in
        elim (Bool-cases r.ready) [
          | inl b ↦ again (rw b at k)
          | inr b ↦ let f : none ≡ some t = rw b at k in cc
        ]

-- How the operation at the head of the queue ends: handed over, or reported by an error event.
abbrev pub Ends : Payload → Sender → Sender → Type 0
Ends p s t =
    ((t.handed_over ≡ s.handed_over ++ p ∷ []) × (t.error_events ≡ s.error_events))
    ⊎ ((t.handed_over ≡ s.handed_over) × (t.error_events ≡ s.error_events + 1))

abbrev popped : List Payload → Sender → Sender
popped rest s = record s { send_tail = rest }

-- What the body of a queued operation leaves for its `finally` part.
abbrev Attempted : Payload → Sender → Sender → Type 0
Attempted p s t =
    IsFlushing t
    × (t.send_tail ≡ s.send_tail)
    × (t.pending_send_count ≡ s.pending_send_count)
    × (outstanding t ≡ outstanding s)
    × (t.buffered_amount ≡ s.buffered_amount)
    × Ends p s t

attempt : Bool → List Round → Payload → Sender → Sender
unfolding wait_accepted
attempt ready rounds p s =
    let failed = record s { error_events = s.error_events + 1 } in
    if ready then elim (wait_accepted rounds p s) [ none ↦ failed | some t ↦ t ] else failed

attempt-Attempted :
    (ready : Bool) (rounds : List Round) (p : Payload) (s : Sender)
    → IsFlushing s
    → Attempted p s (attempt ready rounds p s)
unfolding attempt
attempt-Attempted false rounds p s h = (h, refl, refl, refl, refl, inr (refl, refl))
attempt-Attempted true rounds p s h = elim (Option-cases (wait_accepted rounds p s)) [
  | inl e ↦ rw (e, attempt) (h, refl, refl, refl, refl, inr (refl, refl))
  | inr (t, e) ↦
      let (a, b, c, d, f, g, k) = wait_accepted-Sends rounds p s t h e in
      rw (e, attempt) (a, b, c, f, g, inl (k, d))
]

run_send-attempt :
    (ready : Bool) (rounds : List Round) (s : Sender) (p : Payload) (rest : List Payload)
    → s.send_tail ≡ p ∷ rest
    → run_send ready rounds s ≡ (
        let u = attempt ready rounds p (popped rest s) in
        queue_decrease (size p) (record u { pending_send_count = u.pending_send_count - 1 }))
unfolding run_send attempt
run_send-attempt ready rounds s p rest e = rw (e, run_send)

pub run_send_lem :
    (ready : Bool) (rounds : List Round) (s : Sender) (p : Payload) (rest : List Payload)
    → s.send_tail ≡ p ∷ rest
    → IsSound s
    → let t = run_send ready rounds s in
      IsSound t × KeepsAmount s t × (t.send_tail ≡ rest) × Ends p s t
run_send_lem ready rounds s p rest e h =
    let u = attempt ready rounds p (popped rest s) in
    let a = attempt-Attempted ready rounds p (popped rest s) h.flushing in
    let v = record u { pending_send_count = u.pending_send_count - 1 } in
    let q = queue_decrease_lem (size p) v a.0 in
    let n : length s.send_tail ≡ suc (length rest) = ap length e in
    let m : total s.send_tail ≡ size p + total rest = ap total e in
    rw (run_send-attempt ready rounds s p rest e) (ground arith)
