-- ===== src/Channel/Sending/Accounting.antt =====
-- What `bufferedAmount` counts, and that each method keeps the count.
use webrtc_node.Base.{
  ℕ, suc, ◌+◌, ◌-◌, ◌<◌, ◌≡◌, List, [], ◌∷◌, ◌++◌, true, arith, Bool-cases, inl, inr, if◌then◌else◌,
}
use webrtc_node.Channel.Data.{Payload, total}
use webrtc_node.Channel.Sending.{
  Sender, Task, decrease, flush_decrease, deliver, decrease_buffered_amount, schedule_decrease,
  queue_decrease,
}

-- The decreases that callbacks will make.
abbrev pub due : List Task → ℕ
due [] = 0
due (decrease n ∷ ts) = n + due ts
due (flush_decrease ∷ ts) = due ts
due (deliver p ∷ ts) = due ts

abbrev pub flushes : List Task → ℕ
flushes [] = 0
flushes (decrease n ∷ ts) = flushes ts
flushes (flush_decrease ∷ ts) = suc (flushes ts)
flushes (deliver p ∷ ts) = flushes ts

pub due-append : (xs ys : List Task) → due (xs ++ ys) ≡ due xs + due ys
due-append [] ys = omega arith
due-append (decrease n ∷ xs) ys = omega (arith, due-append xs ys)
due-append (flush_decrease ∷ xs) ys = due-append xs ys
due-append (deliver p ∷ xs) ys = due-append xs ys

pub flushes-append : (xs ys : List Task) → flushes (xs ++ ys) ≡ flushes xs + flushes ys
flushes-append [] ys = omega arith
flushes-append (decrease n ∷ xs) ys = flushes-append xs ys
flushes-append (flush_decrease ∷ xs) ys = omega (arith, flushes-append xs ys)
flushes-append (deliver p ∷ xs) ys = flushes-append xs ys

pub total-append : (xs ys : List Payload) → total (xs ++ ys) ≡ total xs + total ys
total-append [] ys = omega arith
total-append (p ∷ xs) ys = omega (arith, total-append xs ys)

-- What is still to be taken off the amount: by the next flush, by the queued sends and by callbacks.
abbrev pub outstanding : Sender → ℕ
outstanding s = s.pending_decrease + total s.send_tail + due s.tasks

-- One flush is under way exactly when the flag says so, and one is under way whenever there is
-- something to flush.
abbrev pub IsFlushing : Sender → Type 0
IsFlushing s =
    (flushes s.tasks ≡ (if s.decrease_scheduled then 1 else 0))
    × (0 < s.pending_decrease → s.decrease_scheduled ≡ true)

-- What stays as it is when only the accounting of decreases runs.
abbrev pub SameQueue : Sender → Sender → Type 0
SameQueue s t =
    (t.send_tail ≡ s.send_tail)
    × (t.handed_over ≡ s.handed_over)
    × (t.pending_send_count ≡ s.pending_send_count)
    × (t.error_events ≡ s.error_events)

pub schedule_decrease_lem :
    (s : Sender)
    → flushes s.tasks ≡ (if s.decrease_scheduled then 1 else 0)
    → IsFlushing (schedule_decrease s)
      × SameQueue s (schedule_decrease s)
      × (outstanding (schedule_decrease s) ≡ outstanding s)
      × ((schedule_decrease s).buffered_amount ≡ s.buffered_amount)
unfolding schedule_decrease
schedule_decrease_lem s h = elim (Bool-cases s.decrease_scheduled) [
  | inl e ↦ ground arith
  | inr e ↦ ground (
    arith,
    flushes-append s.tasks (flush_decrease ∷ []),
    due-append s.tasks (flush_decrease ∷ []),
  )
]

pub queue_decrease_lem :
    (n : ℕ) (s : Sender)
    → IsFlushing s
    → IsFlushing (queue_decrease n s)
      × SameQueue s (queue_decrease n s)
      × (outstanding (queue_decrease n s) ≡ outstanding s + n)
      × ((queue_decrease n s).buffered_amount ≡ s.buffered_amount)
unfolding queue_decrease
queue_decrease_lem n s h = ground (
  arith,
  flushes-append s.tasks (decrease n ∷ []),
  due-append s.tasks (decrease n ∷ []),
  schedule_decrease_lem (record s { pending_decrease = s.pending_decrease + n }),
)

pub decrease_buffered_amount_lem :
    (n : ℕ) (s : Sender)
    → SameQueue s (decrease_buffered_amount n s)
      × (outstanding (decrease_buffered_amount n s) ≡ outstanding s)
      × ((decrease_buffered_amount n s).buffered_amount ≡ s.buffered_amount - n)
unfolding decrease_buffered_amount
decrease_buffered_amount_lem n s = ground arith
