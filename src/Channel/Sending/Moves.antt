-- ===== src/Channel/Sending/Moves.antt =====
-- One step of a sender, and what it keeps.
use webrtc_node.Base.{◌+◌, ◌≤◌, ◌≡◌, ◌∙◌, List, [], ◌∷◌, ◌++◌, Bool, true, false, ok, arith, ap}
use webrtc_node.Channel.Data.{Payload}
use webrtc_node.Channel.Sending.{
  Sender, Task, decrease, flush_decrease, deliver, Reply, Round, run_task, send, run_send,
  mark_paired_delivery_received,
}
use webrtc_node.Channel.Sending.Accounting.{
  due, flushes, due-append, flushes-append, outstanding, SameQueue, schedule_decrease_lem,
  decrease_buffered_amount_lem,
}
use webrtc_node.Channel.Sending.Steps.{IsSound, KeepsAmount}

-- What the surroundings change of a sender between its own steps: the state, what the native channel
-- answers, the pairing and the limits.
abbrev pub SameAccount : Sender → Sender → Type 0
SameAccount s t =
    (t.buffered_amount ≡ s.buffered_amount)
    × (t.pending_decrease ≡ s.pending_decrease)
    × (t.decrease_scheduled ≡ s.decrease_scheduled)
    × (t.pending_send_count ≡ s.pending_send_count)
    × (t.send_tail ≡ s.send_tail)
    × (t.tasks ≡ s.tasks)
    × (t.handed_over ≡ s.handed_over)
    × (t.error_events ≡ s.error_events)

-- A step, with the messages that it accepts for sending and whether it is the receipt of a message
-- by the paired channel. Callbacks run in any order.
pub data Step (s : Sender) : List Payload → Bool → Sender → Type 0 where
  sends :
      {t : Sender} (reply : Reply) (p : Payload) → send reply p s ≡ ok t → Step s (p ∷ []) false t
  runs_send :
      (ready : Bool) (rounds : List Round) (p : Payload) (rest : List Payload)
      → s.send_tail ≡ p ∷ rest
      → Step s [] false (run_send ready rounds s)
  runs_task :
      (before : List Task) (task : Task) (after : List Task)
      → s.tasks ≡ before ++ task ∷ after
      → Step s [] false (run_task task (record s { tasks = before ++ after }))
  receives : (p : Payload) → Step s [] true (mark_paired_delivery_received p s)
  changes : {t : Sender} → SameAccount s t → Step s [] false t

-- Taking one task out of the list.
abbrev taken : Sender → List Task → List Task → Sender
taken s before after = record s { tasks = before ++ after }

due_taken :
    (s : Sender) (before : List Task) (task : Task) (after : List Task)
    → s.tasks ≡ before ++ task ∷ after
    → (due s.tasks ≡ due (before ++ after) + due (task ∷ []))
      × (flushes s.tasks ≡ flushes (before ++ after) + flushes (task ∷ []))
due_taken s before task after e = (
  ap due e
      ∙ omega (
        arith,
        due-append before (task ∷ after),
        due-append before after,
        due-append (task ∷ []) after,
      ),
  ap flushes e
      ∙ omega (
        arith,
        flushes-append before (task ∷ after),
        flushes-append before after,
        flushes-append (task ∷ []) after,
      ),
)

pub run_task-keeps :
    (s : Sender) (before : List Task) (task : Task) (after : List Task)
    → s.tasks ≡ before ++ task ∷ after
    → IsSound s
    → let t = run_task task (taken s before after) in IsSound t × KeepsAmount s t × SameQueue s t
unfolding run_task
run_task-keeps s before (decrease n) after e h = ground (
  arith,
  due_taken s before (decrease n) after e,
  decrease_buffered_amount_lem n (taken s before after),
)
run_task-keeps s before flush_decrease after e h = ground (
  arith,
  due_taken s before flush_decrease after e,
  schedule_decrease_lem (record (taken s before after) { decrease_scheduled = false }),
)
run_task-keeps s before (deliver p) after e h =
    ground (arith, due_taken s before (deliver p) after e)

pub receives-keeps :
    (p : Payload) (s : Sender)
    → IsSound s
    → let t = mark_paired_delivery_received p s in
      IsSound t
      × (s.buffered_amount ≤ outstanding s → t.buffered_amount ≤ outstanding t)
      × SameQueue s t
unfolding mark_paired_delivery_received
receives-keeps p s h = ground (arith)
