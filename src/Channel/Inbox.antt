-- ===== src/Channel/Inbox.antt =====
-- The message queue of RTCDataChannel in lib/index.js: `_queueMessageEvent`, the flush loop, its gates
-- and the batch path of native messages.
pub mod Rounds
pub mod Flush
pub mod Batch
use webrtc_node.Base.{
  ℕ, zero, suc, ◌+◌, ◌-◌, List, [], ◌∷◌, ◌++◌, Option, none, some, Bool, true, false, not, ◌&&◌,
  ◌||◌, ltb, leb, ◌==◌, if◌then◌else◌, length, get_elem?, drop, is_some,
}
use webrtc_node.Channel.Data.{Payload}

-- A function that scripts set as `onmessage`: which one, whether its source text is that of native
-- code, and whether it is a `Function` of this realm.
pub record Handler : Type 0 where
  pub identity : ℕ
  pub native_code : Bool
  pub own_realm : Bool

-- `operations_pending` says that this peer or the paired one has operations under way, and
-- `waits_for_idle` that a callback is registered for their end. `dispatched` logs the messages for
-- which an event was dispatched.
pub record Inbox : Type 0 where
  pub closed : Bool
  pub queue : List Payload
  pub index : ℕ
  pub flush_scheduled : Bool
  pub gate_active : Bool
  pub consumer_gate_active : Bool
  pub operations_pending : Bool
  pub waits_for_idle : Bool
  pub handler : Option Handler
  pub needs_task_yield : Bool
  pub listener_count : ℕ
  pub dispatched : List Payload

-- What a consumer of an event may do to the channel before it returns, or throws.
pub data Action : Type 0 where
  shuts begins_operation adds_listener removes_listener : Action
  sets_handler : Option Handler → Action

pub record Reaction : Type 0 where
  pub actions : List Action
  pub throws : Bool

-- `_scheduleMessageEventFlush`, and `_scheduleMessageEventContinuation` but for its timer.
unfoldable pub schedule_flush : Inbox → Inbox
schedule_flush s = record s { flush_scheduled = true }

unfoldable pub queue_message_events : List Payload → Inbox → Inbox
unfolding schedule_flush
queue_message_events ms s = schedule_flush (record s { queue = s.queue ++ ms })

-- `_queueMessageEvent`.
unfoldable pub queue_message_event : Payload → Inbox → Inbox
unfolding schedule_flush
queue_message_event m s = schedule_flush (record s { queue = s.queue ++ m ∷ [] })

-- `_releaseMessageConsumerGate`.
unfoldable pub release_consumer_gate : Inbox → Inbox
unfolding schedule_flush
release_consumer_gate s =
    if s.consumer_gate_active then schedule_flush (record s { consumer_gate_active = false }) else s

-- `_messageContinuationNeedsTaskYield`.
abbrev pub yields : Option Handler → Bool
yields none = false
yields (some h) = h.native_code

-- The setter of `onmessage`.
unfoldable pub set_handler : Option Handler → Inbox → Inbox
unfolding release_consumer_gate
set_handler h s =
    let t = record s { handler = h; needs_task_yield = yields h } in
    if is_some h then release_consumer_gate t else t

-- `_eventListenerAdded` and `_eventListenerRemoved`, for "message".
unfoldable pub listener_added : Inbox → Inbox
unfolding release_consumer_gate
listener_added s = release_consumer_gate (record s { listener_count = s.listener_count + 1 })

unfoldable pub listener_removed : Inbox → Inbox
listener_removed s = record s { listener_count = s.listener_count - 1 }

unfoldable pub perform : Action → Inbox → Inbox
unfolding set_handler listener_added listener_removed
perform shuts s = record s { closed = true }
perform begins_operation s = record s { operations_pending = true }
perform adds_listener s = listener_added s
perform removes_listener s = listener_removed s
perform (sets_handler h) s = set_handler h s

unfoldable pub perform_all : List Action → Inbox → Inbox
perform_all [] s = s
perform_all (a ∷ as') s = perform_all as' (perform a s)

-- `_hasEventConsumer("message")`.
abbrev pub has_consumer : Inbox → Bool
has_consumer s = ltb 0 s.listener_count || is_some s.handler

abbrev same_handler : Handler → Option Handler → Bool
same_handler h none = false
same_handler h (some g) = h.identity == g.identity

-- `_canContinueMessageBatchInCurrentTask`.
unfoldable pub can_continue : Option Handler → Bool → Inbox → Bool
can_continue none yield_to_task s = false
can_continue (some h) yield_to_task s =
    h.own_realm && same_handler h s.handler && not yield_to_task && not (ltb 0 s.listener_count)

abbrev pub log : Payload → Inbox → Inbox
log m s = record s { dispatched = s.dispatched ++ m ∷ [] }

-- After a message: forget the queue at its end, or the first part of a long one.
unfoldable pub compact : Inbox → Inbox
compact s = if ltb 1024 s.index then record s { queue = drop s.index s.queue; index = 0 } else s

-- The returns of a round before it takes a message.
unfoldable pub early_return : Inbox → Option Inbox
early_return s =
    if s.closed
    then some (record s { queue = []; index = 0 })
    else if s.operations_pending
    then some (record s { waits_for_idle = true })
    else if s.gate_active
    then some s
    else if s.consumer_gate_active && not (has_consumer s)
    then some s
    else none

-- The end of a round, in the state `u` after its event; `rest` is what the next rounds lead to.
unfoldable pub end_round : Option Handler → Bool → Inbox → Inbox → Inbox
unfolding compact schedule_flush can_continue
end_round handler yield_to_task u rest =
    if leb (length u.queue) u.index
    then record u { queue = []; index = 0 }
    else if can_continue handler yield_to_task (compact u)
    then rest
    else schedule_flush (compact u)

-- `_flushQueuedMessageEvents`. The consumers of an event are called through `callListener`, which
-- catches what they throw. Each round takes a message, so fuel above their number is enough.
module _ (react : Payload → Reaction) where
  unfoldable pub dispatch_message : Payload → Inbox → Inbox
  unfolding perform_all
  dispatch_message m s = perform_all (react m).actions (log m s)

  -- The state after the event of the next message.
  abbrev pub after_next : Payload → Inbox → Inbox
  after_next m s =
      dispatch_message m (record s { consumer_gate_active = false; index = suc s.index })

  unfoldable pub flush : ℕ → Inbox → Inbox
  unfolding early_return dispatch_message end_round compact
  flush zero s = s
  flush (suc fuel) s = elim (early_return s) [
    | some t ↦ t
    | none ↦ elim (get_elem? s.queue s.index) [
      | none ↦ record s { consumer_gate_active = false; index = 0 }
      | some m ↦
          let u = after_next m s in
          let rest = flush fuel (compact u) in end_round s.handler s.needs_task_yield u rest
    ]
  ]

  -- The callback of `_scheduleMessageEventFlush`.
  unfoldable pub run_flush : ℕ → Inbox → Inbox
  unfolding flush
  run_flush fuel s = flush fuel (record s { flush_scheduled = false })

-- What `_dispatchNativeMessageBatch` does: return false, return true, or let an exception through.
pub data Outcome : Type 0 where
  declined taken raised : Inbox → Outcome

module _ (react : Payload → Reaction) where
  -- Its loop, which calls the handler without `callListener`.
  unfoldable pub batch_loop : Option Handler → Bool → List Payload → Inbox → Outcome
  unfolding perform_all can_continue schedule_flush
  batch_loop h y [] s = taken s
  batch_loop h y (m ∷ ms) s =
      let t = perform_all (react m).actions (log m s) in
      let rest = batch_loop h y ms t in
      if (react m).throws
      then raised t
      else if t.closed
      then taken t
      else if ltb 0 (length ms) && not (can_continue h y t)
      then taken (schedule_flush (record t { queue = t.queue ++ ms }))
      else rest

  unfoldable pub dispatch_native_message_batch : List Payload → Inbox → Outcome
  unfolding batch_loop can_continue
  dispatch_native_message_batch ms s =
      if s.closed
      then taken s
      else if ltb 0 (length s.queue)
      then declined s
      else if s.operations_pending || s.gate_active
      then declined s
      else if s.consumer_gate_active && not (has_consumer s)
      then declined s
      else let t = record s { consumer_gate_active = false } in
        if can_continue s.handler s.needs_task_yield t
        then batch_loop s.handler s.needs_task_yield ms t
        else declined t

  -- The channel's part of `_handleNativeEventBatch` for a run of messages.
  unfoldable pub receive_batch : List Payload → Inbox → Outcome
  unfolding dispatch_native_message_batch queue_message_events
  receive_batch ms s = elim (dispatch_native_message_batch ms s) [
    | declined t ↦ taken (queue_message_events ms t)
    | taken t ↦ taken t
    | raised t ↦ raised t
  ]
