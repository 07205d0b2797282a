-- ===== src/Channel/Sending.antt =====
-- Sending and the accounting of `bufferedAmount` in RTCDataChannel: `send`, `_enqueueSend`,
-- `_sendNativeString` and `_sendNativeBinary`, and the methods that raise and lower the amount.
pub mod Accounting
pub mod Moves
pub mod Order
pub mod Steps
use webrtc_node.Base.{
  ℕ, ◌+◌, ◌-◌, List, [], ◌∷◌, ◌++◌, Option, none, some, Bool, true, false, not, ◌&&◌, ◌||◌, ltb,
  leb, ◌==◌, min, if◌then◌else◌, Result, ok, err, type_error, invalid_state, operation_error, ◌>>=◌,
  ◌>>◌, throw_if,
}
use webrtc_node.Channel.Data.{
  ReadyState, connecting, opened, closing, closed, is_closed, Payload, text, blob, bytes, other,
  size, total,
}

-- What a callback that is handed to `setImmediate` or `setTimeout` will do.
pub data Task : Type 0 where
  decrease : ℕ → Task
  flush_decrease : Task
  deliver : Payload → Task

-- `native_open` and `native_buffered` are what the native channel answers; `synthetic` is
-- `_usesSyntheticPairDelivery()`; `paired` tells that there is a paired channel, and
-- `paired_closed` its state; `max_message_size` is `none` where the transport sets no limit.
-- `send_tail` holds the operations chained on `_sendTail`. `handed_over` logs what the native
-- channel, or the paired channel in its place, took; `low_events` and `error_events` count the
-- dispatched events.
pub record Sender : Type 0 where
  pub ready_state : ReadyState
  pub native_open : Bool
  pub native_buffered : ℕ
  pub synthetic : Bool
  pub paired : Bool
  pub paired_closed : Bool
  pub max_message_size : Option ℕ
  pub buffered_amount : ℕ
  pub threshold : ℕ
  pub pending_decrease : ℕ
  pub decrease_scheduled : Bool
  pub pending_send_count : ℕ
  pub send_tail : List Payload
  pub paired_bytes : ℕ
  pub tasks : List Task
  pub handed_over : List Payload
  pub low_events : ℕ
  pub error_events : ℕ

-- What `sendString` and `sendBinary` of the native channel do: return something but `false`, return
-- `false`, or throw.
pub data Reply : Type 0 where
  accepted refused raised : Reply

-- `_decreaseBufferedAmount`.
unfoldable pub decrease_buffered_amount : ℕ → Sender → Sender
decrease_buffered_amount n s =
    let rest = s.buffered_amount - n in
    record s {
      buffered_amount = rest;
      low_events =
          if ltb s.threshold s.buffered_amount && leb rest s.threshold
          then s.low_events + 1
          else s.low_events;
    }

-- `_scheduleBufferedAmountDecrease`; whether it waits for a timer or for the next turn of the loop
-- is not kept.
unfoldable pub schedule_decrease : Sender → Sender
schedule_decrease s =
    if s.decrease_scheduled
    then s
    else record s { decrease_scheduled = true; tasks = s.tasks ++ flush_decrease ∷ [] }

-- `_queueBufferedAmountDecrease`.
unfoldable pub queue_decrease : ℕ → Sender → Sender
unfolding schedule_decrease
queue_decrease n s =
    if n == 0
    then s
    else if s.synthetic
    then record s { tasks = s.tasks ++ decrease n ∷ [] }
    else schedule_decrease (record s { pending_decrease = s.pending_decrease + n })

-- `_increaseBufferedAmount`.
unfoldable pub increase_buffered_amount : ℕ → Sender → Sender
unfolding queue_decrease
increase_buffered_amount n s =
    if n == 0 then s else queue_decrease n (record s { buffered_amount = s.buffered_amount + n })

-- `_flushBufferedAmountDecrease`.
unfoldable pub flush_buffered_amount_decrease : Sender → Sender
unfolding schedule_decrease decrease_buffered_amount
flush_buffered_amount_decrease s =
    if s.pending_decrease == 0
    then s
    else if ltb 0 s.native_buffered && not (is_closed s.ready_state)
    then schedule_decrease s
    else decrease_buffered_amount s.pending_decrease (record s { pending_decrease = 0 })

-- A callback runs; its task has been taken from the list.
unfoldable pub run_task : Task → Sender → Sender
unfolding decrease_buffered_amount flush_buffered_amount_decrease
run_task (decrease n) s = decrease_buffered_amount n s
run_task flush_decrease s = flush_buffered_amount_decrease (record s { decrease_scheduled = false })
run_task (deliver p) s = s

-- `_trackPendingPairedDelivery`.
abbrev track_paired : ℕ → Sender → Sender
track_paired n s = if s.paired && ltb 0 n then record s { paired_bytes = s.paired_bytes + n } else s

-- `_deliverSyntheticMessage`: the paired channel gets the message in a callback, and where it is
-- closed the message is dropped, although `handed_over` has it.
abbrev deliver_synthetic : Payload → Sender → Sender
deliver_synthetic p s =
    if s.paired && not s.paired_closed then record s { tasks = s.tasks ++ deliver p ∷ [] } else s

abbrev hand_over : Payload → Sender → Sender
hand_over p s = record s { handed_over = s.handed_over ++ p ∷ [] }

-- `_sendNativeString` and `_sendNativeBinary`, which differ in how the size is taken.
unfoldable pub send_native : Reply → Payload → Sender → Result (Bool × Sender)
send_native reply p s =
    if s.synthetic
    then ok (true, deliver_synthetic p (track_paired (size p) (hand_over p s)))
    else elim reply [
      | raised ↦ err operation_error
      | accepted ↦ ok (true, track_paired (size p) (hand_over p s))
      | refused ↦
          if s.native_open then ok (true, track_paired (size p) (hand_over p s)) else ok (false, s)
    ]

-- `_enqueueSend`.
unfoldable pub enqueue_send : Payload → Sender → Sender
enqueue_send p s = record s {
  pending_send_count = s.pending_send_count + 1;
  buffered_amount = s.buffered_amount + size p;
  send_tail = s.send_tail ++ p ∷ [];
}

abbrev pub has_pending_sends : Sender → Bool
has_pending_sends s = ltb 0 s.pending_send_count

abbrev pub native_ready_for_send : Sender → Bool
native_ready_for_send s = s.synthetic || s.native_open

abbrev pub exceeds : ℕ → Option ℕ → Bool
exceeds n none = false
exceeds n (some limit) = ltb limit n

-- The branch of `send` for strings and for bytes.
unfoldable pub send_or_enqueue : Reply → Payload → Sender → Result Sender
unfolding enqueue_send send_native increase_buffered_amount
send_or_enqueue reply p s =
    if has_pending_sends s || not (native_ready_for_send s) then ok (enqueue_send p s) else do
      (sent, s') ← send_native reply p s
      ok (if sent then increase_buffered_amount (size p) s' else enqueue_send p s')

-- `send`, past the tests of the state.
unfoldable pub send_payload : Reply → Payload → Sender → Result Sender
unfolding send_or_enqueue
send_payload reply other s = err type_error
send_payload reply (blob bs) s = do
  throw_if (exceeds (size (blob bs)) s.max_message_size) type_error
  ok (enqueue_send (blob bs) s)
send_payload reply p s = do
  throw_if (exceeds (size p) s.max_message_size) type_error
  send_or_enqueue reply p s

unfoldable pub send : Reply → Payload → Sender → Result Sender
unfolding send_payload
send reply p s = elim s.ready_state [
  | connecting ↦ err invalid_state
  | opened ↦ send_payload reply p s
  | closing ↦ err invalid_state
  | closed ↦ err invalid_state
]

-- One round of the loop of `_waitForNativeSendAccepted` before its deadline: what the native channel
-- answers, whether it is open then, and whether the channel is ready in time for the next round.
pub record Round : Type 0 where
  pub reply : Reply
  pub open_now : Bool
  pub ready : Bool

-- The loop; `none` where it throws. After the last round it has met its deadline or a closed state.
unfoldable pub wait_accepted : List Round → Payload → Sender → Option Sender
wait_accepted [] p s = none
wait_accepted (r ∷ rs) p s =
    let rest = wait_accepted rs p s in
    elim (send_native r.reply p (record s { native_open = r.open_now })) [
      | err e ↦ none
      | ok (sent, s') ↦ if sent then some s' else if r.ready then rest else none
    ]

abbrev finish_send : ℕ → Sender → Sender
finish_send n s = queue_decrease n (record s { pending_send_count = s.pending_send_count - 1 })

-- The next operation of the chain runs, with the rounds that its loop makes; `ready` tells whether
-- `_waitForNativeSendReady` returns. The operation is one step, in which `synthetic` stays the same.
unfoldable pub run_send : Bool → List Round → Sender → Sender
unfolding wait_accepted queue_decrease
run_send ready rounds s = elim s.send_tail [
  | [] ↦ s
  | p ∷ rest ↦
      let s' = record s { send_tail = rest } in
      let failed = record s' { error_events = s.error_events + 1 } in
      finish_send (size p)
        (if ready then elim (wait_accepted rounds p s') [ none ↦ failed | some t ↦ t ] else failed)
]

-- `_decreaseBufferedAmountForPairedDelivery`.
unfoldable pub decrease_for_paired_delivery : ℕ → Sender → Sender
unfolding decrease_buffered_amount
decrease_for_paired_delivery n s =
    decrease_buffered_amount n
      (record s { pending_decrease = s.pending_decrease - min n s.pending_decrease })

-- `_markPairedDeliveryReceived`, run by the receiver on its paired channel, the sender.
unfoldable pub mark_paired_delivery_received : Payload → Sender → Sender
unfolding decrease_for_paired_delivery
mark_paired_delivery_received p s =
    if is_closed s.ready_state || size p == 0
    then s
    else decrease_for_paired_delivery (size p) (record s { paired_bytes = s.paired_bytes - size p })

-- Whether the native channel is closed by `close` at once or after the buffers have drained.
unfoldable pub should_drain_before_close : Sender → Bool
should_drain_before_close s = ltb 0 s.buffered_amount || has_pending_sends s || ltb 0 s.paired_bytes

-- `drained` in the poll of `_closeNativeAfterBufferedSends`.
unfoldable pub is_drained : Sender → Bool
is_drained s =
    if s.paired then s.paired_bytes == 0 else s.buffered_amount == 0 && s.native_buffered == 0
