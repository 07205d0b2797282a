-- ===== src/Peer/Operations.antt =====
-- The operations that are pending on an RTCPeerConnection in lib/index.js, and the native ICE events that
-- are put off while one is.
pub mod Service
pub mod Order
use webrtc_node.Base.{
  ℕ, ◌+◌, ◌-◌, List, [], ◌∷◌, ◌++◌, Bool, true, false, not, ◌&&◌, ◌||◌, ◌==◌, if◌then◌else◌, any,
}
use webrtc_node.Peer.Negotiation.{Gathering, gathering_now, gathering_complete}

-- A native event: a local candidate with its text's number, a change of the gathering state, or another.
pub data NativeEvent : Type 0 where
  local_candidate : ℕ → NativeEvent
  gathering_change : Gathering → NativeEvent
  other_event : ℕ → NativeEvent

-- `_closed`, `_operationsPending`, `_deferredIceEvents`, `_iceEventFlushScheduled`,
-- `_iceEventIdleCallbacks` and `_operationIdleCallbacks`. Callbacks have numbers; `immediates` logs
-- those that were given to setImmediate, `handled` the events that were handled. No turn ends while an
-- event is processed, so that `_processingDeferredIceEvent` is false between turns.
pub record Queue : Type 0 where
  pub queue_closed : Bool
  pub pending : ℕ
  pub deferred : List NativeEvent
  pub flush_scheduled : Bool
  pub flush_callbacks : List ℕ
  pub idle_callbacks : List ℕ
  pub immediates : List ℕ
  pub handled : List NativeEvent

abbrev pub is_ice_event : NativeEvent → Bool
is_ice_event (local_candidate c) = true
is_ice_event (gathering_change g) = true
is_ice_event (other_event n) = false

-- `_shouldDeferIceEvent`, outside the processing of a deferred event.
unfoldable pub should_defer : NativeEvent → Queue → Bool
should_defer e q = not (q.pending == 0) && is_ice_event e

abbrev pub handle : NativeEvent → Queue → Queue
handle e q = record q { handled = q.handled ++ e ∷ [] }

-- `_handleNativeEvent`; what it does with an event that is not put off is logged.
unfoldable pub receive : NativeEvent → Queue → Queue
unfolding should_defer
receive e q =
    if q.queue_closed
    then q
    else if should_defer e q
    then record q { deferred = q.deferred ++ e ∷ [] }
    else handle e q

abbrev pub is_empty_list {ℓ} : {A : Type ℓ} → List A → Bool
is_empty_list [] = true
is_empty_list (x ∷ l) = false

-- `_scheduleDeferredIceEventFlush`, up to setImmediate.
unfoldable pub schedule_flush : Queue → Queue
schedule_flush q =
    if q.flush_scheduled || is_empty_list q.deferred then q else record q { flush_scheduled = true }

-- `_hasPendingDeferredIceEvents`.
unfoldable pub has_pending_events : Queue → Bool
has_pending_events q = not (is_empty_list q.deferred) || q.flush_scheduled

-- `_flushIceEventIdleCallbacks`.
unfoldable pub flush_event_callbacks : Queue → Queue
unfolding has_pending_events
flush_event_callbacks q =
    if has_pending_events q
    then q
    else record q { flush_callbacks = []; immediates = q.immediates ++ q.flush_callbacks }

-- The end of a turn: the next event waits for another turn.
abbrev pub end_turn : Queue → Queue
unfolding schedule_flush flush_event_callbacks
end_turn q = if not (is_empty_list q.deferred) then schedule_flush q else flush_event_callbacks q

-- The first deferred event is handled.
abbrev pub shift : Queue → Queue
shift q = elim q.deferred [ [] ↦ q | e ∷ rest ↦ handle e (record q { deferred = rest }) ]

-- The callback of `_scheduleDeferredIceEventFlush`, one turn of setImmediate.
unfoldable pub flush_turn : Queue → Queue
unfolding schedule_flush flush_event_callbacks
flush_turn q =
    let p = record q { flush_scheduled = false } in
    if p.queue_closed
    then flush_event_callbacks (record p { deferred = [] })
    else if not (p.pending == 0)
    then schedule_flush p
    else end_turn (shift p)

-- `_afterDeferredIceEventsFlushed`.
unfoldable pub after_events_flushed : ℕ → Queue → Queue
unfolding has_pending_events schedule_flush
after_events_flushed callback q =
    if q.queue_closed || not (has_pending_events q)
    then record q { immediates = q.immediates ++ callback ∷ [] }
    else schedule_flush (record q { flush_callbacks = q.flush_callbacks ++ callback ∷ [] })

abbrev run_idle_callbacks : Queue → Queue
run_idle_callbacks q = record q {
  idle_callbacks = [];
  immediates = q.immediates ++ q.idle_callbacks;
}

-- `_finishPendingOperation`; the transports and the candidates of the peers are left out.
unfoldable pub finish_operation : Queue → Queue
unfolding schedule_flush
finish_operation q =
    let p = record q { pending = q.pending - 1 } in
    if p.pending == 0 then run_idle_callbacks (schedule_flush p) else p

-- `_afterOperationsIdle`.
unfoldable pub after_operations_idle : ℕ → Queue → Queue
after_operations_idle callback q =
    if q.queue_closed || q.pending == 0
    then record q { immediates = q.immediates ++ callback ∷ [] }
    else record q { idle_callbacks = q.idle_callbacks ++ callback ∷ [] }

abbrev pub is_gathering_change : NativeEvent → Bool
is_gathering_change (gathering_change g) = true
is_gathering_change (local_candidate c) = false
is_gathering_change (other_event n) = false

-- `_queueSyntheticIceRestartGathering`.
unfoldable pub queue_restart_gathering : Queue → Queue
queue_restart_gathering q = if any is_gathering_change q.deferred then q else record q {
  deferred =
      q.deferred ++ gathering_change gathering_now ∷ gathering_change gathering_complete ∷ [];
}

-- The beginning of an operation, and the closing of the peer.
abbrev pub begin_operation : Queue → Queue
begin_operation q = record q { pending = q.pending + 1 }

abbrev pub close_queue : Queue → Queue
close_queue q = record q { queue_closed = true; deferred = [] }
