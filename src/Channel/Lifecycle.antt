-- ===== src/Channel/Lifecycle.antt =====
-- The life of an RTCDataChannel in lib/index.js: `readyState`, the open event and its deferrals, the
-- close by scripts, by the native channel, by the paired channel and by the peer's failure.
pub mod Opening
pub mod Closing
use webrtc_node.Base.{
  ℕ, ◌+◌, List, [], ◌∷◌, ◌++◌, Option, none, some, Bool, true, false, not, ◌&&◌, ◌||◌, ltb, ◌==◌,
  if◌then◌else◌, is_some,
}
use webrtc_node.Channel.Data.{ReadyState, connecting, opened, closing, closed, is_closed}

pub data NativeEvent : Type 0 where
  native_open native_message native_low native_error native_close : NativeEvent

-- What a callback in a timer, or one that waits for the peers or for the queued messages, will do.
pub data Callback : Type 0 where
  announce_open retry_after_ice retry_after_channel drain_next native_closed : Callback
  finish_close close_now close_if_closing paired_closed : Callback

-- `native_is_open` and `native_is_closed` are what the native channel answers; `error_consumers` and
-- `close_consumers` say whether the error and the close event have a consumer. `registrations` counts
-- the calls of `_registerDataChannelId`, and `messages` those of `_queueMessageEvent`.
pub record Life : Type 0 where
  pub ready_state : ReadyState
  pub native_is_open : Bool
  pub native_is_closed : Bool
  pub announcement_pending : Bool
  pub drain_active : Bool
  pub queued_native_events : List NativeEvent
  pub open_event_pending : Bool
  pub open_event_dispatched : Bool
  pub deferred_for_ice : Bool
  pub deferred_for_channel : Bool
  pub deferral_expired : Bool
  pub native_close_queued : Bool
  pub native_close_scheduled : Bool
  pub error_consumers : Bool
  pub close_consumers : Bool
  pub callbacks : List Callback
  pub open_events : ℕ
  pub closing_events : ℕ
  pub close_events : ℕ
  pub error_events : ℕ
  pub registrations : ℕ
  pub messages : ℕ

-- What the methods ask of the peers: whether deferred ICE events are pending, whether the announcement
-- to the paired peer is not settled, whether the peer has failed, and whether a native close is taken
-- for spurious.
pub record World : Type 0 where
  pub ice_pending : Bool
  pub announcement_unsettled : Bool
  pub peer_failed : Bool
  pub spurious_close : Bool

abbrev pub later_on : Callback → Life → Life
later_on c s = record s { callbacks = s.callbacks ++ c ∷ [] }

abbrev pub start_closing : Life → Life
start_closing s = record s { ready_state = closing; closing_events = s.closing_events + 1 }

abbrev pub is_open : ReadyState → Bool
is_open opened = true
is_open _ = false

abbrev pub is_closing : ReadyState → Bool
is_closing closing = true
is_closing _ = false

abbrev pub is_connecting : ReadyState → Bool
is_connecting connecting = true
is_connecting _ = false

-- `_dispatchOpenEvent`, `_pendingIceEventPeer` and `_pendingDataChannelAnnouncementPeer`.
unfoldable pub dispatch_open_event : World → Life → Life
dispatch_open_event w s =
    if s.open_event_dispatched || not (is_open s.ready_state)
    then s
    else if w.ice_pending
    then if s.deferred_for_ice
      then s
      else later_on retry_after_ice (record s { deferred_for_ice = true })
    else if not s.deferral_expired && w.announcement_unsettled
    then if s.deferred_for_channel
      then s
      else later_on retry_after_channel (record s { deferred_for_channel = true })
    else record s { open_event_dispatched = true; open_events = s.open_events + 1 }

-- `_announceOpenAfterDataChannelEvent`.
unfoldable pub announce_open_after_event : Life → Life
announce_open_after_event s =
    if s.open_event_pending
    then later_on announce_open (record s { open_event_pending = false })
    else s

-- `_queueNativeCloseEvent`, with the callback that `_deferRemoteCloseUntilMessagesFlushed` runs when
-- no message is waiting.
unfoldable pub queue_native_close_event : Life → Life
queue_native_close_event s =
    if s.native_close_queued
    then s
    else later_on native_closed (record s { native_close_queued = true })

abbrev opens : Life → Life
opens s = record s { ready_state = opened; registrations = s.registrations + 1 }

-- The switch of `_handleNativeEvent`.
unfoldable pub handle_event_now : World → NativeEvent → Life → Life
unfolding dispatch_open_event queue_native_close_event
handle_event_now w native_open s =
    if s.open_event_pending
    then opens s
    else if is_connecting s.ready_state || is_open s.ready_state
    then dispatch_open_event w (opens s)
    else s
handle_event_now w native_message s = record s { messages = s.messages + 1 }
handle_event_now w native_low s = s
handle_event_now w native_error s = record s { error_events = s.error_events + 1 }
handle_event_now w native_close s = queue_native_close_event s

abbrev pub is_native_open : NativeEvent → Bool
is_native_open native_open = true
is_native_open _ = false

-- `_handleNativeEvent`.
unfoldable pub handle_native_event : World → Bool → NativeEvent → Life → Life
unfolding handle_event_now
handle_native_event w from_queue e s =
    if not from_queue && (s.announcement_pending || s.drain_active)
    then if is_native_open e
      then record s { ready_state = opened; open_event_pending = true }
      else record s { queued_native_events = s.queued_native_events ++ e ∷ [] }
    else handle_event_now w e s

-- `_handleClose`; what it undoes in the peer's registries is left to them.
unfoldable pub handle_close : Life → Life
handle_close s =
    if is_closed s.ready_state
    then s
    else record s { ready_state = closed; close_events = s.close_events + 1 }

abbrev report_failure : Life → Life
report_failure s =
    if s.error_consumers && s.close_consumers
    then record s { error_events = s.error_events + 1 }
    else s

-- `_handleNativeCloseEvent`.
unfoldable pub handle_native_close_event : World → Life → Life
unfolding handle_close
handle_native_close_event w s =
    if w.spurious_close
    then s
    else if is_open s.ready_state
    then later_on finish_close (start_closing s)
    else handle_close s

-- `_finishRemoteClose`.
unfoldable pub finish_remote_close : World → Life → Life
unfolding handle_close
finish_remote_close w s =
    if is_closing s.ready_state
    then handle_close (if w.peer_failed then report_failure s else s)
    else s

-- `_handleRemoteChannelClose`; its callback waits for the queued messages.
unfoldable pub handle_remote_channel_close : Life → Life
handle_remote_channel_close s = if is_closed s.ready_state then s else later_on paired_closed s

-- The callback.
unfoldable pub run_paired_closed : Life → Life
run_paired_closed s =
    if is_closed s.ready_state
    then s
    else if is_closing s.ready_state
    then later_on close_now s
    else later_on close_now (start_closing s)

-- `_handlePeerConnectionFailure`.
unfoldable pub handle_peer_connection_failure : Life → Life
unfolding handle_close
handle_peer_connection_failure s =
    if is_closed s.ready_state
    then s
    else let t = if is_open s.ready_state then record s { ready_state = closing } else s in
      handle_close (report_failure t)

-- `close`; the native channel is closed in a callback, and what waits for it closes this one.
unfoldable pub close : Life → Life
close s =
    if is_closing s.ready_state || is_closed s.ready_state
    then s
    else let t = record s { ready_state = closing } in
      if s.native_close_scheduled
      then t
      else later_on close_if_closing (record t { native_close_scheduled = true })

-- `_repairMissedOpenEvent`, with what it returns.
unfoldable pub repair_missed_open_event : World → Life → Bool × Life
unfolding dispatch_open_event
repair_missed_open_event w s =
    if not (is_connecting s.ready_state) || s.native_is_closed || not s.native_is_open
    then (false, s)
    else if s.announcement_pending
    then (true, record (opens s) { open_event_pending = true })
    else (true, dispatch_open_event w (opens s))

-- `dispatchNext` in `_flushQueuedNativeEventsAfterAnnouncement`.
unfoldable pub run_drain : World → Life → Life
unfolding handle_native_event
run_drain w s = elim s.queued_native_events [
  | [] ↦ record s { drain_active = false }
  | e ∷ rest ↦
      let t = handle_native_event w true e (record s { queued_native_events = rest }) in
      elim t.queued_native_events [
        | [] ↦ record t { drain_active = false }
        | f ∷ fs ↦ later_on drain_next t
      ]
]

-- `_flushQueuedNativeEventsAfterAnnouncement`.
unfoldable pub flush_queued_native_events : Life → Life
flush_queued_native_events s = elim s.queued_native_events [
  | [] ↦ s
  | e ∷ rest ↦ later_on drain_next (record s { drain_active = true })
]

-- A callback runs; `expired` says that the announcement that it waited for did not settle.
unfoldable pub run_callback : World → Bool → Callback → Life → Life
unfolding dispatch_open_event run_drain handle_native_close_event finish_remote_close handle_close
    run_paired_closed
run_callback w expired announce_open s = dispatch_open_event w s
run_callback w expired retry_after_ice s =
    dispatch_open_event w (record s { deferred_for_ice = false })
run_callback w expired retry_after_channel s =
    dispatch_open_event w
      (record s { deferred_for_channel = false; deferral_expired = s.deferral_expired || expired })
run_callback w expired drain_next s = run_drain w s
run_callback w expired native_closed s =
    if is_closed s.ready_state
    then s
    else handle_native_close_event w (record s { native_close_queued = false })
run_callback w expired finish_close s = finish_remote_close w s
run_callback w expired close_now s = handle_close s
run_callback w expired paired_closed s = run_paired_closed s
run_callback w expired close_if_closing s = if is_closing s.ready_state then handle_close s else s

-- What scripts, native events and callbacks do to the channel. What surrounds it, as the announcement
-- and the adoption of a native channel, is left as it is.
pub data Stimulus : Type 0 where
  native_event : NativeEvent → Stimulus
  runs_callback : Callback → Stimulus
  script_closes paired_closes peer_fails repairs_open announced drains : Stimulus

unfoldable pub step : World → Bool → Stimulus → Life → Life
unfolding handle_native_event run_callback close handle_remote_channel_close
    handle_peer_connection_failure repair_missed_open_event announce_open_after_event
    flush_queued_native_events
step w expired (native_event e) s = handle_native_event w false e s
step w expired (runs_callback c) s = run_callback w expired c s
step w expired script_closes s = close s
step w expired paired_closes s = handle_remote_channel_close s
step w expired peer_fails s = handle_peer_connection_failure s
step w expired repairs_open s = (repair_missed_open_event w s).1
step w expired announced s = announce_open_after_event s
step w expired drains s = flush_queued_native_events s

unfoldable pub steps : List (World × Bool × Stimulus) → Life → Life
unfolding step
steps [] s = s
steps ((w, expired, x) ∷ xs) s = steps xs (step w expired x s)
