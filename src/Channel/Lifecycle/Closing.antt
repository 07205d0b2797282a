-- ===== src/Channel/Lifecycle/Closing.antt =====
-- How often the open and the close event are dispatched, and what is left of a closed channel.
use webrtc_node.Base.{
  ◌+◌, ◌≤◌, List, [], ◌∷◌, Bool, true, false, not, ◌&&◌, ◌||◌, ◌≡◌, refl, arith, if-split,
}
use webrtc_node.Channel.Data.{closed, is_closed}
use webrtc_node.Channel.Lifecycle.{
  Life, World, NativeEvent, native_open, native_message, native_low, native_error, native_close,
  Callback, announce_open, retry_after_ice, retry_after_channel, drain_next, native_closed,
  finish_close, close_now, close_if_closing, paired_closed, dispatch_open_event, handle_event_now,
  handle_native_event, handle_close, handle_native_close_event, finish_remote_close,
  run_paired_closed, run_drain, run_callback, queue_native_close_event, Stimulus, native_event,
  runs_callback, script_closes, paired_closes, peer_fails, repairs_open, announced, drains, step,
  steps, close, handle_remote_channel_close, handle_peer_connection_failure,
  repair_missed_open_event, announce_open_after_event, flush_queued_native_events, later_on,
}
use webrtc_node.Channel.Lifecycle.Opening.{number, Accounts, step-Accounts}

-- Along any sequence of events, calls and callbacks, the open event is dispatched at most once, and
-- not at all if it has been before; in all, the flag tells whether it has.
pub steps-open_once :
    (xs : List (World × Bool × Stimulus)) (s : Life)
    → ((steps xs s).open_events + number s.open_event_dispatched
        ≡ s.open_events + number (steps xs s).open_event_dispatched)
      × ((steps xs s).open_events ≤ s.open_events + 1)
unfolding steps
steps-open_once [] s = (refl, omega arith)
steps-open_once ((w, b, x) ∷ xs) s =
    let h : Accounts s (step w b x s) = step-Accounts w b x s in
    let (e, l) = steps-open_once xs (step w b x s) in ground (arith, e, h.opens_once)

-- Any event, call or callback dispatches one close event if the channel was not closed before and is
-- closed after it, and none otherwise.
pub step-closes :
    (w : World) (b : Bool) (x : Stimulus) (s : Life)
    → (step w b x s).close_events
      ≡ s.close_events
        + number (is_closed (step w b x s).ready_state && not (is_closed s.ready_state))
step-closes w b x s = (step-Accounts w b x s).closes_with_state

-- Nothing is announced or drained, so that a native open event is told by the state.
abbrev pub IsSettled : Life → Type 0
IsSettled s =
    (s.announcement_pending ≡ false) × (s.open_event_pending ≡ false) × (s.drain_active ≡ false)

-- The channel is closed, and no open, closing or close event was dispatched in between.
abbrev pub Still : Life → Life → Type 0
Still s t =
    (t.ready_state ≡ closed)
    × (t.open_events ≡ s.open_events)
    × (t.closing_events ≡ s.closing_events)
    × (t.close_events ≡ s.close_events)

handle_event_now-Still :
    (w : World) (e : NativeEvent) (s : Life)
    → s.ready_state ≡ closed
    → s.open_event_pending ≡ false
    → Still s (handle_event_now w e s)
unfolding handle_event_now queue_native_close_event
handle_event_now-Still w native_open s c h = ground arith
handle_event_now-Still w native_message s c h = ground arith
handle_event_now-Still w native_low s c h = ground arith
handle_event_now-Still w native_error s c h = ground arith
handle_event_now-Still w native_close s c h = ground arith

run_drain-Still :
    (w : World) (s : Life)
    → s.ready_state ≡ closed
    → s.open_event_pending ≡ false
    → Still s (run_drain w s)
unfolding run_drain handle_native_event
run_drain-Still w s c h = go s.queued_native_events
  where
    after :
        (t : Life)
        → Still s t
        → (es : List NativeEvent)
        → Still s
            (elim es [ [] ↦ record t { drain_active = false } | f ∷ fs ↦ later_on drain_next t ])
    after t k [] = k
    after t k (f ∷ fs) = k

    go :
        (es : List NativeEvent)
        → Still s (elim es [
          | [] ↦ record s { drain_active = false }
          | e ∷ rest ↦
              let t = handle_native_event w true e (record s { queued_native_events = rest }) in
              elim t.queued_native_events [
                | [] ↦ record t { drain_active = false }
                | f ∷ fs ↦ later_on drain_next t
              ]
        ])
    go [] = (c, refl, refl, refl)
    go (e ∷ rest) =
        let s' : Life = record s { queued_native_events = rest } in
        let t : Life = handle_event_now w e s' in
        after t (handle_event_now-Still w e s' c h) t.queued_native_events

run_callback-Still :
    (w : World) (b : Bool) (k : Callback) (s : Life)
    → s.ready_state ≡ closed
    → s.open_event_pending ≡ false
    → Still s (run_callback w b k s)
unfolding run_callback dispatch_open_event handle_native_close_event finish_remote_close
    handle_close run_paired_closed
run_callback-Still w b announce_open s c h = ground arith
run_callback-Still w b retry_after_ice s c h = ground arith
run_callback-Still w b retry_after_channel s c h = ground arith
run_callback-Still w b drain_next s c h = run_drain-Still w s c h
run_callback-Still w b native_closed s c h = ground arith
run_callback-Still w b finish_close s c h = ground arith
run_callback-Still w b close_now s c h = ground arith
run_callback-Still w b close_if_closing s c h = ground arith
run_callback-Still w b paired_closed s c h = ground arith

both-false : {a b : Bool} → a ≡ false → b ≡ false → (not false && (a || b)) ≡ true → ⊥
both-false e f g = ground arith

-- Once a channel is closed with no announcement, pending open event or drain left, no event, call or
-- callback opens it or dispatches an open, closing or close event.
pub step-closed :
    (w : World) (b : Bool) (x : Stimulus) (s : Life)
    → s.ready_state ≡ closed
    → IsSettled s
    → Still s (step w b x s)
unfolding step handle_native_event close handle_remote_channel_close handle_close
    handle_peer_connection_failure repair_missed_open_event dispatch_open_event
    announce_open_after_event flush_queued_native_events
step-closed w b (native_event e) s c (a, p, d) =
    if-split (Still s) (not false && (s.announcement_pending || s.drain_active))
      (λ f. absurd (both-false a d f)) (λ f. handle_event_now-Still w e s c p)
step-closed w b (runs_callback k) s c (a, p, d) = run_callback-Still w b k s c p
step-closed w b script_closes s c (a, p, d) = ground arith
step-closed w b paired_closes s c (a, p, d) = ground arith
step-closed w b peer_fails s c (a, p, d) = ground arith
step-closed w b repairs_open s c (a, p, d) = ground arith
step-closed w b announced s c (a, p, d) = ground arith
step-closed w b drains s c (a, p, d) = ground arith
