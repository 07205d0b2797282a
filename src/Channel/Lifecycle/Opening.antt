-- ===== src/Channel/Lifecycle/Opening.antt =====
-- How the steps of a data channel account for its open and close events.
use webrtc_node.Base.{
  ℕ, ◌+◌, List, [], ◌∷◌, Bool, true, false, not, ◌&&◌, ◌||◌, ◌≡◌, arith, if◌then◌else◌, if-holds,
}
use webrtc_node.Channel.Data.{is_closed}
use webrtc_node.Channel.Lifecycle.{
  Life, World, NativeEvent, native_open, native_message, native_low, native_error, native_close,
  Callback, announce_open, retry_after_ice, retry_after_channel, drain_next, native_closed,
  finish_close, close_now, close_if_closing, paired_closed, dispatch_open_event, handle_event_now,
  handle_native_event, handle_close, handle_native_close_event, finish_remote_close,
  run_paired_closed, run_drain, run_callback, queue_native_close_event, Stimulus, native_event,
  runs_callback, script_closes, paired_closes, peer_fails, repairs_open, announced, drains, step,
  close, handle_remote_channel_close, handle_peer_connection_failure, repair_missed_open_event,
  announce_open_after_event, flush_queued_native_events, later_on, is_native_open,
}

abbrev pub number : Bool → ℕ
number b = if b then 1 else 0

-- The open events that were dispatched are those that the flag tells of; a close event was dispatched
-- exactly if the channel has become closed.
pub record Accounts (s t : Life) : Type 0 where
  pub opens_once :
      t.open_events + number s.open_event_dispatched
      ≡ s.open_events + number t.open_event_dispatched
  pub closes_with_state :
      t.close_events
      ≡ s.close_events + number (is_closed t.ready_state && not (is_closed s.ready_state))

dispatch_open_event-Accounts : (w : World) (s : Life) → Accounts s (dispatch_open_event w s)
unfolding dispatch_open_event
dispatch_open_event-Accounts w s = record {
  opens_once = ground arith;
  closes_with_state = ground arith;
}

handle_event_now-Accounts :
    (w : World) (e : NativeEvent) (s : Life) → Accounts s (handle_event_now w e s)
unfolding handle_event_now dispatch_open_event queue_native_close_event
handle_event_now-Accounts w native_open s = record {
  opens_once = ground arith;
  closes_with_state = ground arith;
}
handle_event_now-Accounts w native_message s = record {
  opens_once = ground arith;
  closes_with_state = ground arith;
}
handle_event_now-Accounts w native_low s = record {
  opens_once = ground arith;
  closes_with_state = ground arith;
}
handle_event_now-Accounts w native_error s = record {
  opens_once = ground arith;
  closes_with_state = ground arith;
}
handle_event_now-Accounts w native_close s = record {
  opens_once = ground arith;
  closes_with_state = ground arith;
}

handle_native_event-Accounts :
    (w : World) (q : Bool) (e : NativeEvent) (s : Life) → Accounts s (handle_native_event w q e s)
unfolding handle_native_event
handle_native_event-Accounts w q e s =
    if-holds (Accounts s) (not q && (s.announcement_pending || s.drain_active))
      (if-holds (Accounts s) (is_native_open e)
        (record { opens_once = omega arith; closes_with_state = ground arith })
        (record { opens_once = omega arith; closes_with_state = ground arith }))
      (handle_event_now-Accounts w e s)

run_drain-Accounts : (w : World) (s : Life) → Accounts s (run_drain w s)
unfolding run_drain
run_drain-Accounts w s = go s.queued_native_events
  where
    after :
        (t : Life)
        → Accounts s t
        → (es : List NativeEvent)
        → Accounts s
            (elim es [ [] ↦ record t { drain_active = false } | f ∷ fs ↦ later_on drain_next t ])
    after t h [] = record { opens_once = h.opens_once; closes_with_state = h.closes_with_state }
    after t h (f ∷ fs) = record {
      opens_once = h.opens_once;
      closes_with_state = h.closes_with_state;
    }

    go :
        (es : List NativeEvent)
        → Accounts s (elim es [
          | [] ↦ record s { drain_active = false }
          | e ∷ rest ↦
              let t = handle_native_event w true e (record s { queued_native_events = rest }) in
              elim t.queued_native_events [
                | [] ↦ record t { drain_active = false }
                | f ∷ fs ↦ later_on drain_next t
              ]
        ])
    go [] = record { opens_once = omega arith; closes_with_state = ground arith }
    go (e ∷ rest) =
        let s' : Life = record s { queued_native_events = rest } in
        let t : Life = handle_native_event w true e s' in
        let h : Accounts s' t = handle_native_event-Accounts w true e s' in
        after t (record { opens_once = h.opens_once; closes_with_state = h.closes_with_state })
          t.queued_native_events

run_callback-Accounts :
    (w : World) (x : Bool) (c : Callback) (s : Life) → Accounts s (run_callback w x c s)
unfolding run_callback dispatch_open_event handle_native_close_event finish_remote_close
    handle_close run_paired_closed
run_callback-Accounts w x announce_open s = record {
  opens_once = ground arith;
  closes_with_state = ground arith;
}
run_callback-Accounts w x retry_after_ice s = record {
  opens_once = ground arith;
  closes_with_state = ground arith;
}
run_callback-Accounts w x retry_after_channel s = record {
  opens_once = ground arith;
  closes_with_state = ground arith;
}
run_callback-Accounts w x drain_next s = run_drain-Accounts w s
run_callback-Accounts w x native_closed s = record {
  opens_once = ground arith;
  closes_with_state = ground arith;
}
run_callback-Accounts w x finish_close s = record {
  opens_once = ground arith;
  closes_with_state = ground arith;
}
run_callback-Accounts w x close_now s = record {
  opens_once = ground arith;
  closes_with_state = ground arith;
}
run_callback-Accounts w x close_if_closing s = record {
  opens_once = ground arith;
  closes_with_state = ground arith;
}
run_callback-Accounts w x paired_closed s = record {
  opens_once = ground arith;
  closes_with_state = ground arith;
}

pub step-Accounts : (w : World) (b : Bool) (x : Stimulus) (s : Life) → Accounts s (step w b x s)
unfolding step close handle_remote_channel_close handle_peer_connection_failure handle_close
    repair_missed_open_event dispatch_open_event announce_open_after_event
    flush_queued_native_events
step-Accounts w b (native_event e) s = handle_native_event-Accounts w false e s
step-Accounts w b (runs_callback c) s = run_callback-Accounts w b c s
step-Accounts w b script_closes s = record {
  opens_once = ground arith;
  closes_with_state = ground arith;
}
step-Accounts w b paired_closes s = record {
  opens_once = ground arith;
  closes_with_state = ground arith;
}
step-Accounts w b peer_fails s = record {
  opens_once = ground arith;
  closes_with_state = ground arith;
}
step-Accounts w b repairs_open s = record {
  opens_once = ground arith;
  closes_with_state = ground arith;
}
step-Accounts w b announced s = record {
  opens_once = ground arith;
  closes_with_state = ground arith;
}
step-Accounts w b drains s = record { opens_once = ground arith; closes_with_state = ground arith }
