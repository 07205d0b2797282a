-- ===== src/Tests/Life.antt =====
-- Tests and instances for the life of a data channel.
use webrtc_node.Base.{◌+◌, ◌≤◌, List, [], ◌∷◌, true, false, Bool, not, ◌&&◌, ◌≡◌, refl}
use webrtc_node.Channel.Data.{connecting, opened, closed, is_closed}
use webrtc_node.Channel.Lifecycle.{
  Life, World, native_open, native_close, native_event, runs_callback, peer_fails, native_closed,
  finish_close, Stimulus, step, steps,
}
use webrtc_node.Channel.Lifecycle.Closing.{Still, steps-open_once, step-closes, step-closed}
use webrtc_node.Channel.Lifecycle.Opening.{number}

abbrev new_channel : Life
new_channel = record {
  ready_state = connecting;
  native_is_open = false;
  native_is_closed = false;
  announcement_pending = false;
  drain_active = false;
  queued_native_events = [];
  open_event_pending = false;
  open_event_dispatched = false;
  deferred_for_ice = false;
  deferred_for_channel = false;
  deferral_expired = false;
  native_close_queued = false;
  native_close_scheduled = false;
  error_consumers = true;
  close_consumers = true;
  callbacks = [];
  open_events = 0;
  closing_events = 0;
  close_events = 0;
  error_events = 0;
  registrations = 0;
  messages = 0;
}

abbrev calm : World
calm = record {
  ice_pending = false;
  announcement_unsettled = false;
  peer_failed = false;
  spurious_close = false;
}

abbrev story : List (World × Bool × Stimulus)
story =
    (calm, false, native_event native_open)
    ∷ (calm, false, native_event native_open)
    ∷ (calm, false, native_event native_close)
    ∷ (calm, false, runs_callback native_closed)
    ∷ (calm, false, runs_callback finish_close)
    ∷ (calm, false, peer_fails)
    ∷ []

abbrev ended : Life
ended = record new_channel { ready_state = closed }

story_test :
    ((steps story new_channel).ready_state ≡ closed)
    × ((steps story new_channel).open_events ≡ 1)
    × ((steps story new_channel).closing_events ≡ 1)
    × ((steps story new_channel).close_events ≡ 1)
unfolding steps
story_test = (refl, refl, refl, refl)

-- A native open event that comes while the announcement of a closed channel is pending opens it again.
reopening_test :
    (step calm false
      (native_event native_open)
      (record ended { announcement_pending = true })).ready_state
    ≡ opened
unfolding step
reopening_test = refl

steps-open_once_example :
    ((steps story new_channel).open_events + number new_channel.open_event_dispatched
      ≡ new_channel.open_events + number (steps story new_channel).open_event_dispatched)
    × ((steps story new_channel).open_events ≤ new_channel.open_events + 1)
steps-open_once_example = steps-open_once story new_channel

step-closes_example :
    (step calm false peer_fails new_channel).close_events
    ≡ new_channel.close_events
      + number (
          is_closed (step calm false peer_fails new_channel).ready_state
          && not (is_closed new_channel.ready_state))
step-closes_example = step-closes calm false peer_fails new_channel

step-closed_example : Still ended (step calm false (native_event native_open) ended)
step-closed_example =
    step-closed calm false (native_event native_open) ended refl (refl, refl, refl)
