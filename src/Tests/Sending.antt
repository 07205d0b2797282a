-- ===== src/Tests/Sending.antt =====
-- Tests and instances for the sending side of a data channel.
use mathlib.Core.List.{Sublist}
use webrtc_node.Base.{
  ◌+◌, ◌≤◌, ◌≡◌, refl, [], ◌∷◌, some, true, false, ok, err, type_error, invalid_state, codes,
  length,
}
use webrtc_node.Channel.Data.{opened, connecting, text, blob, bytes, Payload, size, byte_length}
use webrtc_node.Channel.Sending.{
  Sender, accepted, refused, flush_decrease, send, run_send, run_task,
  mark_paired_delivery_received,
}
use webrtc_node.Channel.Sending.Accounting.{outstanding}
use webrtc_node.Channel.Sending.Order.{Runs, here, next, IsNew, Runs-covered, Runs-idle, Runs-order}
use webrtc_node.Channel.Sending.Moves.{sends, runs_send, runs_task, receives}

abbrev fresh : Sender
fresh = record {
  ready_state = opened;
  native_open = true;
  native_buffered = 0;
  synthetic = false;
  paired = true;
  paired_closed = false;
  max_message_size = some 100;
  buffered_amount = 0;
  threshold = 0;
  pending_decrease = 0;
  decrease_scheduled = false;
  pending_send_count = 0;
  send_tail = [];
  paired_bytes = 0;
  tasks = [];
  handed_over = [];
  low_events = 0;
  error_events = 0;
}

fresh-IsNew : IsNew fresh
fresh-IsNew = record {
  no_amount = refl;
  no_decrease = refl;
  not_scheduled = refl;
  no_sends = refl;
  no_queue = refl;
  no_tasks = refl;
  none_handed = refl;
  no_errors = refl;
}

abbrev one : Payload
one = bytes (1 ∷ 2 ∷ 3 ∷ [])

abbrev two : Payload
two = blob (4 ∷ 5 ∷ [])

sizes : (size (text (codes "abc")) ≡ 3) × (byte_length (0xd83d ∷ 0xde00 ∷ 0xe9 ∷ 0xd800 ∷ []) ≡ 9)
unfolding size byte_length
sizes = (refl, refl)

-- A message that the native channel takes, and a Blob behind it.
abbrev sent_one : Sender
sent_one = record fresh {
  buffered_amount = 3;
  pending_decrease = 3;
  decrease_scheduled = true;
  paired_bytes = 3;
  tasks = flush_decrease ∷ [];
  handed_over = one ∷ [];
}

abbrev sent_two : Sender
sent_two = record sent_one { buffered_amount = 5; pending_send_count = 1; send_tail = two ∷ [] }

abbrev all_sent : Sender
all_sent = record sent_two {
  pending_decrease = 5;
  pending_send_count = 0;
  send_tail = [];
  paired_bytes = 5;
  handed_over = one ∷ two ∷ [];
}

abbrev flushed : Sender
flushed = record all_sent {
  buffered_amount = 0;
  pending_decrease = 0;
  decrease_scheduled = false;
  tasks = [];
  low_events = 1;
}

history : Runs fresh (one ∷ two ∷ []) false flushed
unfolding send run_send run_task size
history =
    next
      (next
        (next (next here (sends accepted one refl) refl refl) (sends accepted two refl) refl refl)
        (runs_send true (record { reply = accepted; open_now = true; ready = true } ∷ []) two []
          refl)
        refl refl)
      (runs_task [] flush_decrease [] refl) refl refl

-- The receipt of the first message before it is flushed.
abbrev received : Sender
received = record sent_one {
  buffered_amount = 0;
  pending_decrease = 0;
  paired_bytes = 0;
  low_events = 1;
}

history_received : Runs fresh (one ∷ []) true received
unfolding send mark_paired_delivery_received size
history_received = next (next here (sends accepted one refl) refl refl) (receives one) refl refl

send_tests :
    (send accepted two (record fresh { ready_state = connecting }) ≡ err invalid_state)
    × (send accepted two (record fresh { max_message_size = some 1 }) ≡ err type_error)
    × (send refused one (record fresh { native_open = false })
        ≡ ok (record fresh {
          native_open = false;
          buffered_amount = 3;
          pending_send_count = 1;
          send_tail = one ∷ [];
        }))
unfolding send size
send_tests = (refl, refl, refl)

Runs-covered_example :
    (received.buffered_amount ≤ outstanding received)
    × (true ≡ false → received.buffered_amount ≡ outstanding received)
Runs-covered_example = Runs-covered fresh-IsNew history_received

Runs-idle_example : flushed.buffered_amount ≡ 0
Runs-idle_example = Runs-idle fresh-IsNew history refl refl

Runs-order_example :
    Sublist (one ∷ two ∷ []) (one ∷ two ∷ [])
    × (length (one ∷ two ∷ []) + flushed.error_events ≡ length (one ∷ two ∷ []))
    × (flushed.pending_send_count ≡ length flushed.send_tail)
Runs-order_example = Runs-order fresh-IsNew history
