-- ===== src/Tests/Receiving.antt =====
-- Tests and instances for the message queue of a data channel.
use webrtc_node.Base.{ℕ, ◌≡◌, refl, [], ◌∷◌, some, true, false, arith}
use webrtc_node.Channel.Data.{Payload, bytes}
use webrtc_node.Channel.Inbox.{
  Inbox, Handler, Reaction, shuts, perform, flush, receive_batch, taken, raised,
}
use webrtc_node.Channel.Inbox.Flush.{IsAttended, flush-Taken, flush-IsAttended}
use webrtc_node.Channel.Inbox.Rounds.{Taken, IsInRange}
use webrtc_node.Channel.Inbox.Batch.{Received, receive_batch-Received}

abbrev plain : Handler
plain = record { identity = 1; native_code = false; own_realm = true }

abbrev msg : ℕ → Payload
msg n = bytes (n ∷ [])

abbrev idle : Inbox
idle = record {
  closed = false;
  queue = [];
  index = 0;
  flush_scheduled = false;
  gate_active = false;
  consumer_gate_active = false;
  operations_pending = false;
  waits_for_idle = false;
  handler = some plain;
  needs_task_yield = false;
  listener_count = 0;
  dispatched = [];
}

abbrev loaded : Inbox
loaded = record idle { queue = msg 1 ∷ msg 2 ∷ msg 3 ∷ [] }

-- The consumers return and do nothing.
abbrev quiet : Payload → Reaction
quiet m = record { actions = []; throws = false }

abbrev failing : Payload → Reaction
failing m = record { actions = []; throws = true }

abbrev closing_one : Payload → Reaction
closing_one m = record { actions = shuts ∷ []; throws = false }

flush_tests :
    (flush quiet 5 loaded ≡ record idle { dispatched = msg 1 ∷ msg 2 ∷ msg 3 ∷ [] })
    × (flush failing 5 loaded ≡ record idle { dispatched = msg 1 ∷ msg 2 ∷ msg 3 ∷ [] })
    × (flush closing_one 5 loaded ≡ record idle { closed = true; dispatched = msg 1 ∷ [] })
    × (flush quiet 5 (record loaded { listener_count = 1 }) ≡ record loaded {
      listener_count = 1;
      index = 1;
      flush_scheduled = true;
      dispatched = msg 1 ∷ [];
    })
unfolding flush perform
flush_tests = (refl, refl, refl, refl)

batch_tests :
    (receive_batch quiet (msg 1 ∷ msg 2 ∷ []) idle
      ≡ taken (record idle { dispatched = msg 1 ∷ msg 2 ∷ [] }))
    × (receive_batch failing (msg 1 ∷ msg 2 ∷ []) idle
        ≡ raised (record idle { dispatched = msg 1 ∷ [] }))
unfolding receive_batch perform
batch_tests = (refl, refl)

flush-Taken_example : Taken loaded (flush quiet 5 loaded) × IsInRange (flush quiet 5 loaded)
flush-Taken_example = flush-Taken quiet 5 loaded (omega arith)

flush-IsAttended_example : IsAttended (flush quiet 5 loaded)
flush-IsAttended_example = flush-IsAttended quiet 5 loaded (omega arith) (omega arith)

receive_batch-Received_example :
    (t : Inbox) × (receive_batch quiet (msg 1 ∷ msg 2 ∷ []) idle ≡ taken t)
    × Received idle (msg 1 ∷ msg 2 ∷ []) t
receive_batch-Received_example =
    receive_batch-Received quiet (msg 1 ∷ msg 2 ∷ []) idle (refl, (refl, tt))
