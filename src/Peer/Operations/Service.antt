-- ===== src/Peer/Operations/Service.antt =====
-- The steps of a peer, and what they keep of its deferred ICE events and of its callbacks.
use webrtc_node.Base.{
  ℕ, List, [], ◌∷◌, ◌++◌, true, false, not, ◌||◌, ◌==◌, ◌≡◌, refl, ap, ◌∙◌, if-split, arith,
}
use webrtc_node.Peer.Negotiation.{gathering_now, gathering_complete}
use webrtc_node.Peer.Operations.{
  gathering_change, NativeEvent, Queue, is_empty_list, should_defer, receive, schedule_flush,
  has_pending_events, flush_event_callbacks, shift, end_turn, flush_turn, after_events_flushed,
  finish_operation, after_operations_idle, queue_restart_gathering, begin_operation, close_queue,
}

-- One step of a peer: an event comes, an operation begins or finishes, a scheduled turn runs, a
-- callback is registered, an ICE restart queues its events in an operation, or the peer is closed.
pub data Step : Queue → Queue → Type 0 where
  receives : (e : NativeEvent) (q : Queue) → Step q (receive e q)
  begins : (q : Queue) → Step q (begin_operation q)
  finishes : (q : Queue) → Step q (finish_operation q)
  turns_once : (q : Queue) → q.flush_scheduled ≡ true → Step q (flush_turn q)
  waits_for_events : (c : ℕ) (q : Queue) → Step q (after_events_flushed c q)
  waits_for_operations : (c : ℕ) (q : Queue) → Step q (after_operations_idle c q)
  restarts : (q : Queue) → (q.pending == 0) ≡ false → Step q (queue_restart_gathering q)
  closes : (q : Queue) → Step q (close_queue q)

pub data Reaches : Queue → Queue → Type 0 where
  stays : (q : Queue) → Reaches q q
  goes : (p q r : Queue) → Step p q → Reaches q r → Reaches p r

-- Deferred events of an idle open peer have a turn that is scheduled; a turn is scheduled for such
-- events, or once the peer is closed; callbacks that wait for a turn have one, and those that wait for
-- operations have an operation.
pub record IsServed (q : Queue) : Type 0 where
  pub has_turn :
      (is_empty_list q.deferred || (q.flush_scheduled || (not (q.pending == 0) || q.queue_closed)))
      ≡ true
  pub has_event :
      (not q.flush_scheduled || (not (is_empty_list q.deferred) || q.queue_closed)) ≡ true
  pub calls_back : (is_empty_list q.flush_callbacks || q.flush_scheduled) ≡ true
  pub runs_idle : (is_empty_list q.idle_callbacks || not (q.pending == 0)) ≡ true

snoc-is_empty_list {ℓ} : {A : Type ℓ} (l m : List A) (x : A) → is_empty_list (l ++ x ∷ m) ≡ false
snoc-is_empty_list [] m x = refl
snoc-is_empty_list (y ∷ l) m x = refl

receive-IsServed : (e : NativeEvent) (q : Queue) → IsServed q → IsServed (receive e q)
unfolding receive should_defer
receive-IsServed e q h =
    let k = snoc-is_empty_list q.deferred [] e in
    record {
      has_turn = ground arith;
      has_event = ground arith;
      calls_back = ground arith;
      runs_idle = ground arith;
    }

finish-IsServed : (q : Queue) → IsServed q → IsServed (finish_operation q)
unfolding finish_operation schedule_flush
finish-IsServed q h = record {
  has_turn = ground arith;
  has_event = ground arith;
  calls_back = ground arith;
  runs_idle = ground arith;
}

-- The end of a turn of an idle open peer, whose flag is down.
end_turn-IsServed :
    (q : Queue)
    → q.flush_scheduled ≡ false
    → q.queue_closed ≡ false
    → (q.pending == 0) ≡ true
    → is_empty_list q.idle_callbacks ≡ true
    → IsServed (end_turn q)
unfolding schedule_flush flush_event_callbacks has_pending_events
end_turn-IsServed q f c e i = record {
  has_turn = ground arith;
  has_event = ground arith;
  calls_back = ground arith;
  runs_idle = ground arith;
}

-- What the handling of the first deferred event keeps.
shift-keeps :
    (q : Queue)
    → ((shift q).flush_scheduled ≡ q.flush_scheduled)
      × ((shift q).queue_closed ≡ q.queue_closed)
      × ((shift q).pending ≡ q.pending)
      × ((shift q).idle_callbacks ≡ q.idle_callbacks)
shift-keeps q = (ground arith, ground arith, ground arith, ground arith)

pub turn-IsServed : (q : Queue) → q.flush_scheduled ≡ true → IsServed q → IsServed (flush_turn q)
unfolding flush_turn schedule_flush flush_event_callbacks has_pending_events
turn-IsServed q s h =
    let p : Queue = record q { flush_scheduled = false } in
    if-split IsServed q.queue_closed
      (λ c. record {
        has_turn = refl;
        has_event = ground arith;
        calls_back = refl;
        runs_idle = h.runs_idle;
      })
      (λ c.
        if-split IsServed (not (q.pending == 0))
          (λ e. record {
            has_turn = ground arith;
            has_event = ground arith;
            calls_back = ground arith;
            runs_idle = ground arith;
          })
          (λ e.
            let k = shift-keeps p in
            end_turn-IsServed (shift p) k.0 (k.1 ∙ c) (ap (λ x. x == 0) k.2 ∙ ground arith)
              (ap is_empty_list k.3 ∙ ground arith)))

events-IsServed : (c : ℕ) (q : Queue) → IsServed q → IsServed (after_events_flushed c q)
unfolding after_events_flushed schedule_flush has_pending_events
events-IsServed c q h =
    let k = snoc-is_empty_list q.flush_callbacks [] c in
    record {
      has_turn = ground arith;
      has_event = ground arith;
      calls_back = ground arith;
      runs_idle = ground arith;
    }

idle-IsServed : (c : ℕ) (q : Queue) → IsServed q → IsServed (after_operations_idle c q)
unfolding after_operations_idle
idle-IsServed c q h =
    let k = snoc-is_empty_list q.idle_callbacks [] c in
    record {
      has_turn = ground arith;
      has_event = ground arith;
      calls_back = ground arith;
      runs_idle = ground arith;
    }

restart-IsServed :
    (q : Queue) → (q.pending == 0) ≡ false → IsServed q → IsServed (queue_restart_gathering q)
unfolding queue_restart_gathering
restart-IsServed q e h =
    let k =
      snoc-is_empty_list q.deferred (gathering_change gathering_complete ∷ [])
        (gathering_change gathering_now) in
    record {
      has_turn = ground arith;
      has_event = ground arith;
      calls_back = ground arith;
      runs_idle = ground arith;
    }

step-IsServed : (q r : Queue) → Step q r → IsServed q → IsServed r
step-IsServed _ _ (receives e q) h = receive-IsServed e q h
step-IsServed _ _ (begins q) h = record {
  has_turn = ground arith;
  has_event = h.has_event;
  calls_back = h.calls_back;
  runs_idle = ground arith;
}
step-IsServed _ _ (finishes q) h = finish-IsServed q h
step-IsServed _ _ (turns_once q s) h = turn-IsServed q s h
step-IsServed _ _ (waits_for_events c q) h = events-IsServed c q h
step-IsServed _ _ (waits_for_operations c q) h = idle-IsServed c q h
step-IsServed _ _ (restarts q e) h = restart-IsServed q e h
step-IsServed _ _ (closes q) h = record {
  has_turn = refl;
  has_event = ground arith;
  calls_back = h.calls_back;
  runs_idle = h.runs_idle;
}

-- Along any steps from a queue that is served, it stays served: deferred ICE events of an open peer
-- without operations have a turn that is scheduled, a turn is scheduled only for deferred events or
-- once the peer is closed, callbacks that wait for the events have a turn, and those that wait for
-- operations have an operation.
pub Reaches-IsServed : (q r : Queue) → Reaches q r → IsServed q → IsServed r
Reaches-IsServed _ _ (stays q) h = h
Reaches-IsServed _ _ (goes p q r s w) h = Reaches-IsServed q r w (step-IsServed p q s h)
