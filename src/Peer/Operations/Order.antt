-- ===== src/Peer/Operations/Order.antt =====
-- The turns in which deferred ICE events of an RTCPeerConnection are handled, and their callbacks.
use webrtc_node.Base.{
  ℕ, zero, suc, List, [], ◌∷◌, ◌++◌, true, false, not, ◌||◌, ◌==◌, ◌≡◌, refl, sym, ap, ◌∙◌,
  if-holds, if-split, arith, length, append-nil, append_assoc,
}
use webrtc_node.Peer.Operations.{
  NativeEvent, Queue, is_empty_list, schedule_flush, has_pending_events, flush_event_callbacks,
  shift, end_turn, flush_turn,
}
use webrtc_node.Peer.Operations.Service.{IsServed, turn-IsServed}

-- Turns of setImmediate, one after the other.
abbrev pub turns : ℕ → Queue → Queue
turns zero q = q
turns (suc k) q = turns k (flush_turn q)

-- All events are handled in their order, and all callbacks were called back.
pub record IsDrained (q t : Queue) : Type 0 where
  pub none_left : t.deferred ≡ []
  pub in_order : t.handled ≡ q.handled ++ q.deferred
  pub called_back : t.immediates ≡ q.immediates ++ q.flush_callbacks
  pub none_waits : t.flush_callbacks ≡ []

empty_list : {A : Type 0} (l : List A) → is_empty_list l ≡ true → l ≡ []
empty_list [] e = refl
empty_list (x ∷ l) e = cc

-- What one turn of an idle open peer does with its first deferred event.
record TurnOf (x : NativeEvent) (l : List NativeEvent) (q t : Queue) : Type 0 where
  rest_left : t.deferred ≡ l
  handles : t.handled ≡ q.handled ++ x ∷ []
  stays_open : t.queue_closed ≡ q.queue_closed
  stays_idle : t.pending ≡ q.pending
  keeps_callbacks : t.immediates ++ t.flush_callbacks ≡ q.immediates ++ q.flush_callbacks

end_turn-TurnOf :
    (x : NativeEvent) (l : List NativeEvent) (q p : Queue)
    → TurnOf x l q p
    → TurnOf x l q (end_turn p)
unfolding schedule_flush flush_event_callbacks has_pending_events
end_turn-TurnOf x l q p h =
    if-holds (TurnOf x l q) (not (is_empty_list p.deferred))
      (if-holds (TurnOf x l q) (p.flush_scheduled || is_empty_list p.deferred) h (record {
        rest_left = h.rest_left;
        handles = h.handles;
        stays_open = h.stays_open;
        stays_idle = h.stays_idle;
        keeps_callbacks = h.keeps_callbacks;
      }))
      (if-holds (TurnOf x l q) (not (is_empty_list p.deferred) || p.flush_scheduled) h (record {
        rest_left = h.rest_left;
        handles = h.handles;
        stays_open = h.stays_open;
        stays_idle = h.stays_idle;
        keeps_callbacks = append-nil _ ∙ h.keeps_callbacks;
      }))

shift-TurnOf :
    (x : NativeEvent) (l : List NativeEvent) (q : Queue)
    → q.deferred ≡ x ∷ l
    → TurnOf x l q (shift (record q { flush_scheduled = false }))
shift-TurnOf x l q d = rw d (record {
  rest_left = refl;
  handles = refl;
  stays_open = refl;
  stays_idle = refl;
  keeps_callbacks = refl;
})

flush_turn-TurnOf :
    (x : NativeEvent) (l : List NativeEvent) (q : Queue)
    → q.deferred ≡ x ∷ l
    → q.queue_closed ≡ false
    → (q.pending == 0) ≡ true
    → TurnOf x l q (flush_turn q)
unfolding flush_turn schedule_flush
flush_turn-TurnOf x l q d c e =
    if-split (TurnOf x l q) q.queue_closed (λ f. absurd (ground arith))
      (λ f.
        if-split (TurnOf x l q) (not (q.pending == 0)) (λ g. absurd (ground arith))
          (λ g.
            end_turn-TurnOf x l q (shift (record q { flush_scheduled = false }))
              (shift-TurnOf x l q d)))

-- As many turns as there are deferred events drain an idle open peer.
record Drains (l : List NativeEvent) (q t : Queue) : Type 0 where
  none_left : t.deferred ≡ []
  in_order : t.handled ≡ q.handled ++ l
  keeps_callbacks : t.immediates ++ t.flush_callbacks ≡ q.immediates ++ q.flush_callbacks
  none_waits : t.flush_callbacks ≡ []

Drains-list :
    (l : List NativeEvent) (q : Queue)
    → q.deferred ≡ l
    → q.queue_closed ≡ false
    → (q.pending == 0) ≡ true
    → IsServed q
    → Drains l q (turns (length l) q)
Drains-list [] q d c e h = record {
  none_left = d;
  in_order = sym (append-nil q.handled);
  keeps_callbacks = refl;
  none_waits = empty_list q.flush_callbacks (ground arith);
}
Drains-list (x ∷ l) q d c e h =
    let k = flush_turn-TurnOf x l q d c e in
    let s : q.flush_scheduled ≡ true = ground arith in
    let i =
      Drains-list l (flush_turn q) k.rest_left (k.stays_open ∙ c)
        (ap (λ n. n == 0) k.stays_idle ∙ e) (turn-IsServed q s h) in
    record {
      none_left = i.none_left;
      in_order = i.in_order ∙ (ap (λ m. m ++ l) k.handles ∙ append_assoc q.handled (x ∷ []) l);
      keeps_callbacks = i.keeps_callbacks ∙ k.keeps_callbacks;
      none_waits = i.none_waits;
    }

-- On a served open peer without operations, as many turns as there are deferred ICE events handle
-- all of them in their order, and call back all that waits for them in order.
pub turns-IsDrained :
    (q : Queue)
    → IsServed q
    → q.queue_closed ≡ false
    → q.pending ≡ 0
    → IsDrained q (turns (length q.deferred) q)
turns-IsDrained q h c e =
    let t : Queue = turns (length q.deferred) q in
    let d = Drains-list q.deferred q refl c (ground arith) h in
    record {
      none_left = d.none_left;
      in_order = d.in_order;
      called_back =
          sym (append-nil t.immediates)
          ∙ (ap (λ m. t.immediates ++ m) (sym d.none_waits) ∙ d.keeps_callbacks);
      none_waits = d.none_waits;
    }
