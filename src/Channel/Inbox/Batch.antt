-- ===== src/Channel/Inbox/Batch.antt =====
-- The batch path of native messages.
use webrtc_node.Base.{
  ◌≡◌, refl, sym, ap, ◌∙◌, List, [], ◌∷◌, ◌++◌, Option, Bool, true, false, not, ◌&&◌, ◌||◌, ◌⊎◌,
  inl, inr, arith, length, append-nil, append_assoc, Bool-cases, ltb, All,
}
use webrtc_node.Channel.Data.{Payload}
use webrtc_node.Channel.Inbox.{
  Inbox, Handler, Reaction, perform_all, Outcome, declined, taken, batch_loop,
  dispatch_native_message_batch, receive_batch, can_continue, has_consumer, schedule_flush, log,
  queue_message_events,
}
use webrtc_node.Channel.Inbox.Rounds.{perform_all-SameQueue}

-- Handlers that return.
abbrev pub NoneThrows : (Payload → Reaction) → List Payload → Type 0
NoneThrows react ms = All (λ m. (react m).throws ≡ false) ms

-- What becomes of a batch: its first messages are dispatched, and the others wait behind those that
-- waited before, unless the channel was closed.
pub record Received (s : Inbox) (ms : List Payload) (t : Inbox) : Type 0 where
  pub done : List Payload
  pub left : List Payload
  pub all_there : s.queue ++ ms ≡ done ++ left
  pub are_dispatched : t.dispatched ≡ s.dispatched ++ done
  pub still_queued : (t.queue ≡ left) ⊎ (t.closed ≡ true)

module _ (react : Payload → Reaction) where
  -- The state after the handler has returned.
  abbrev handled : Payload → Inbox → Inbox
  handled m s = perform_all (react m).actions (log m s)

  batch_loop-Received :
      (h : Option Handler) (y : Bool) (ms : List Payload) (s : Inbox)
      → NoneThrows react ms
      → s.queue ≡ []
      → (t : Inbox) × (batch_loop react h y ms s ≡ taken t) × Received s ms t
  unfolding batch_loop schedule_flush
  batch_loop-Received h y [] s n e = (
    s,
    refl,
    record {
      done = [];
      left = [];
      all_there = rw e;
      are_dispatched = sym (append-nil _);
      still_queued = inl e;
    },
  )
  batch_loop-Received h y (m ∷ ms) s (n, ns) e =
      let u = handled m s in
      let (q, _, d, _, _) = perform_all-SameQueue (react m).actions (log m s) in
      let nil : u.queue ≡ [] = q ∙ e in
      elim (Bool-cases u.closed) [
        | inl c ↦ (
          u,
          rw (n, c),
          record {
            done = m ∷ [];
            left = ms;
            all_there = rw e;
            are_dispatched = d;
            still_queued = inr c;
          },
        )
        | inr c ↦ elim (Bool-cases (ltb 0 (length ms) && not (can_continue h y u))) [
          | inl stop ↦ (
            schedule_flush (record u { queue = u.queue ++ ms }),
            rw (n, c, stop),
            record {
              done = m ∷ [];
              left = ms;
              all_there = rw e;
              are_dispatched = d;
              still_queued = inl (rw nil);
            },
          )
          | inr go ↦
              let (t, f, r) = batch_loop-Received h y ms u ns nil in
              (
                t,
                rw (n, c, go) f,
                record {
                  done = m ∷ r.done;
                  left = r.left;
                  all_there = rw e (ap (λ l. m ∷ l) (rw nil at r.all_there));
                  are_dispatched =
                      r.are_dispatched ∙ rw d (append_assoc s.dispatched (m ∷ []) r.done);
                  still_queued = r.still_queued;
                },
              )
        ]
      ]

  -- The ways through the tests before the loop.
  data Way (ms : List Payload) (s : Inbox) : Outcome → Type 0 where
    dead : {o : Outcome} → s.closed ≡ true → o ≡ taken s → Way ms s o
    queued :
        {o : Outcome} (t : Inbox)
        → t.queue ≡ s.queue
        → t.dispatched ≡ s.dispatched
        → o ≡ declined t
        → Way ms s o
    direct :
        {o : Outcome} (t : Inbox)
        → s.queue ≡ []
        → t.queue ≡ s.queue
        → t.dispatched ≡ s.dispatched
        → o ≡ batch_loop react s.handler s.needs_task_yield ms t
        → Way ms s o

  empty_of_length : (l : List Payload) → ltb 0 (length l) ≡ false → l ≡ []
  empty_of_length [] h = refl
  empty_of_length (x ∷ l) h = ground arith

  dispatch-Way :
      (ms : List Payload) (s : Inbox) → Way ms s (dispatch_native_message_batch react ms s)
  unfolding dispatch_native_message_batch
  dispatch-Way ms s = elim (Bool-cases s.closed) [
    | inl a ↦ dead a (ground arith)
    | inr a ↦ elim (Bool-cases (ltb 0 (length s.queue))) [
      | inl b ↦ queued s refl refl (simp (a, b))
      | inr b ↦ elim (Bool-cases (s.operations_pending || s.gate_active)) [
        | inl c ↦ queued s refl refl (simp (a, b, c))
        | inr c ↦ elim (Bool-cases (s.consumer_gate_active && not (has_consumer s))) [
          | inl d ↦ queued s refl refl (simp (a, b, c, d))
          | inr d ↦
              let t : Inbox = record s { consumer_gate_active = false } in
              elim (Bool-cases (can_continue s.handler s.needs_task_yield t)) [
                | inl e ↦ direct t (empty_of_length s.queue b) refl refl (ground arith)
                | inr e ↦ queued t refl refl (ground arith)
              ]
        ]
      ]
    ]
  ]

  receive-Received :
      (ms : List Payload) (s : Inbox) (o : Outcome)
      → NoneThrows react ms
      → dispatch_native_message_batch react ms s ≡ o
      → Way ms s o
      → (t : Inbox) × (receive_batch react ms s ≡ taken t) × Received s ms t
  unfolding receive_batch queue_message_events schedule_flush
  receive-Received ms s o n f (dead c e) = (
    s,
    rw (f, receive_batch) (rw e),
    record {
      done = [];
      left = s.queue ++ ms;
      all_there = refl;
      are_dispatched = sym (append-nil _);
      still_queued = inr c;
    },
  )
  receive-Received ms s o n f (queued t q d e) = (
    queue_message_events ms t,
    rw (f, receive_batch) (rw e),
    record {
      done = [];
      left = s.queue ++ ms;
      all_there = refl;
      are_dispatched = d ∙ sym (append-nil _);
      still_queued = inl (ap (λ l. l ++ ms) q);
    },
  )
  receive-Received ms s o n f (direct t nil q d e) =
      let (u, g, r) = batch_loop-Received s.handler s.needs_task_yield ms t n (q ∙ nil) in
      (
        u,
        rw (f, receive_batch) (rw (e, g)),
        record {
          done = r.done;
          left = r.left;
          all_there = ap (λ l. l ++ ms) (sym q) ∙ r.all_there;
          are_dispatched = r.are_dispatched ∙ ap (λ l. l ++ r.done) d;
          still_queued = r.still_queued;
        },
      )

  -- If no handler throws, a batch is taken without an exception: its messages, behind those that
  -- are queued, are dispatched in order from the front, and the others are queued, unless the
  -- channel is closed.
  pub receive_batch-Received :
      (ms : List Payload) (s : Inbox)
      → NoneThrows react ms
      → (t : Inbox) × (receive_batch react ms s ≡ taken t) × Received s ms t
  receive_batch-Received ms s n =
      receive-Received ms s (dispatch_native_message_batch react ms s) n refl (dispatch-Way ms s)
