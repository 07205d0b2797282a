-- ===== src/Peer/Negotiation/Jsep/LocalSide.antt =====
-- setLocalDescription moves along the state machine of the specification.
use webrtc_node.Base.{
  Option, none, some, Bool, true, false, not, ◌&&◌, ◌≡◌, refl, sym, subst, arith, if◌then◌else◌,
  if-holds, if-split, inl, inr,
}
use webrtc_node.Sdp.Description.{SdpType, offer, answer, pranswer, rollback, Description}
use webrtc_node.Peer.Descriptions.{
  SignalingState, stable, have_local_offer, have_local_pranswer, has_type, set_pending, same_type,
  implicit_local_description_type,
}
use webrtc_node.Peer.Negotiation.{
  Peer, Native, Ran, returned, never, thrown, state_of, announce_state, refresh_transports,
  refresh_role, log, registers_description, on_local, set_state, mark_set_by_api, add_pending_ice,
}
use webrtc_node.Peer.Negotiation.Local.{
  LocalInput, run_set_local, set_local_offer, set_local_answer, set_local_pranswer,
  set_local_rollback, apply_offer, apply_answer, or_last, is_last, takes_local_offer,
  takes_local_answer, is_applied, is_have_local_offer,
}
use webrtc_node.Peer.Negotiation.Jsep.{IsFitting, IsTyped, IsLawful, LocalMove}
use webrtc_node.Peer.Negotiation.Jsep.Steps.{announce-Same, IsAt, sync_states-Keeps}
use webrtc_node.Peer.Negotiation.Jsep.Offers.{EndsAt, apply_offer-EndsAt}
use webrtc_node.Peer.Negotiation.Jsep.Endings.{Ends, IsReady, IsPlain}
use webrtc_node.Peer.Negotiation.Jsep.Rollbacks.{roll_back_local-EndsAt}
use webrtc_node.Peer.Negotiation.Jsep.Answers.{apply_answer-EndsAt}
use webrtc_node.Peer.Negotiation.Jsep.LocalMoves.{
  called_type, Implies, LocalResult, offer_move, answer_move, pranswer_move, rollback_move, alone,
  offered, or_last-IsOf, mark_set_by_api-IsMark, offered_again, implied_type,
}

-- What the moves start from.
pub record IsSteady (p : Peer) : Type 0 where
  pub is_typed : IsTyped p
  pub is_fitting : IsFitting p.signaling
  pub no_restart : p.signaling.js_only_offer_pending ≡ false

module _ (n : Native) (lawful : IsLawful n) (p : Peer) (h : IsSteady p)
    (live : p.signaling.peer_closed ≡ false) where
  moved :
      (type : SdpType) (x : SignalingState) (r : Ran)
      → LocalMove type p.signaling.signaling_state x
      → EndsAt x r
      → Ends (LocalResult type p) r
  moved type x (returned t) m (e, f) =
      inl (subst (LocalMove type p.signaling.signaling_state) (sym e) m, f)
  moved type x (thrown f t) m e = tt
  moved type x (never t) m e = tt

  ready : takes_local_offer p.signaling.signaling_state ≡ true → IsReady p.signaling
  ready e = record {
    is_live = live;
    is_alone = alone p.signaling.signaling_state _ _ h.is_fitting e;
  }

  offer_Result :
      (d : Description) → d.type ≡ offer → Ends (LocalResult offer p) (set_local_offer n d p)
  unfolding set_local_offer
  offer_Result d e =
      if-split (Ends (LocalResult offer p)) (not (takes_local_offer p.signaling.signaling_state))
        (λ f. tt)
        (λ f.
          if-holds (Ends (LocalResult offer p))
            (not (is_last p.last_offer (or_last p.last_offer d))) tt
            (moved offer have_local_offer _ (offer_move _ (ground arith)) (
              apply_offer-EndsAt d.js_only_ice_restart n (some (or_last p.last_offer d)) p
                (ready (ground arith)) lawful
                (or_last-IsOf offer p.last_offer d h.is_typed.offer_typed e)
                h.is_typed.offer_typed)))

  IsPlain-state : IsPlain p.signaling
  IsPlain-state = record { is_live = live; no_restart = h.no_restart }

  is_applied-type :
      (own : Bool) (d : Description)
      → is_applied own d p ≡ true
      → has_type answer p.signaling.local_side.shown ≡ true
  is_applied-type own d e = ground arith

  answer_Result :
      (own : Bool) (given : Description)
      → given.type ≡ answer
      → Ends (LocalResult answer p) (set_local_answer n own given p)
  unfolding set_local_answer mark_set_by_api refresh_role add_pending_ice
  answer_Result own given e =
      let d : Description = or_last p.last_answer given in
      let Q : Ran → Type 0 = Ends (LocalResult answer p) in
      let k = sync_states-Keeps (mark_set_by_api p) in
      if-split Q (not (is_applied own d p) && not (takes_local_answer p.signaling.signaling_state))
        (λ f. tt)
        (λ f. if-holds Q (not (is_last p.last_answer d)) tt (
          if-split Q (is_applied own d p)
            (λ g. inr (refl, is_applied-type own d g, k.same_local, k.same_remote))
            (λ g. moved answer stable _ (answer_move _ (ground arith)) (
              apply_answer-EndsAt given.js_only_ice_restart n (some d) p IsPlain-state lawful
                (or_last-IsOf answer p.last_answer given h.is_typed.answer_typed e)
                h.is_typed.answer_typed))))

  pranswer_Result :
      (d : Description) → d.type ≡ pranswer → Ends (LocalResult pranswer p) (set_local_pranswer d p)
  unfolding set_local_pranswer set_pending mark_set_by_api refresh_transports refresh_role
  pranswer_Result d e =
      let Q : Ran → Type 0 = Ends (LocalResult pranswer p) in
      let t : Peer = refresh_transports (
        set_state have_local_pranswer
          (log registers_description (mark_set_by_api (on_local (set_pending (some d)) p)))) in
      if-split Q (not (takes_local_answer p.signaling.signaling_state)) (λ f. tt)
        (λ f.
          moved pranswer have_local_pranswer (returned (announce_state (state_of p) t))
            (pranswer_move p.signaling.signaling_state (ground arith))
            (subst (IsAt have_local_pranswer) (sym (announce-Same (state_of p) t)) (
              refl,
              (
                subst (λ x. same_type x pranswer ≡ true) (sym e) refl,
                offered p.signaling.signaling_state _ _ h.is_fitting (ground arith),
              ),
            )))

  rollback_Result : Ends (LocalResult rollback p) (set_local_rollback n p)
  unfolding set_local_rollback
  rollback_Result =
      let Q : Ran → Type 0 = Ends (LocalResult rollback p) in
      if-split Q (not (is_have_local_offer p.signaling.signaling_state)) (λ f. tt)
        (λ f. moved rollback stable _ (rollback_move _ (ground arith)) (
          roll_back_local-EndsAt mark_set_by_api n p mark_set_by_api-IsMark (
            alone p.signaling.signaling_state _ _ h.is_fitting
              (offered_again p.signaling.signaling_state (ground arith)))))

  implied_Result :
      (type : SdpType)
      → Implies type none p
      → Ends (LocalResult type p) (
          if same_type type answer then apply_answer false n none p else apply_offer false n none p)
  unfolding implicit_local_description_type
  implied_Result type (e, f) =
      let Q : SdpType → Type 0 = λ t.
        Ends (LocalResult t p) (
          if same_type t answer then apply_answer false n none p else apply_offer false n none p) in
      elim (implied_type p.signaling.signaling_state _ _ h.is_fitting f type e) [
        | inl (k, t) ↦ subst Q (sym k) (
            moved offer have_local_offer (apply_offer false n none p)
              (offer_move p.signaling.signaling_state t)
              (apply_offer-EndsAt false n none p (ready t) lawful tt h.is_typed.offer_typed))
        | inr (k, t) ↦ subst Q (sym k) (
            moved answer stable (apply_answer false n none p)
              (answer_move p.signaling.signaling_state t)
              (apply_answer-EndsAt false n none p IsPlain-state lawful tt h.is_typed.answer_typed))
      ]

  explicit_Result :
      (own : Bool) (d : Description) (type : SdpType)
      → d.type ≡ type
      → Ends (LocalResult type p) (elim type [
        | offer ↦ set_local_offer n d p
        | answer ↦ set_local_answer n own d p
        | pranswer ↦ set_local_pranswer d p
        | rollback ↦ set_local_rollback n p
      ])
  explicit_Result own d offer e = offer_Result d e
  explicit_Result own d answer e = answer_Result own d e
  explicit_Result own d pranswer e = pranswer_Result d e
  explicit_Result own d rollback e = rollback_Result

-- From descriptions that fit the signaling state, no ICE restart in JavaScript alone, created
-- descriptions of their types, a native peer that creates and describes what it is asked for, and
-- for a call without a description the type that the state implies and no pending provisional
-- answer: a call of setLocalDescription that returns has moved the signaling state along the state
-- machine of the specification, to descriptions that fit the new state; or it was for an answer
-- while an answer was shown, and the descriptions are unchanged.
pub run_set_local-LocalResult :
    (n : Native) (type : SdpType) (i : Option LocalInput) (p : Peer)
    → IsLawful n
    → IsSteady p
    → Implies type i p
    → Ends (LocalResult (called_type type i) p) (run_set_local n type i p)
unfolding run_set_local
run_set_local-LocalResult n type none p lawful h k =
    if-split (Ends (LocalResult type p)) p.signaling.peer_closed (λ e. tt)
      (λ e. implied_Result n lawful p h e type k)
run_set_local-LocalResult n type (some i) p lawful h k =
    if-split (Ends (LocalResult i.description.type p)) p.signaling.peer_closed (λ e. tt)
      (λ e. explicit_Result n lawful p h e i.own_answer i.description i.description.type refl)
