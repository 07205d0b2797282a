-- ===== src/Peer/Negotiation/Jsep/RemoteSide.antt =====
-- setRemoteDescription moves along the state machine of the specification.
use webrtc_node.Base.{
  Option, some, Bool, true, false, not, ◌&&◌, ◌≡◌, refl, ap, ◌∙◌, sym, subst, arith, if-holds,
  if-split, is_some, ok, err,
}
use webrtc_node.Sdp.Description.{
  SdpType, offer, answer, pranswer, rollback, Description, assert_valid_sdp_syntax,
}
use webrtc_node.Peer.Descriptions.{
  Signaling, SignalingState, stable, have_local_offer, have_remote_offer, have_local_pranswer,
  have_remote_pranswer, signaling_closed, has_type, set_pending, same_type,
}
use webrtc_node.Peer.Negotiation.{
  Peer, Native, Ran, returned, never, thrown, state_of, announce_state, refresh_transports,
  refresh_role, set_state, no_media, ensure_native,
}
use webrtc_node.Peer.Negotiation.Local.{roll_back_local}
use webrtc_node.Peer.Negotiation.Remote.{
  run_set_remote, set_remote_offer, set_remote_answer, take_offer, take_answer, with_syntax, after,
}
use webrtc_node.Peer.Negotiation.Taking.{
  RemoteInput, set_remote_pranswer, set_remote_rollback, take_pending, takes_remote_answer,
  is_have_remote_offer, rolled_back_remote, empty_rollback,
}
use webrtc_node.Peer.Negotiation.Jsep.{
  IsFitting, Fits, RemoteMove, gets_offer, gets_offer_again, yields, yields_late, gets_answer,
  gets_answer_finally, gets_pranswer, gets_pranswer_again, gets_rollback,
}
use webrtc_node.Peer.Negotiation.Jsep.Steps.{announce-Same, IsAt}
use webrtc_node.Peer.Negotiation.Jsep.Offers.{EndsAt}
use webrtc_node.Peer.Negotiation.Jsep.Endings.{Ends}
use webrtc_node.Peer.Negotiation.Jsep.Rollbacks.{
  IsOpen, roll_back_local-IsOpen, rolled_back_remote-At,
}
use webrtc_node.Peer.Negotiation.Jsep.Remotes.{take_offer-EndsAt, take_answer-EndsAt}

-- The call moves the state as the specification says.
abbrev pub RemoteResult : SdpType → Peer → Peer → Type 0
RemoteResult type p t =
    RemoteMove type p.signaling.signaling_state t.signaling.signaling_state × IsFitting t.signaling

abbrev pub is_have_local_pranswer : SignalingState → Bool
is_have_local_pranswer have_local_pranswer = true
is_have_local_pranswer _ = false

-- What the moves start from: no provisional answer of this side is pending where an offer comes.
pub record IsReceptive (type : SdpType) (p : Peer) : Type 0 where
  pub is_fitting : IsFitting p.signaling
  pub no_restart : p.signaling.js_only_offer_pending ≡ false
  pub no_pranswer :
      (same_type type offer && is_have_local_pranswer p.signaling.signaling_state) ≡ false

offer_move :
    (s : SignalingState) (l r : Option Description)
    → Fits s l r
    → is_have_local_pranswer s ≡ false
    → RemoteMove offer s have_remote_offer
offer_move stable l r f e = gets_offer
offer_move have_local_offer l r f e = yields
offer_move have_remote_offer l r f e = gets_offer_again
offer_move have_local_pranswer l r f e = cc
offer_move have_remote_pranswer l r f e = yields_late
offer_move signaling_closed l r f e = absurd f

answer_move : (s : SignalingState) → takes_remote_answer s ≡ true → RemoteMove answer s stable
answer_move stable e = cc
answer_move have_local_offer e = gets_answer
answer_move have_remote_offer e = cc
answer_move have_local_pranswer e = cc
answer_move have_remote_pranswer e = gets_answer_finally
answer_move signaling_closed e = cc

pranswer_move :
    (s : SignalingState) → takes_remote_answer s ≡ true → RemoteMove pranswer s have_remote_pranswer
pranswer_move stable e = cc
pranswer_move have_local_offer e = gets_pranswer
pranswer_move have_remote_offer e = cc
pranswer_move have_local_pranswer e = cc
pranswer_move have_remote_pranswer e = gets_pranswer_again
pranswer_move signaling_closed e = cc

rollback_move : (s : SignalingState) → is_have_remote_offer s ≡ true → RemoteMove rollback s stable
rollback_move stable e = cc
rollback_move have_local_offer e = cc
rollback_move have_remote_offer e = gets_rollback
rollback_move have_local_pranswer e = cc
rollback_move have_remote_pranswer e = cc
rollback_move signaling_closed e = cc

-- Where no local offer is pending, and no provisional answer, nothing is pending on the local side.
alone :
    (s : SignalingState) (l r : Option Description)
    → Fits s l r
    → takes_remote_answer s ≡ false
    → is_have_local_pranswer s ≡ false
    → is_some l ≡ false
alone stable l r (a, b) e k = a
alone have_local_offer l r f e k = cc
alone have_remote_offer l r (a, b) e k = a
alone have_local_pranswer l r f e k = cc
alone have_remote_pranswer l r f e k = cc
alone signaling_closed l r f e k = absurd f

-- Where a remote answer is taken, the local offer is pending.
offered :
    (s : SignalingState) (l r : Option Description)
    → Fits s l r
    → takes_remote_answer s ≡ true
    → has_type offer l ≡ true
offered stable l r f e = cc
offered have_local_offer l r (a, b) e = a
offered have_remote_offer l r f e = cc
offered have_local_pranswer l r f e = cc
offered have_remote_pranswer l r (a, b) e = a
offered signaling_closed l r f e = absurd f

taken_back :
    (s : SignalingState) (l r : Option Description)
    → Fits s l r
    → is_have_remote_offer s ≡ true
    → is_some l ≡ false
taken_back stable l r f e = cc
taken_back have_local_offer l r f e = cc
taken_back have_remote_offer l r (a, b) e = a
taken_back have_local_pranswer l r f e = cc
taken_back have_remote_pranswer l r f e = cc
taken_back signaling_closed l r f e = absurd f

-- The test of the syntax, and a step before another.
with_syntax-Ends :
    (Q : Peer → Type 0) (d : Description) (next : Peer → Ran) (p : Peer)
    → Ends Q (next p)
    → Ends Q (with_syntax d next p)
with_syntax-Ends Q d next p h =
    elim (assert_valid_sdp_syntax d)
      as (λ x. Ends Q (elim x [ err f ↦ thrown f p | ok done ↦ next p ])) [ err f ↦ tt | ok u ↦ h ]

after-Ends :
    (Q R : Peer → Type 0) (next : Peer → Ran) (r : Ran)
    → Ends Q r
    → ((t : Peer) → Q t → Ends R (next t))
    → Ends R (after next r)
after-Ends Q R next (returned t) h k = k t h
after-Ends Q R next (thrown f t) h k = tt
after-Ends Q R next (never t) h k = tt

moved :
    (type : SdpType) (p : Peer) (x : SignalingState) (r : Ran)
    → RemoteMove type p.signaling.signaling_state x
    → EndsAt x r
    → Ends (RemoteResult type p) r
moved type p x (returned t) m (e, f) =
    (subst (RemoteMove type p.signaling.signaling_state) (sym e) m, f)
moved type p x (thrown f t) m e = tt
moved type p x (never t) m e = tt

module _ (n : Native) (i : RemoteInput) (p : Peer) (live : p.signaling.peer_closed ≡ false) where
  offer_Result :
      (d : Description)
      → d.type ≡ offer
      → IsReceptive offer p
      → Ends (RemoteResult offer p) (set_remote_offer n d p)
  unfolding set_remote_offer
  offer_Result d e h =
      let k : same_type d.type offer ≡ true = subst (λ x. same_type x offer ≡ true) (sym e) refl in
      moved offer p have_remote_offer (set_remote_offer n d p)
        (offer_move p.signaling.signaling_state _ _ h.is_fitting h.no_pranswer)
        (if-split (EndsAt have_remote_offer) (takes_remote_answer p.signaling.signaling_state)
          (λ f.
            after-Ends (λ t. IsOpen t.signaling) _ (with_syntax d (take_offer n d))
              (roll_back_local (λ x. x) n p) (roll_back_local-IsOpen n p live h.no_restart)
              (λ t o. with_syntax-Ends _ d (take_offer n d) t (take_offer-EndsAt n d t o k)))
          (λ f. with_syntax-Ends _ d (take_offer n d) p (
            take_offer-EndsAt n d p
              (record {
                is_live = live;
                no_restart = h.no_restart;
                is_alone = alone p.signaling.signaling_state _ _ h.is_fitting f h.no_pranswer;
              })
              k)))

  answer_Result :
      i.description.type ≡ answer
      → IsReceptive answer p
      → Ends (RemoteResult answer p) (set_remote_answer n i p)
  unfolding set_remote_answer
  answer_Result e h =
      let Q : Ran → Type 0 = Ends (RemoteResult answer p) in
      let j = h.no_restart in
      if-split Q
        (not (takes_remote_answer p.signaling.signaling_state)
          && not p.signaling.js_only_offer_pending)
        (λ f. tt)
        (λ f.
          moved answer p stable (with_syntax i.description (take_answer n i) p)
            (answer_move p.signaling.signaling_state (ground arith))
            (with_syntax-Ends _ i.description (take_answer n i) p (
              take_answer-EndsAt n i p (record { is_live = live; no_restart = h.no_restart })
                (subst (λ x. same_type x answer ≡ true) (sym e) refl))))

  pranswer_Result :
      (d : Description)
      → d.type ≡ pranswer
      → IsReceptive pranswer p
      → Ends (RemoteResult pranswer p) (set_remote_pranswer d p)
  unfolding set_remote_pranswer take_pending set_pending refresh_transports refresh_role
  pranswer_Result d e h =
      let Q : Ran → Type 0 = Ends (RemoteResult pranswer p) in
      let t : Peer = refresh_transports (set_state have_remote_pranswer (take_pending d p)) in
      if-split Q (not (takes_remote_answer p.signaling.signaling_state)) (λ f. tt)
        (λ f.
          moved pranswer p have_remote_pranswer (returned (announce_state (state_of p) t))
            (pranswer_move p.signaling.signaling_state (ground arith))
            (subst (IsAt have_remote_pranswer) (sym (announce-Same (state_of p) t)) (
              refl,
              (
                offered p.signaling.signaling_state _ _ h.is_fitting (ground arith),
                subst (λ x. same_type x pranswer ≡ true) (sym e) refl,
              ),
            )))

  rolled :
      (q : Peer)
      → q.signaling ≡ p.signaling
      → is_have_remote_offer p.signaling.signaling_state ≡ true
      → is_some p.signaling.local_side.pending ≡ false
      → RemoteResult rollback p (rolled_back_remote q)
  rolled q s e l =
      moved rollback p stable (returned (rolled_back_remote q))
        (rollback_move p.signaling.signaling_state e)
        (rolled_back_remote-At q (ap (λ (x : Signaling). is_some x.local_side.pending) s ∙ l))

  rollback_Result :
      IsReceptive rollback p → Ends (RemoteResult rollback p) (set_remote_rollback n p)
  unfolding set_remote_rollback
  rollback_Result h =
      let Q : Ran → Type 0 = Ends (RemoteResult rollback p) in
      if-split Q (not (is_have_remote_offer p.signaling.signaling_state)) (λ e. tt)
        (λ e.
          let l = taken_back p.signaling.signaling_state _ _ h.is_fitting (ground arith) in
          if-holds Q
            (is_some p.signaling.remote_side.shown && not (no_media p.signaling.remote_side.shown))
            (if-holds Q (n.takes_remote empty_rollback)
              (rolled (record (ensure_native p) { suppressed = some stable }) refl (ground arith) l)
              tt)
            (rolled p refl (ground arith) l))

  type_Result :
      (type : SdpType)
      → i.description.type ≡ type
      → IsReceptive type p
      → Ends (RemoteResult type p) (elim type [
        | offer ↦ set_remote_offer n i.description p
        | answer ↦ set_remote_answer n i p
        | pranswer ↦ set_remote_pranswer i.description p
        | rollback ↦ set_remote_rollback n p
      ])
  type_Result offer e h = offer_Result i.description e h
  type_Result answer e h = answer_Result e h
  type_Result pranswer e h = pranswer_Result i.description e h
  type_Result rollback e h = rollback_Result h

-- From descriptions that fit the signaling state, no ICE restart in JavaScript alone and, for an
-- offer, no local provisional answer: a call of setRemoteDescription that returns has moved the
-- signaling state along the state machine of the specification, where an offer lets a pending local
-- offer yield, to descriptions that fit the new state.
pub run_set_remote-RemoteResult :
    (n : Native) (i : RemoteInput) (p : Peer)
    → IsReceptive i.description.type p
    → Ends (RemoteResult i.description.type p) (run_set_remote n i p)
unfolding run_set_remote
run_set_remote-RemoteResult n i p h =
    if-split (Ends (RemoteResult i.description.type p)) p.signaling.peer_closed (λ e. tt)
      (λ e. type_Result n i p e i.description.type refl h)
