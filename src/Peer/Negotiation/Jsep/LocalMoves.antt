-- ===== src/Peer/Negotiation/Jsep/LocalMoves.antt =====
-- The moves that calls of setLocalDescription make.
use webrtc_node.Base.{
  Option, none, some, Bool, true, false, ◌≡◌, refl, sym, subst, if-holds, is_some, ◌⊎◌, inl, inr,
}
use webrtc_node.Sdp.Lines.{is_empty}
use webrtc_node.Sdp.Description.{SdpType, offer, answer, pranswer, rollback, Description}
use webrtc_node.Peer.Descriptions.{
  SignalingState, stable, have_local_offer, have_remote_offer, have_local_pranswer,
  have_remote_pranswer, signaling_closed, has_type, same_type, implicit_local_description_type,
}
use webrtc_node.Peer.Negotiation.{Peer, mark_set_by_api}
use webrtc_node.Peer.Negotiation.Local.{
  LocalInput, or_last, takes_local_offer, takes_local_answer, is_have_local_offer,
}
use webrtc_node.Peer.Negotiation.Jsep.{
  IsFitting, IsOf, Fits, LocalMove, offers, offers_again, answers, answers_finally, pranswers,
  pranswers_again, rolls_back,
}
use webrtc_node.Peer.Negotiation.Jsep.Rollbacks.{IsMark}

-- The type of the call: that of its description, or the implied one.
abbrev pub called_type : SdpType → Option LocalInput → SdpType
called_type type none = type
called_type type (some i) = i.description.type

abbrev pub is_pranswer_state : SignalingState → Bool
is_pranswer_state have_local_pranswer = true
is_pranswer_state have_remote_pranswer = true
is_pranswer_state _ = false

-- A call without a description has the type that the state implies, and no provisional answer is
-- pending.
abbrev pub Implies : SdpType → Option LocalInput → Peer → Type 0
Implies type none p =
    (type ≡ implicit_local_description_type p.signaling)
    × (is_pranswer_state p.signaling.signaling_state ≡ false)
Implies type (some i) p = Unit

-- The call moves the state as the specification says; or it is for an answer, an answer is shown
-- already, and the descriptions stay as they are.
abbrev pub LocalResult : SdpType → Peer → Peer → Type 0
LocalResult type p t =
    (LocalMove type p.signaling.signaling_state t.signaling.signaling_state × IsFitting t.signaling)
    ⊎ ((type ≡ answer)
        × (has_type answer p.signaling.local_side.shown ≡ true)
        × (t.signaling.local_side ≡ p.signaling.local_side)
        × (t.signaling.remote_side ≡ p.signaling.remote_side))

pub offer_move :
    (s : SignalingState) → takes_local_offer s ≡ true → LocalMove offer s have_local_offer
offer_move stable e = offers
offer_move have_local_offer e = offers_again
offer_move have_remote_offer e = cc
offer_move have_local_pranswer e = cc
offer_move have_remote_pranswer e = cc
offer_move signaling_closed e = cc

pub answer_move : (s : SignalingState) → takes_local_answer s ≡ true → LocalMove answer s stable
answer_move stable e = cc
answer_move have_local_offer e = cc
answer_move have_remote_offer e = answers
answer_move have_local_pranswer e = answers_finally
answer_move have_remote_pranswer e = cc
answer_move signaling_closed e = cc

pub pranswer_move :
    (s : SignalingState) → takes_local_answer s ≡ true → LocalMove pranswer s have_local_pranswer
pranswer_move stable e = cc
pranswer_move have_local_offer e = cc
pranswer_move have_remote_offer e = pranswers
pranswer_move have_local_pranswer e = pranswers_again
pranswer_move have_remote_pranswer e = cc
pranswer_move signaling_closed e = cc

pub rollback_move :
    (s : SignalingState) → is_have_local_offer s ≡ true → LocalMove rollback s stable
rollback_move stable e = cc
rollback_move have_local_offer e = rolls_back
rollback_move have_remote_offer e = cc
rollback_move have_local_pranswer e = cc
rollback_move have_remote_pranswer e = cc
rollback_move signaling_closed e = cc

-- Where a local offer is taken, no remote description is pending.
pub alone :
    (s : SignalingState) (l r : Option Description)
    → Fits s l r
    → takes_local_offer s ≡ true
    → is_some r ≡ false
alone stable l r (a, b) e = b
alone have_local_offer l r (a, b) e = b
alone have_remote_offer l r (a, b) e = cc
alone have_local_pranswer l r (a, b) e = cc
alone have_remote_pranswer l r (a, b) e = cc
alone signaling_closed l r f e = absurd f

-- Where a local answer is taken, the remote offer is pending.
pub offered :
    (s : SignalingState) (l r : Option Description)
    → Fits s l r
    → takes_local_answer s ≡ true
    → has_type offer r ≡ true
offered stable l r f e = cc
offered have_local_offer l r f e = cc
offered have_remote_offer l r (a, b) e = b
offered have_local_pranswer l r (a, b) e = b
offered have_remote_pranswer l r f e = cc
offered signaling_closed l r f e = absurd f

pub same_type_refl : (t : SdpType) → same_type t t ≡ true
same_type_refl offer = refl
same_type_refl answer = refl
same_type_refl pranswer = refl
same_type_refl rollback = refl

-- The description that stands for an empty one is of the same type.
pub or_last-IsOf :
    (t : SdpType) (o : Option Description) (d : Description)
    → IsOf t o
    → d.type ≡ t
    → same_type (or_last o d).type t ≡ true
or_last-IsOf t none d k e = subst (λ x. same_type x t ≡ true) (sym e) (same_type_refl t)
or_last-IsOf t (some l) d k e =
    if-holds (λ (x : Description). same_type x.type t ≡ true) (is_empty d.sdp) k
      (subst (λ x. same_type x t ≡ true) (sym e) (same_type_refl t))

pub mark_set_by_api-IsMark : IsMark mark_set_by_api
unfolding mark_set_by_api
mark_set_by_api-IsMark p = refl

pub offered_again : (s : SignalingState) → is_have_local_offer s ≡ true → takes_local_offer s ≡ true
offered_again stable e = cc
offered_again have_local_offer e = refl
offered_again have_remote_offer e = cc
offered_again have_local_pranswer e = cc
offered_again have_remote_pranswer e = cc
offered_again signaling_closed e = cc

-- A call without a description is for an offer or for an answer, and the state takes it.
pub implied_type :
    (s : SignalingState) (l r : Option Description)
    → Fits s l r
    → is_pranswer_state s ≡ false
    → (type : SdpType) → type ≡ (elim s [ have_remote_offer ↦ answer | _ ↦ offer ])
    → ((type ≡ offer) × (takes_local_offer s ≡ true))
      ⊎ ((type ≡ answer) × (takes_local_answer s ≡ true))
implied_type stable l r g f type e = inl (e, refl)
implied_type have_local_offer l r g f type e = inl (e, refl)
implied_type have_remote_offer l r g f type e = inr (e, refl)
implied_type have_local_pranswer l r g f type e = cc
implied_type have_remote_pranswer l r g f type e = cc
implied_type signaling_closed l r g f type e = absurd g
