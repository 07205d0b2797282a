-- ===== src/Peer/Negotiation/Jsep.antt =====
-- The state machine of signaling states that the WebRTC specification gives for setLocalDescription and
-- setRemoteDescription, and when the descriptions of a peer fit its state.
pub mod Steps
pub mod Endings
pub mod Offers
pub mod Answers
pub mod Rollbacks
pub mod LocalMoves
pub mod LocalSide
pub mod Remotes
pub mod RemoteSide
pub mod LocalFailures
pub mod Failures
pub mod Success
use webrtc_node.Base.{Option, none, some, Bool, true, false, ◌≡◌, is_some}
use webrtc_node.Sdp.Description.{SdpType, offer, answer, pranswer, rollback, Description}
use webrtc_node.Peer.Descriptions.{
  Signaling, SignalingState, stable, have_local_offer, have_remote_offer, have_local_pranswer,
  have_remote_pranswer, signaling_closed, has_type, same_type,
}
use webrtc_node.Peer.Negotiation.{Peer, Native}

-- A local description of a type takes one state to another.
pub data LocalMove : SdpType → SignalingState → SignalingState → Type 0 where
  offers : LocalMove offer stable have_local_offer
  offers_again : LocalMove offer have_local_offer have_local_offer
  answers : LocalMove answer have_remote_offer stable
  answers_finally : LocalMove answer have_local_pranswer stable
  pranswers : LocalMove pranswer have_remote_offer have_local_pranswer
  pranswers_again : LocalMove pranswer have_local_pranswer have_local_pranswer
  rolls_back : LocalMove rollback have_local_offer stable

-- A remote description does; an offer that meets a pending local one rolls that back first.
pub data RemoteMove : SdpType → SignalingState → SignalingState → Type 0 where
  gets_offer : RemoteMove offer stable have_remote_offer
  gets_offer_again : RemoteMove offer have_remote_offer have_remote_offer
  yields : RemoteMove offer have_local_offer have_remote_offer
  yields_late : RemoteMove offer have_remote_pranswer have_remote_offer
  gets_answer : RemoteMove answer have_local_offer stable
  gets_answer_finally : RemoteMove answer have_remote_pranswer stable
  gets_pranswer : RemoteMove pranswer have_local_offer have_remote_pranswer
  gets_pranswer_again : RemoteMove pranswer have_remote_pranswer have_remote_pranswer
  gets_rollback : RemoteMove rollback have_remote_offer stable

-- Which descriptions are pending in a state.
abbrev pub Fits : SignalingState → Option Description → Option Description → Type 0
Fits stable l r = (is_some l ≡ false) × (is_some r ≡ false)
Fits have_local_offer l r = (has_type offer l ≡ true) × (is_some r ≡ false)
Fits have_remote_offer l r = (is_some l ≡ false) × (has_type offer r ≡ true)
Fits have_local_pranswer l r = (has_type pranswer l ≡ true) × (has_type offer r ≡ true)
Fits have_remote_pranswer l r = (has_type offer l ≡ true) × (has_type pranswer r ≡ true)
Fits signaling_closed l r = ⊥

abbrev pub IsFitting : Signaling → Type 0
IsFitting s = Fits s.signaling_state s.local_side.pending s.remote_side.pending

-- A description that is kept is of the given type.
abbrev pub IsOf : SdpType → Option Description → Type 0
IsOf t none = Unit
IsOf t (some d) = same_type d.type t ≡ true

-- The descriptions that a peer has created are of the types that it created.
pub record IsTyped (p : Peer) : Type 0 where
  pub offer_typed : IsOf offer p.last_offer
  pub answer_typed : IsOf answer p.last_answer

-- What the native peer creates, and what it describes after it was told to set a description of a type,
-- is of that type.
pub record IsLawful (n : Native) : Type 0 where
  pub creates_offers : IsOf offer n.created_offer
  pub creates_answers : IsOf answer n.created_answer
  pub describes : (t : SdpType) → has_type t (n.described t) ≡ true
