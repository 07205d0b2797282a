-- ===== src/Peer/Negotiation/Jsep/Success.antt =====
-- When setLocalDescription and setRemoteDescription return.
use webrtc_node.Base.{Bool, true, false, ◌≡◌}
use webrtc_node.Sdp.Description.{SdpType, offer, answer, pranswer, rollback, Description}
use webrtc_node.Peer.Negotiation.{Peer, Native, Ran, returned, never, thrown}
use webrtc_node.Peer.Negotiation.Local.{
  or_last, is_last, takes_local_offer, takes_local_answer, is_have_local_offer,
}

abbrev pub is_returned : Ran → Bool
is_returned (returned t) = true
is_returned (thrown f t) = false
is_returned (never t) = false

abbrev pub Returns : Ran → Type 0
Returns r = is_returned r ≡ true

-- What a call for a description of a type needs: the state takes it, it is the last that was created,
-- and the native peer takes what it is told to set.
abbrev pub Accepts : Native → Description → Peer → SdpType → Type 0
Accepts n d p offer =
    (takes_local_offer p.signaling.signaling_state ≡ true)
    × (is_last p.last_offer (or_last p.last_offer d) ≡ true)
    × (n.takes_local offer ≡ true)
Accepts n d p answer =
    (takes_local_answer p.signaling.signaling_state ≡ true)
    × (is_last p.last_answer (or_last p.last_answer d) ≡ true)
    × (n.takes_local answer ≡ true)
Accepts n d p pranswer = takes_local_answer p.signaling.signaling_state ≡ true
Accepts n d p rollback =
    (is_have_local_offer p.signaling.signaling_state ≡ true) × (n.takes_local rollback ≡ true)
