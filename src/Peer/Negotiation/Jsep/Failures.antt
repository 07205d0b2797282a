-- ===== src/Peer/Negotiation/Jsep/Failures.antt =====
-- What is left of the descriptions where setLocalDescription or setRemoteDescription throws.
use webrtc_node.Base.{
  some, Bool, true, false, not, ◌&&◌, ◌||◌, ◌≡◌, refl, if-holds, if-split, is_some, arith,
  Bool-cases, ok, err, ◌⊎◌, inl, inr,
}
use webrtc_node.Sdp.Description.{
  SdpType, offer, answer, pranswer, rollback, Description, assert_valid_sdp_syntax,
}
use webrtc_node.Peer.Descriptions.{Signaling, SignalingState, same_type}
use webrtc_node.Peer.Negotiation.{Peer, Native, Ran, returned, never, thrown, no_media}
use webrtc_node.Peer.Negotiation.Local.{roll_back_local}
use webrtc_node.Peer.Negotiation.Remote.{
  run_set_remote, set_remote_offer, set_remote_answer, take_offer, take_answer, with_syntax, after,
}
use webrtc_node.Peer.Negotiation.Taking.{
  RemoteInput, effective, set_remote_pranswer, set_remote_rollback, take_by_native,
  takes_remote_answer, is_have_remote_offer, is_js_only_offer, empty_rollback,
}
use webrtc_node.Peer.Negotiation.Taking
use webrtc_node.Peer.Negotiation.Jsep.LocalFailures.{Leaves, roll_back-Leaves}

take_by_native-Leaves :
    (n : Native) (type : SdpType) (d : Description) (p : Peer)
    → Leaves p.signaling (take_by_native n type d p)
unfolding take_by_native
take_by_native-Leaves n type d p = if-holds (Leaves p.signaling) (n.takes_remote _) tt refl

take_offer-Leaves :
    (n : Native) (d : Description) (p : Peer) → Leaves p.signaling (take_offer n d p)
unfolding take_offer
take_offer-Leaves n d p =
    let Q : Ran → Type 0 = Leaves p.signaling in
    if-holds Q (is_js_only_offer d p) tt (
      if-holds Q (Taking.is_data_only_offer d p) tt (
        if-holds Q (no_media (some d)) tt (
          if-holds Q (is_have_remote_offer p.signaling.signaling_state) tt
            (take_by_native-Leaves n offer d p))))

take_answer-Leaves :
    (n : Native) (i : RemoteInput) (p : Peer) → Leaves p.signaling (take_answer n i p)
unfolding take_answer
take_answer-Leaves n i p =
    let Q : Ran → Type 0 = Leaves p.signaling in
    if-holds Q (i.description.js_only_ice_restart || p.signaling.js_only_offer_pending) tt (
      if-holds Q (Taking.is_data_only_answer i.description p) tt (
        if-holds Q (no_media (some i.description)) tt
          (take_by_native-Leaves n answer (effective i) p)))

with_syntax-Leaves :
    (d : Description) (next : Peer → Ran) (p : Peer)
    → Leaves p.signaling (next p)
    → Leaves p.signaling (with_syntax d next p)
with_syntax-Leaves d next p h =
    elim (assert_valid_sdp_syntax d)
      as (λ x. Leaves p.signaling (elim x [ err f ↦ thrown f p | ok done ↦ next p ])) [
        | err f ↦ refl
        | ok u ↦ h
      ]

-- A remote offer that meets a local one, or a remote provisional answer.
abbrev pub yields_first : SdpType → SignalingState → Bool
yields_first type s = same_type type offer && takes_remote_answer s

remote-Leaves :
    (n : Native) (i : RemoteInput) (type : SdpType) (p : Peer)
    → yields_first type p.signaling.signaling_state ≡ false
    → Leaves p.signaling (elim type [
      | offer ↦ set_remote_offer n i.description p
      | answer ↦ set_remote_answer n i p
      | pranswer ↦ set_remote_pranswer i.description p
      | rollback ↦ set_remote_rollback n p
    ])
unfolding set_remote_offer set_remote_answer set_remote_pranswer set_remote_rollback
remote-Leaves n i offer p e =
    if-split (Leaves p.signaling) (takes_remote_answer p.signaling.signaling_state)
      (λ f. absurd (ground arith))
      (λ f.
        with_syntax-Leaves i.description (take_offer n i.description) p
          (take_offer-Leaves n i.description p))
remote-Leaves n i answer p e =
    if-holds (Leaves p.signaling)
      (not (takes_remote_answer p.signaling.signaling_state)
        && not p.signaling.js_only_offer_pending)
      refl (with_syntax-Leaves i.description (take_answer n i) p (take_answer-Leaves n i p))
remote-Leaves n i pranswer p e =
    if-holds (Leaves p.signaling) (not (takes_remote_answer p.signaling.signaling_state)) refl tt
remote-Leaves n i rollback p e =
    let Q : Ran → Type 0 = Leaves p.signaling in
    if-holds Q (not (is_have_remote_offer p.signaling.signaling_state)) refl (
      if-holds Q
        (is_some p.signaling.remote_side.shown && not (no_media p.signaling.remote_side.shown))
        (if-holds Q (n.takes_remote empty_rollback) tt refl) tt)

-- What an operation and the one before it leave.
abbrev pub LeavesAfter : Signaling → Ran → Ran → Type 0
LeavesAfter s r0 r = Leaves s r ⊎ ((t : Peer) × (r0 ≡ returned t) × Leaves t.signaling r)

after-Leaves :
    (s : Signaling) (next : Peer → Ran) (r : Ran)
    → Leaves s r
    → ((t : Peer) → Leaves t.signaling (next t))
    → LeavesAfter s r (after next r)
after-Leaves s next (returned t) h k = inr (t, refl, k t)
after-Leaves s next (thrown f t) h k = inl h
after-Leaves s next (never t) h k = inl h

-- What setRemoteDescription leaves: the descriptions and the state that it met, or those after the
-- rollback of the local offer that yields to a remote one.
abbrev pub RemoteLeaves : Native → SdpType → Peer → Ran → Type 0
RemoteLeaves n type p r =
    Leaves p.signaling r
    ⊎ ((yields_first type p.signaling.signaling_state ≡ true)
        × LeavesAfter p.signaling (roll_back_local (λ q. q) n p) r)

offer-Leaves :
    (n : Native) (d : Description) (p : Peer)
    → yields_first offer p.signaling.signaling_state ≡ true
    → LeavesAfter p.signaling (roll_back_local (λ q. q) n p) (set_remote_offer n d p)
unfolding set_remote_offer
offer-Leaves n d p e =
    if-split (LeavesAfter p.signaling (roll_back_local (λ q. q) n p))
      (takes_remote_answer p.signaling.signaling_state)
      (λ f.
        after-Leaves p.signaling (with_syntax d (take_offer n d)) (roll_back_local (λ q. q) n p)
          (roll_back-Leaves (λ q. q) n p)
          (λ t. with_syntax-Leaves d (take_offer n d) t (take_offer-Leaves n d t)))
      (λ f. absurd (ground arith))

type-Leaves :
    (n : Native) (i : RemoteInput) (type : SdpType) (p : Peer)
    → yields_first type p.signaling.signaling_state ≡ true
    → LeavesAfter p.signaling (roll_back_local (λ q. q) n p) (elim type [
      | offer ↦ set_remote_offer n i.description p
      | answer ↦ set_remote_answer n i p
      | pranswer ↦ set_remote_pranswer i.description p
      | rollback ↦ set_remote_rollback n p
    ])
type-Leaves n i offer p e = offer-Leaves n i.description p e
type-Leaves n i answer p e = cc
type-Leaves n i pranswer p e = cc
type-Leaves n i rollback p e = cc

-- A call of setRemoteDescription that throws, or is never settled, leaves the descriptions and the
-- signaling state as they were; or it was for an offer in have-local-offer or have-remote-pranswer,
-- and leaves those that the rollback of the local description has given.
pub run_set_remote-RemoteLeaves :
    (n : Native) (i : RemoteInput) (p : Peer)
    → RemoteLeaves n i.description.type p (run_set_remote n i p)
unfolding run_set_remote
run_set_remote-RemoteLeaves n i p =
    let type : SdpType = i.description.type in
    if-holds (RemoteLeaves n type p) p.signaling.peer_closed (inl refl)
      (elim (Bool-cases (yields_first type p.signaling.signaling_state)) [
        | inl e ↦ inr (e, type-Leaves n i type p e)
        | inr e ↦ inl (remote-Leaves n i type p e)
      ])
