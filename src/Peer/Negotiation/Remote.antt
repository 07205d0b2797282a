-- ===== src/Peer/Negotiation/Remote.antt =====
-- setRemoteDescription.
use webrtc_node.Base.{
  ◌+◌, Option, none, some, Bool, false, not, ◌&&◌, ◌||◌, ◌==◌, if◌then◌else◌, invalid_state, ok,
  err,
}
use webrtc_node.Sdp.Description.{
  offer, answer, pranswer, rollback, Description, assert_valid_sdp_syntax,
}
use webrtc_node.Peer.Negotiation.{
  Peer, Native, Ran, returned, never, thrown, no_media, refresh_transports,
}
use webrtc_node.Peer.Negotiation.Local.{roll_back_local}
use webrtc_node.Peer.Negotiation.Taking.{
  RemoteInput, effective, takes_remote_answer, is_have_remote_offer, take_pending,
  set_remote_pranswer, set_remote_rollback, is_js_only_offer, is_data_only_offer,
  is_data_only_answer, take_js_only_offer, take_js_only_answer, take_data_only_offer,
  take_data_only_answer, take_no_media, take_by_native,
}

-- An offer, behind the implicit rollback.
unfoldable pub take_offer : Native → Description → Peer → Ran
unfolding take_js_only_offer is_js_only_offer take_data_only_offer is_data_only_offer take_no_media
    take_pending refresh_transports take_by_native
take_offer n d p =
    if is_js_only_offer d p
    then returned (take_js_only_offer d p)
    else if is_data_only_offer d p
    then returned (take_data_only_offer d p)
    else if no_media (some d)
    then returned (take_no_media d p)
    else if is_have_remote_offer p.signaling.signaling_state
    then returned (refresh_transports (take_pending d p))
    else take_by_native n offer d p

-- The syntax of the text is tested.
abbrev pub with_syntax : Description → (Peer → Ran) → Peer → Ran
with_syntax d next p = elim (assert_valid_sdp_syntax d) [ err f ↦ thrown f p | ok done ↦ next p ]

abbrev pub after : (Peer → Ran) → Ran → Ran
after next (returned p) = next p
after next (thrown f p) = thrown f p
after next (never p) = never p

unfoldable pub set_remote_offer : Native → Description → Peer → Ran
unfolding take_offer roll_back_local
set_remote_offer n d p =
    if takes_remote_answer p.signaling.signaling_state
    then after (with_syntax d (take_offer n d)) (roll_back_local (λ q. q) n p)
    else with_syntax d (take_offer n d) p

-- An answer, behind its first checks.
unfoldable pub take_answer : Native → RemoteInput → Peer → Ran
unfolding take_js_only_answer take_data_only_answer is_data_only_answer take_no_media take_by_native
take_answer n i p =
    if i.description.js_only_ice_restart || p.signaling.js_only_offer_pending
    then returned (take_js_only_answer (effective i) p)
    else if is_data_only_answer i.description p
    then returned (take_data_only_answer (effective i) p)
    else if no_media (some i.description)
    then returned (take_no_media i.description p)
    else take_by_native n answer (effective i) p

unfoldable pub set_remote_answer : Native → RemoteInput → Peer → Ran
unfolding take_answer
set_remote_answer n i p =
    if not (takes_remote_answer p.signaling.signaling_state)
      && not p.signaling.js_only_offer_pending
    then thrown invalid_state p
    else with_syntax i.description (take_answer n i) p

-- The part of setRemoteDescription behind its first wait. Later waits end nothing, and are no steps of
-- their own.
unfoldable pub run_set_remote : Native → RemoteInput → Peer → Ran
unfolding set_remote_offer set_remote_answer set_remote_pranswer set_remote_rollback
run_set_remote n i p = if p.signaling.peer_closed then never p else elim i.description.type [
  | offer ↦ set_remote_offer n i.description p
  | answer ↦ set_remote_answer n i p
  | pranswer ↦ set_remote_pranswer i.description p
  | rollback ↦ set_remote_rollback n p
]

abbrev is_refused : RemoteInput → Peer → Bool
is_refused i p = elim i.description.type [
  | offer ↦ false
  | answer ↦
      not (takes_remote_answer p.signaling.signaling_state) && not p.signaling.js_only_offer_pending
  | pranswer ↦ not (takes_remote_answer p.signaling.signaling_state)
  | rollback ↦ not (is_have_remote_offer p.signaling.signaling_state)
]

-- setRemoteDescription up to its first wait; none where it throws.
unfoldable pub begin_set_remote : RemoteInput → Peer → Option Peer
begin_set_remote i p =
    if p.signaling.peer_closed || (is_refused i p && p.operations == 0)
    then none
    else some (record p { operations = p.operations + 1 })
