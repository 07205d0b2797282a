-- ===== src/Peer/Negotiation/Create.antt =====
-- createOffer, createAnswer, restartIce and the description that is prepared with explicit ICE
-- credentials.
use webrtc_node.Base.{
  ◌+◌, Option, none, some, Bool, true, false, not, ◌&&◌, ◌||◌, if◌then◌else◌, or_else, is_some,
  invalid_state,
}
use webrtc_node.Sdp.Description.{SdpType, offer, answer, Description, mark_js_only_ice_restart}
use webrtc_node.Sdp.Sections.{IceParameters}
use webrtc_node.Sdp.Rewriting.{rewrite_ice_credentials}
use webrtc_node.Peer.Negotiation.Special.{plain}
use webrtc_node.Peer.Descriptions.{SignalingState, stable, have_local_offer, same_type}
use webrtc_node.Peer.Negotiation.{
  Peer, Native, Ran, returned, never, thrown, log, arms_suppression, visible, no_media,
  ensure_native, can_apply_credentials, same_state,
}

-- The first steps of an operation: `_assertNotClosed` and the count.
abbrev pub begin_operation : Peer → Peer
begin_operation p = record p { operations = p.operations + 1 }

abbrev pub is_stable_or_offer : SignalingState → Bool
is_stable_or_offer stable = true
is_stable_or_offer have_local_offer = true
is_stable_or_offer _ = false

-- A description that was created is kept as the last one; none is an exception of the native peer.
abbrev keep_offer : (Description → Description) → Option Description → Peer → Ran
keep_offer mark none p = thrown invalid_state p
keep_offer mark (some d) p = returned (record p { last_offer = some (mark d) })

abbrev keep_answer : (Description → Description) → Option Description → Peer → Ran
keep_answer mark none p = thrown invalid_state p
keep_answer mark (some d) p = returned (record p { last_answer = some (mark d) })

-- What the first explicit credentials lead to: the native peer is told to set a description of the
-- type with them, and what it has then is prepared.
unfoldable pub prepare_first : Native → SdpType → Peer → Ran
prepare_first n type p =
    let state = if same_type type offer then have_local_offer else stable in
    let q = record (ensure_native p) { suppressed = some state } in
    let failed =
      thrown invalid_state
        (record q { prepared_type = none; prepared = none; suppressed = none }) in
    if n.takes_local type
    then elim (n.described type) [
      | none ↦ failed
      | some d ↦ returned (record q { prepared_type = some type; prepared = some d })
    ]
    else failed

-- `_prepareNonstandardLocalDescription`, where explicit credentials are set.
unfoldable pub prepare_nonstandard : Native → SdpType → Peer → Ran
unfolding prepare_first
prepare_nonstandard n type p = elim p.prepared_type [
  | none ↦ prepare_first n type p
  | some t ↦ if same_type t type then returned p else thrown invalid_state p
]

-- What an ICE restart makes of an offer: new credentials where the native peer can apply them, and
-- else the mark of a restart in JavaScript alone.
abbrev pub offer_mark : IceParameters → Peer → Description → Description
unfolding rewrite_ice_credentials
offer_mark credentials p d =
    if p.ice_restart_pending
    then if can_apply_credentials p
      then plain (record d { sdp = rewrite_ice_credentials credentials d.sdp })
      else mark_js_only_ice_restart d
    else plain d

-- The part of createOffer behind its first wait, with the ICE credentials for a restart that the native
-- peer carries out, those of `_ensureIceRestartCredentials`.
unfoldable pub run_create_offer : Native → IceParameters → Bool → Peer → Ran
unfolding prepare_nonstandard can_apply_credentials
run_create_offer n credentials restart p =
    let q =
      if restart && not p.has_credentials
      then log arms_suppression (record p { ice_restart_pending = true })
      else p in
    if q.has_credentials
    then elim (prepare_nonstandard n offer q) [
      | returned t ↦ keep_offer (offer_mark credentials t) (or_else t.prepared n.created_offer) t
      | thrown f t ↦ thrown f t
      | never t ↦ never t
    ]
    else keep_offer (offer_mark credentials q) n.created_offer (ensure_native q)

-- The part of createAnswer behind its first wait; without media it repeats the remote text.
unfoldable pub run_create_answer : Native → Peer → Ran
unfolding prepare_nonstandard
run_create_answer n p =
    if p.js_only_remote_offer
    then keep_answer mark_js_only_ice_restart n.created_answer (ensure_native p)
    else if no_media (visible p.signaling.remote_side)
    then elim (visible p.signaling.remote_side) [
      | none ↦ thrown invalid_state p
      | some d ↦ returned (record p {
        last_answer = some (record { type = answer; sdp = d.sdp; js_only_ice_restart = false });
      })
    ]
    else if p.has_credentials
    then elim (prepare_nonstandard n answer p) [
      | returned t ↦ keep_answer plain (or_else t.prepared n.created_answer) t
      | thrown f t ↦ thrown f t
      | never t ↦ never t
    ]
    else keep_answer plain n.created_answer (ensure_native p)

-- createOffer up to its first wait: none where it throws, after that wait or at once.
unfoldable pub begin_create_offer : Peer → Option Peer
begin_create_offer p =
    if p.signaling.peer_closed || not (is_stable_or_offer p.signaling.signaling_state)
    then none
    else some (begin_operation p)

-- createAnswer up to its first wait.
unfoldable pub begin_create_answer : Peer → Option Peer
begin_create_answer p =
    if p.signaling.peer_closed || not (is_some (visible p.signaling.remote_side))
    then none
    else some (begin_operation p)

abbrev pub is_stable : Peer → Bool
is_stable p = same_state p.signaling.signaling_state stable

-- `_markNegotiationNeeded`, up to its timer.
unfoldable pub mark_negotiation_needed : Peer → Peer
mark_negotiation_needed p =
    if p.signaling.peer_closed || (not (is_stable p) || p.negotiation_needed)
    then p
    else record p { negotiation_needed = true; needed_scheduled = true }

-- The timer of `_markNegotiationNeeded`, which dispatches the event.
unfoldable pub run_negotiation_needed : Peer → Peer
run_negotiation_needed p =
    let q = record p { needed_scheduled = false } in
    if p.signaling.peer_closed || (not (is_stable p) || not p.negotiation_needed)
    then q
    else record q { needed_events = q.needed_events + 1 }

abbrev arm_restart : Peer → Peer
arm_restart p = log arms_suppression (record p { ice_restart_pending = true })

unfoldable pub restart_ice : Peer → Peer
unfolding mark_negotiation_needed
restart_ice p =
    if p.signaling.peer_closed
      || (not (is_some p.signaling.local_side.shown) && not (is_some p.signaling.remote_side.shown))
    then p
    else elim (is_stable p) [
      | true ↦ mark_negotiation_needed (arm_restart p)
      | false ↦ arm_restart p
    ]
