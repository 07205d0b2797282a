-- ===== src/Peer/Negotiation/Taking.antt =====
-- What setRemoteDescription does with a description that it takes.
use webrtc_node.Base.{
  List, [], Option, none, some, Bool, true, false, not, ◌&&◌, ◌||◌, if◌then◌else◌, is_some,
  invalid_state, length, ltb,
}
use webrtc_node.Sdp.Description.{
  SdpType, offer, answer, pranswer, rollback, Description, mark_js_only_ice_restart,
  has_trickle_ice_option,
}
use webrtc_node.Sdp.Candidates.{Candidate, extract_ice_candidates, strip_ice_candidate_lines}
use webrtc_node.Peer.Descriptions.{
  SignalingState, stable, have_local_offer, have_remote_offer, have_remote_pranswer, same_type,
  has_type, set_pending, commit, roll_back,
}
use webrtc_node.Peer.Negotiation.{
  Peer, Native, Ran, returned, thrown, log, state_of, set_state, on_local, on_remote, no_media,
  has_data, ensure_native, end_suppression, announce_state, dispatch_state, sync_state, sync_states,
  refresh_transports, refresh_role, add_pending_ice, pairs_with_remote, drops_pairing,
  arms_suppression, assigns_ids, updates_sctp, queues_candidates, same_state,
}
use webrtc_node.Peer.Negotiation.Special.{differ, plain}

-- What setRemoteDescription is given: a description, and, for an answer that a peer of the process
-- created, the local description that this peer has after `_ensureLocalAnswerApplied`.
pub record RemoteInput : Type 0 where
  pub description : Description
  pub applied_answer : Option Description

-- The description that takes the place of an answer.
abbrev pub effective : RemoteInput → Description
effective i = elim i.applied_answer [ none ↦ i.description | some d ↦ d ]

abbrev pub takes_remote_answer : SignalingState → Bool
takes_remote_answer have_local_offer = true
takes_remote_answer have_remote_pranswer = true
takes_remote_answer _ = false

abbrev pub is_have_remote_offer : SignalingState → Bool
is_have_remote_offer have_remote_offer = true
is_have_remote_offer _ = false

abbrev set_trickle : Description → Peer → Peer
set_trickle d p = record p { can_trickle = some (has_trickle_ice_option d.sdp) }

-- A remote description becomes pending, peers are paired by it.
unfoldable pub take_pending : Description → Peer → Peer
unfolding set_pending
take_pending d p = set_trickle d (log pairs_with_remote (on_remote (set_pending (some d)) p))

-- Both sides' descriptions become current.
unfoldable pub commit_both : Option Description → Peer → Peer
unfolding commit
commit_both d p = on_remote (commit d) (on_local (commit none) p)

-- A provisional answer.
unfoldable pub set_remote_pranswer : Description → Peer → Ran
unfolding take_pending announce_state refresh_transports
set_remote_pranswer d p =
    if not (takes_remote_answer p.signaling.signaling_state)
    then thrown invalid_state p
    else returned (
        announce_state (state_of p)
          (refresh_transports (set_state have_remote_pranswer (take_pending d p))))

-- The rollback of the remote description, once the native peer has agreed.
unfoldable pub rolled_back_remote : Peer → Peer
unfolding roll_back sync_states refresh_transports announce_state end_suppression
rolled_back_remote p =
    let q = log drops_pairing (record (on_remote roll_back p) { remote_candidates = [] }) in
    end_suppression stable
      (announce_state (state_of p) (refresh_transports (set_state stable (sync_states q))))

abbrev pub empty_rollback : Description
empty_rollback = record { type = rollback; sdp = []; js_only_ice_restart = false }

unfoldable pub set_remote_rollback : Native → Peer → Ran
unfolding rolled_back_remote
set_remote_rollback n p =
    if not (is_have_remote_offer p.signaling.signaling_state)
    then thrown invalid_state p
    else if is_some p.signaling.remote_side.shown && not (no_media p.signaling.remote_side.shown)
    then if n.takes_remote empty_rollback
      then returned (rolled_back_remote (record (ensure_native p) { suppressed = some stable }))
      else thrown invalid_state (record (ensure_native p) { suppressed = none })
    else returned (rolled_back_remote p)

-- `_isJsOnlyIceRestartRemoteOffer`.
unfoldable pub is_js_only_offer : Description → Peer → Bool
is_js_only_offer d p =
    d.js_only_ice_restart
    || (is_some p.signaling.remote_side.current
        && (has_data (some d)
            && (has_data p.signaling.remote_side.current
                && differ (some d) p.signaling.remote_side.current)))

-- `_shouldApplyDataOnlyRemoteOffer`.
unfoldable pub is_data_only_offer : Description → Peer → Bool
is_data_only_offer d p =
    same_state p.signaling.signaling_state stable
    && (has_type offer p.signaling.remote_side.current
        && (has_type answer p.signaling.local_side.current
            && (has_data (some d)
                && (has_data p.signaling.remote_side.current
                    && (has_data p.signaling.local_side.current
                        && not (differ (some d) p.signaling.remote_side.current))))))

-- `_shouldApplyDataOnlyRemoteAnswer`.
unfoldable pub is_data_only_answer : Description → Peer → Bool
is_data_only_answer d p =
    has_type offer p.signaling.local_side.pending
    && (has_type offer p.signaling.local_side.current
        && (has_type answer p.signaling.remote_side.current
            && (has_data (some d)
                && (has_data p.signaling.local_side.pending
                    && (has_data p.signaling.local_side.current
                        && (has_data p.signaling.remote_side.current
                            && (not (
                                  differ p.signaling.local_side.pending
                                    p.signaling.local_side.current)
                                && not (differ (some d) p.signaling.remote_side.current))))))))

-- An offer for an ICE restart in JavaScript alone.
unfoldable pub take_js_only_offer : Description → Peer → Peer
unfolding take_pending announce_state refresh_transports
take_js_only_offer d p =
    let q = take_pending (mark_js_only_ice_restart d) p in
    let s = record (set_state have_remote_offer q) { js_only_remote_offer = true } in
    announce_state (state_of p) (refresh_transports (log arms_suppression s))

-- The answer to such an offer of this peer.
unfoldable pub take_js_only_answer : Description → Peer → Peer
unfolding set_pending commit announce_state refresh_role
take_js_only_answer d p =
    let marked = some (mark_js_only_ice_restart d) in
    let q = commit_both marked (on_remote (set_pending marked) p) in
    let s = set_trickle d q in
    let t = record s {
      signaling = record s.signaling { signaling_state = stable; js_only_offer_pending = false };
      ice_restart_pending = false;
    } in
    announce_state (state_of p) (log updates_sctp (log assigns_ids (refresh_role t)))

-- An offer, or an answer, that only adds data channels.
unfoldable pub take_data_only_offer : Description → Peer → Peer
unfolding take_pending announce_state refresh_transports sync_state
take_data_only_offer d p =
    announce_state (state_of p) (refresh_transports (sync_state (take_pending d p)))

unfoldable pub take_data_only_answer : Description → Peer → Peer
unfolding set_pending commit_both announce_state refresh_role sync_state
take_data_only_answer d p =
    let q = set_trickle d (commit_both (some d) (on_remote (set_pending (some d)) p)) in
    announce_state (state_of p) (log updates_sctp (log assigns_ids (refresh_role (sync_state q))))

-- A description without media; provisional answers and rollbacks do not come here.
unfoldable pub take_no_media : Description → Peer → Peer
unfolding set_pending commit_both roll_back dispatch_state refresh_transports
take_no_media d p =
    let q =
      if same_type d.type offer
      then on_remote (set_pending (some d)) (on_local roll_back p)
      else if same_type d.type answer
      then commit_both (some d) p
      else on_remote (set_pending (some d)) p in
    let s = set_trickle d (log pairs_with_remote q) in
    dispatch_state (
      refresh_transports (
        if same_type d.type offer
        then set_state have_remote_offer s
        else if same_type d.type answer
        then set_state stable s
        else s))

-- The changes of the descriptions at the end of the general case.
unfoldable pub settle_remote_descriptions : SdpType → Peer → Peer
unfolding set_pending commit_both roll_back sync_state
settle_remote_descriptions offer p =
    let q = on_local roll_back p in
    sync_state (on_remote (set_pending q.signaling.remote_side.shown) q)
settle_remote_descriptions answer p = sync_state (commit_both p.signaling.remote_side.shown p)
settle_remote_descriptions pranswer p = p
settle_remote_descriptions rollback p = p

-- The dispatch of a new state; while it lasts, the same state of the native peer is suppressed.
unfoldable pub announce_suppressed : SignalingState → Peer → Peer
unfolding dispatch_state end_suppression
announce_suppressed previous p =
    if same_state previous p.signaling.signaling_state
    then p
    else end_suppression p.signaling.signaling_state
        (dispatch_state (record p { suppressed = some p.signaling.signaling_state }))

-- What the general case does, once the native peer has taken the description `d`.
unfoldable pub taken_by_native : SdpType → List Candidate → Description → Peer → Peer
unfolding settle_remote_descriptions sync_states refresh_role announce_suppressed add_pending_ice
taken_by_native type deferred d p =
    let q = set_trickle d (log (queues_candidates deferred) (ensure_native p)) in
    let s = log pairs_with_remote (on_remote (λ r. record r { shown = some (plain d) }) q) in
    let t = log assigns_ids (refresh_role (settle_remote_descriptions type (sync_states s))) in
    let u = announce_suppressed (state_of p) t in
    if same_type type offer then u else add_pending_ice u

-- The general case; the candidates of an offer are kept back from the native peer.
unfoldable pub take_by_native : Native → SdpType → Description → Peer → Ran
unfolding taken_by_native extract_ice_candidates strip_ice_candidate_lines
take_by_native n type d p =
    let deferred = if same_type type offer then extract_ice_candidates d else [] in
    let told = if ltb 0 (length deferred) then strip_ice_candidate_lines d else d in
    if n.takes_remote told
    then returned (taken_by_native type deferred d p)
    else thrown invalid_state (ensure_native p)
