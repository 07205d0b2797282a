-- ===== src/Peer/Negotiation/Special.antt =====
-- The descriptions that setLocalDescription applies without the native peer, and the tests for them.
use webrtc_node.Base.{Option, none, some, Bool, true, false, not, ◌&&◌, if◌then◌else◌}
use webrtc_node.Sdp.Description.{offer, answer, Description, mark_js_only_ice_restart}
use webrtc_node.Sdp.Parsing.{has_different_ice_credentials}
use webrtc_node.Peer.Descriptions.{
  stable, have_local_offer, same_type, has_type, set_pending, commit,
}
use webrtc_node.Peer.Negotiation.{
  Peer, log, state_of, set_state, on_local, on_remote, has_data, announce_state, dispatch_state,
  sync_state, refresh_transports, clear_negotiation_needed, registers_description, same_state,
}

-- `new RTCSessionDescription(description)` does not keep the mark of an ICE restart.
abbrev pub plain : Description → Description
plain d = record d { js_only_ice_restart = false }

-- `_applyNoMediaLocalDescription`; provisional answers and rollbacks do not come here.
unfoldable pub apply_no_media : Description → Peer → Peer
unfolding set_pending commit dispatch_state refresh_transports clear_negotiation_needed
apply_no_media d p =
    let q =
      if same_type d.type offer
      then on_local (set_pending (some (plain d))) p
      else if same_type d.type answer
      then on_local (commit (some (plain d))) (on_remote (commit none) p)
      else on_local (set_pending (some (plain d))) p in
    let s =
      set_state (if same_type d.type offer then have_local_offer else stable)
        (log registers_description q) in
    dispatch_state (refresh_transports (clear_negotiation_needed s))

-- `_applyJsOnlyLocalAnswer`.
unfoldable pub apply_js_only_answer : Description → Peer → Peer
unfolding commit announce_state refresh_transports clear_negotiation_needed
apply_js_only_answer d p =
    let q = on_local (commit (some (mark_js_only_ice_restart d))) (on_remote (commit none) p) in
    let s = record (log registers_description q) { js_only_remote_offer = false } in
    announce_state (state_of p) (refresh_transports (set_state stable (clear_negotiation_needed s)))

-- `_applyDataOnlyLocalOffer`.
unfoldable pub apply_data_only_offer : Description → Peer → Peer
unfolding set_pending announce_state refresh_transports sync_state
apply_data_only_offer d p = announce_state (state_of p) (
    refresh_transports
      (sync_state (log registers_description (on_local (set_pending (some (plain d))) p))))

-- `_applyDataOnlyLocalAnswer`.
unfoldable pub apply_data_only_answer : Description → Peer → Peer
unfolding commit announce_state refresh_transports sync_state clear_negotiation_needed
apply_data_only_answer d p =
    let q = on_local (commit (some (plain d))) (on_remote (commit none) p) in
    announce_state (state_of p)
      (refresh_transports (sync_state (clear_negotiation_needed (log registers_description q))))

abbrev pub differ : Option Description → Option Description → Bool
differ none right = false
differ (some l) none = false
differ (some l) (some r) = has_different_ice_credentials l.sdp r.sdp

-- The condition on a description that may be left out.
abbrev pub keeps_credentials : Option Description → Option Description → Bool
keeps_credentials none current = true
keeps_credentials (some d) current = has_data (some d) && not (differ (some d) current)

-- `_shouldApplyDataOnlyLocalOffer`.
unfoldable pub is_data_only_offer : Option Description → Peer → Bool
is_data_only_offer d p =
    not p.ice_restart_pending
    && (same_state p.signaling.signaling_state stable
        && (has_type offer p.signaling.local_side.current
            && (has_type answer p.signaling.remote_side.current
                && (has_data p.signaling.local_side.current
                    && (has_data p.signaling.remote_side.current
                        && keeps_credentials d p.signaling.local_side.current)))))

-- `_shouldApplyDataOnlyLocalAnswer`.
unfoldable pub is_data_only_answer : Option Description → Peer → Bool
is_data_only_answer d p =
    has_type offer p.signaling.remote_side.pending
    && (has_type offer p.signaling.remote_side.current
        && (has_type answer p.signaling.local_side.current
            && (has_data p.signaling.remote_side.pending
                && (has_data p.signaling.remote_side.current
                    && (has_data p.signaling.local_side.current
                        && (not (
                              differ p.signaling.remote_side.pending
                                p.signaling.remote_side.current)
                            && keeps_credentials d p.signaling.local_side.current))))))
