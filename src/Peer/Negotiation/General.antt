-- ===== src/Peer/Negotiation/General.antt =====
-- The general case of setLocalDescription, and its end.
use webrtc_node.Base.{
  Option, none, some, Bool, true, false, not, ◌&&◌, ◌||◌, if◌then◌else◌, or_else, is_some,
  invalid_state,
}
use webrtc_node.Sdp.Description.{
  SdpType, offer, answer, pranswer, rollback, Description, mark_js_only_ice_restart,
}
use webrtc_node.Peer.Descriptions.{
  SignalingState, have_local_offer, same_type, has_type, set_pending, commit, commit_given,
}
use webrtc_node.Peer.Negotiation.{
  Peer, Native, Ran, returned, thrown, log, on_local, on_remote, ensure_native,
  can_apply_credentials, announce_state, sync_state, sync_states, refresh_role, mark_set_by_api,
  clear_negotiation_needed, add_pending_ice, Gathering, gathering_complete, registers_description,
  schedules_gathering, queues_restart_gathering, refreshes_from_native,
}

-- What the general case knows when it comes to its end: the state of gathering and of signaling before,
-- whether an ICE restart was applied, whether in JavaScript alone, and whether the state is announced.
pub record Progress : Type 0 where
  pub gathering_before : Gathering
  pub state_before : SignalingState
  pub restarted : Bool
  pub js_only : Bool
  pub announces : Bool

abbrev pub is_gathering_complete : Gathering → Bool
is_gathering_complete gathering_complete = true
is_gathering_complete _ = false

-- The changes of the descriptions at the end of the general case.
unfoldable pub settle_descriptions : SdpType → Peer → Peer
unfolding set_pending commit commit_given sync_state add_pending_ice
settle_descriptions offer p = sync_state (on_local (set_pending p.signaling.local_side.shown) p)
settle_descriptions answer p =
    let q = on_remote (commit none) p in
    add_pending_ice (sync_state (on_local (commit_given q.signaling.local_side.shown) q))
settle_descriptions pranswer p = p
settle_descriptions rollback p = p

-- The end of the general case. `_refreshLocalDescriptionAfterGatheringWindow` is logged as a call; that
-- it takes the native description over, at once and later, is not modelled.
unfoldable pub settle_local : SdpType → Progress → Peer → Peer
unfolding settle_descriptions announce_state refresh_role clear_negotiation_needed mark_set_by_api
settle_local type g p =
    let q =
      refresh_role (clear_negotiation_needed (mark_set_by_api (settle_descriptions type p))) in
    let s = if g.announces then announce_state g.state_before q else q in
    let t =
      if g.restarted
      then record (if is_gathering_complete g.gathering_before
          then log queues_restart_gathering s
          else s) { ice_restart_pending = false }
      else s in
    log registers_description (if g.js_only then t else log refreshes_from_native t)

abbrev pub progress_of : Peer → Progress
progress_of p = record {
  gathering_before = p.gathering;
  state_before = p.signaling.signaling_state;
  restarted = false;
  js_only = false;
  announces = false;
}

-- The native peer exists where a description had to be created.
abbrev pub native_if_none : Option Description → Peer → Peer
native_if_none none p = ensure_native p
native_if_none (some d) p = p

-- A description that was prepared with explicit credentials.
unfoldable pub apply_prepared : SdpType → Peer → Peer
unfolding settle_local sync_states
apply_prepared type p =
    let q = record (on_local (λ l. record l { shown = p.prepared }) p) {
      prepared = none;
      prepared_type = none;
      has_credentials = false;
    } in
    settle_local type (record (progress_of p) { announces = true })
      (log schedules_gathering (sync_states q))

-- An offer for an ICE restart in JavaScript alone.
unfoldable pub apply_js_only_offer : SdpType → Description → Peer → Peer
unfolding settle_local
apply_js_only_offer type o p =
    let q = on_local (λ l. record l { shown = some (mark_js_only_ice_restart o) }) p in
    let s = record q {
      signaling = record q.signaling {
        js_only_offer_pending = true;
        signaling_state = have_local_offer;
      };
    } in
    settle_local type
      (record (progress_of p) { restarted = true; js_only = true; announces = true }) s

-- What the native peer has, once it was told to set a description.
unfoldable pub apply_native : Bool → Native → SdpType → Peer → Peer
unfolding settle_local sync_states
apply_native restart n type p =
    let q = on_local (λ l. record l { shown = n.described type }) (ensure_native p) in
    settle_local type (record (progress_of p) { restarted = restart })
      (log schedules_gathering (sync_states q))

abbrev pub js_only_or_fail : SdpType → Option Description → Peer → Ran
js_only_or_fail type none p = thrown invalid_state p
js_only_or_fail type (some o) p = returned (apply_js_only_offer type o p)

-- Whether the shown description is of the type, no offer, and nothing is pending from the other side.
unfoldable pub is_shown : SdpType → Peer → Bool
is_shown type p =
    has_type type p.signaling.local_side.shown
    && (not (same_type type offer) && not (is_some p.signaling.remote_side.pending))

-- The general case: a description that the native peer has already, one that was prepared, a restart
-- in JavaScript alone, or one that the native peer is told to set.
unfoldable pub apply_by_native : Bool → Native → SdpType → Option Description → Peer → Ran
unfolding settle_local sync_states can_apply_credentials apply_prepared apply_js_only_offer
    apply_native is_shown
apply_by_native marked n type d p =
    let restart = (p.ice_restart_pending || marked) && same_type type offer in
    if is_shown type p
    then returned (settle_local type (progress_of p) (sync_states p))
    else if has_type type p.prepared
    then returned (apply_prepared type p)
    else if restart && not (can_apply_credentials p)
    then js_only_or_fail type (or_else (or_else d p.last_offer) n.created_offer)
        (native_if_none (or_else d p.last_offer) p)
    else if n.takes_local type
    then returned (apply_native restart n type p)
    else thrown invalid_state (ensure_native p)
