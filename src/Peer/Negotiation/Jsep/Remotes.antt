-- ===== src/Peer/Negotiation/Jsep/Remotes.antt =====
-- The offers and answers that setRemoteDescription takes end in the states of the specification.
use webrtc_node.Base.{
  Option, some, true, false, ◌||◌, ◌≡◌, refl, ap, ◌∙◌, sym, subst, List, [], if◌then◌else◌,
  if-holds, if-split, ltb, length,
}
use webrtc_node.Sdp.Description.{
  SdpType, offer, answer, Description, mark_js_only_ice_restart, has_trickle_ice_option,
}
use webrtc_node.Sdp.Candidates.{Candidate, extract_ice_candidates, strip_ice_candidate_lines}
use webrtc_node.Peer.Descriptions.{
  Side, SignalingState, stable, have_local_offer, have_remote_offer, have_local_pranswer,
  have_remote_pranswer, signaling_closed, roll_back, set_pending, commit, has_type, same_type,
}
use webrtc_node.Peer.Negotiation.{
  Peer, Native, Ran, state_of, dispatch_state, refresh_transports, refresh_role, sync_state,
  sync_states, log, on_local, on_remote, no_media, ensure_native, set_state, end_suppression,
  pairs_with_remote, queues_candidates, assigns_ids, updates_sctp, arms_suppression,
  add_pending_ice, same_state,
}
use webrtc_node.Peer.Negotiation.Special.{plain}
use webrtc_node.Peer.Negotiation.Remote.{take_offer, take_answer}
use webrtc_node.Peer.Negotiation.Taking.{
  RemoteInput, effective, take_pending, commit_both, take_js_only_offer, take_js_only_answer,
  take_data_only_offer, take_data_only_answer, take_no_media, settle_remote_descriptions,
  announce_suppressed, taken_by_native, take_by_native, is_js_only_offer, is_data_only_offer,
  is_data_only_answer, is_have_remote_offer,
}
use webrtc_node.Peer.Negotiation.Jsep.Answers.{not_offer}
use webrtc_node.Peer.Negotiation.Jsep.Steps.{
  IsAt-state, Same, announce-Same, IsAt, sync_states-Keeps, end_suppression-Same, sync-stable,
  sync-remote_offer,
}
use webrtc_node.Peer.Negotiation.Jsep.Offers.{EndsAt}
use webrtc_node.Peer.Negotiation.Jsep.Endings.{IsPlain, IsPlain-Keeps}
use webrtc_node.Peer.Negotiation.Jsep.Rollbacks.{IsOpen}

announce_suppressed-Same : (s : SignalingState) (p : Peer) → Same p (announce_suppressed s p)
unfolding announce_suppressed dispatch_state
announce_suppressed-Same s p =
    let q : Peer = dispatch_state (record p { suppressed = some p.signaling.signaling_state }) in
    if-holds (Same p) (same_state s p.signaling.signaling_state) {x = p}
      {y = end_suppression p.signaling.signaling_state q} refl
      (end_suppression-Same p.signaling.signaling_state q)

js_only-offer :
    (d : Description) (p : Peer)
    → IsOpen p.signaling
    → same_type d.type offer ≡ true
    → IsAt have_remote_offer (take_js_only_offer d p).signaling
unfolding take_js_only_offer take_pending set_pending refresh_transports refresh_role
js_only-offer d p h k =
    let s : Peer =
      record (set_state have_remote_offer (take_pending (mark_js_only_ice_restart d) p)) {
        js_only_remote_offer = true;
      } in
    let t : Peer = refresh_transports (log arms_suppression s) in
    subst (IsAt have_remote_offer) (sym (announce-Same (state_of p) t)) (refl, (h.is_alone, k))

data_only-offer :
    (d : Description) (p : Peer)
    → IsOpen p.signaling
    → same_type d.type offer ≡ true
    → IsAt have_remote_offer (take_data_only_offer d p).signaling
unfolding take_data_only_offer take_pending set_pending refresh_transports refresh_role sync_state
data_only-offer d p h k =
    let t : Peer = refresh_transports (sync_state (take_pending d p)) in
    subst (IsAt have_remote_offer) (sym (announce-Same (state_of p) t))
      (sync-remote_offer (take_pending d p).signaling h.is_live h.no_restart h.is_alone k)

no_media-offer :
    (d : Description) (p : Peer)
    → same_type d.type offer ≡ true
    → IsAt have_remote_offer (take_no_media d p).signaling
unfolding take_no_media set_pending roll_back dispatch_state refresh_transports refresh_role
no_media-offer d p k = rw k (refl, (refl, k))

remote_offer_state : (s : SignalingState) → is_have_remote_offer s ≡ true → s ≡ have_remote_offer
remote_offer_state stable e = cc
remote_offer_state have_local_offer e = cc
remote_offer_state have_remote_offer e = refl
remote_offer_state have_local_pranswer e = cc
remote_offer_state have_remote_pranswer e = cc
remote_offer_state signaling_closed e = cc

again-offer :
    (d : Description) (p : Peer)
    → IsOpen p.signaling
    → is_have_remote_offer p.signaling.signaling_state ≡ true
    → same_type d.type offer ≡ true
    → IsAt have_remote_offer (refresh_transports (take_pending d p)).signaling
unfolding take_pending set_pending refresh_transports refresh_role
again-offer d p h e k =
    IsAt-state have_remote_offer (take_pending d p).signaling
      (remote_offer_state p.signaling.signaling_state e) (h.is_alone, k)

-- The end of the general case of an offer.
settle-offer :
    (p : Peer)
    → IsPlain p.signaling
    → has_type offer p.signaling.remote_side.shown ≡ true
    → IsAt have_remote_offer (settle_remote_descriptions offer p).signaling
unfolding settle_remote_descriptions set_pending roll_back sync_state
settle-offer p h k =
    let q : Peer = on_local roll_back p in
    sync-remote_offer (on_remote (set_pending q.signaling.remote_side.shown) q).signaling h.is_live
      h.no_restart refl k

settle-answer :
    (p : Peer) → IsPlain p.signaling → IsAt stable (settle_remote_descriptions answer p).signaling
unfolding settle_remote_descriptions commit_both commit sync_state
settle-answer p h =
    sync-stable (commit_both p.signaling.remote_side.shown p).signaling h.is_live h.no_restart refl
      refl

-- The peer whose native states are read once the native peer has a remote description.
abbrev told : List Candidate → Description → Peer → Peer
told deferred d p =
    let q = record (log (queues_candidates deferred) (ensure_native p)) {
      can_trickle = some (has_trickle_ice_option d.sdp);
    } in
    log pairs_with_remote (on_remote (λ r. record r { shown = some (plain d) }) q)

told-Same :
    (type : SdpType) (deferred : List Candidate) (d : Description) (p : Peer)
    → (taken_by_native type deferred d p).signaling
      ≡ (settle_remote_descriptions type (sync_states (told deferred d p))).signaling
unfolding taken_by_native refresh_role add_pending_ice
told-Same type deferred d p =
    let t : Peer =
      log assigns_ids
        (refresh_role (settle_remote_descriptions type (sync_states (told deferred d p)))) in
    if-holds (Same t) (same_type type offer) {x = announce_suppressed (state_of p) t}
      {y = add_pending_ice (announce_suppressed (state_of p) t)}
      (announce_suppressed-Same (state_of p) t) (announce_suppressed-Same (state_of p) t)

native-offer :
    (deferred : List Candidate) (d : Description) (p : Peer)
    → IsPlain p.signaling
    → same_type d.type offer ≡ true
    → IsAt have_remote_offer (taken_by_native offer deferred d p).signaling
native-offer deferred d p h k =
    let q : Peer = told deferred d p in
    let e = sync_states-Keeps q in
    subst (IsAt have_remote_offer) (sym (told-Same offer deferred d p)) (
      settle-offer (sync_states q)
        (IsPlain-Keeps q.signaling (sync_states q).signaling e
          (record { is_live = h.is_live; no_restart = h.no_restart }))
        (ap (λ (x : Side). has_type offer x.shown) e.same_remote ∙ k))

native-answer :
    (deferred : List Candidate) (d : Description) (p : Peer)
    → IsPlain p.signaling
    → IsAt stable (taken_by_native answer deferred d p).signaling
native-answer deferred d p h =
    let q : Peer = told deferred d p in
    subst (IsAt stable) (sym (told-Same answer deferred d p)) (
      settle-answer (sync_states q) (
        IsPlain-Keeps q.signaling (sync_states q).signaling (sync_states-Keeps q)
          (record { is_live = h.is_live; no_restart = h.no_restart })))

pub take_offer-EndsAt :
    (n : Native) (d : Description) (p : Peer)
    → IsOpen p.signaling
    → same_type d.type offer ≡ true
    → EndsAt have_remote_offer (take_offer n d p)
unfolding take_offer take_by_native
take_offer-EndsAt n d p h k =
    let Q : Ran → Type 0 = EndsAt have_remote_offer in
    let deferred = extract_ice_candidates d in
    if-holds Q (is_js_only_offer d p) (js_only-offer d p h k) (
      if-holds Q (is_data_only_offer d p) (data_only-offer d p h k) (
        if-holds Q (no_media (some d)) (no_media-offer d p k) (
          if-split Q (is_have_remote_offer p.signaling.signaling_state) (λ e. again-offer d p h e k)
            (λ _.
              if-holds Q
                (n.takes_remote
                  (if ltb 0 (length deferred) then strip_ice_candidate_lines d else d))
                (native-offer deferred d p
                  (record { is_live = h.is_live; no_restart = h.no_restart }) k)
                tt))))

-- Answers.
js_only-answer : (d : Description) (p : Peer) → IsAt stable (take_js_only_answer d p).signaling
unfolding take_js_only_answer commit_both commit refresh_role
js_only-answer d p =
    let q : Peer = commit_both marked (on_remote (set_pending marked) p) in
    let t : Peer = record q {
      can_trickle = some (has_trickle_ice_option d.sdp);
      signaling = record q.signaling { signaling_state = stable; js_only_offer_pending = false };
      ice_restart_pending = false;
    } in
    let u : Peer = log updates_sctp (log assigns_ids (refresh_role t)) in
    subst (IsAt stable) (sym (announce-Same (state_of p) u)) (refl, (refl, refl))
  where
    marked : Option Description
    marked = some (mark_js_only_ice_restart d)

data_only-answer :
    (d : Description) (p : Peer)
    → IsPlain p.signaling
    → IsAt stable (take_data_only_answer d p).signaling
unfolding take_data_only_answer commit_both commit refresh_role sync_state set_pending
data_only-answer d p h =
    let q : Peer = record (commit_both (some d) (on_remote (set_pending (some d)) p)) {
      can_trickle = some (has_trickle_ice_option d.sdp);
    } in
    let u : Peer = log updates_sctp (log assigns_ids (refresh_role (sync_state q))) in
    subst (IsAt stable) (sym (announce-Same (state_of p) u))
      (sync-stable q.signaling h.is_live h.no_restart refl refl)

no_media-answer :
    (d : Description) (p : Peer)
    → same_type d.type answer ≡ true
    → IsAt stable (take_no_media d p).signaling
unfolding take_no_media commit_both commit dispatch_state refresh_transports refresh_role
no_media-answer d p k = rw (not_offer d.type k, k) (refl, (refl, refl))

pub take_answer-EndsAt :
    (n : Native) (i : RemoteInput) (p : Peer)
    → IsPlain p.signaling
    → same_type i.description.type answer ≡ true
    → EndsAt stable (take_answer n i p)
unfolding take_answer take_by_native
take_answer-EndsAt n i p h k =
    let Q : Ran → Type 0 = EndsAt stable in
    if-holds Q (i.description.js_only_ice_restart || p.signaling.js_only_offer_pending)
      (js_only-answer (effective i) p)
      (if-holds Q (is_data_only_answer i.description p) (data_only-answer (effective i) p h) (
        if-holds Q (no_media (some i.description)) (no_media-answer i.description p k)
          (if-holds Q (n.takes_remote (effective i)) (native-answer [] (effective i) p h) tt)))
