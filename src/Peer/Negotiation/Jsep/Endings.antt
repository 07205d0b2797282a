-- ===== src/Peer/Negotiation/Jsep/Endings.antt =====
-- In which states the ends of the general case leave a peer.
use webrtc_node.Base.{
  if◌then◌else◌, Option, none, some, Bool, true, false, ◌≡◌, refl, ap, ◌∙◌, sym, subst, if-holds,
  is_some,
}
use webrtc_node.Sdp.Description.{SdpType, offer, answer, Description}
use webrtc_node.Peer.Descriptions.{
  Side, Signaling, stable, have_local_offer, has_type, set_pending, commit, commit_given, same_type,
}
use webrtc_node.Peer.Negotiation.{
  queues_restart_gathering, refreshes_from_native, log, on_remote, Peer, Ran, returned, never,
  thrown, announce_state, refresh_role, sync_state, mark_set_by_api, clear_negotiation_needed,
  add_pending_ice, on_local,
}
use webrtc_node.Peer.Negotiation.General.{
  is_gathering_complete, settle_local, settle_descriptions, Progress,
}
use webrtc_node.Peer.Negotiation.Jsep.{IsOf}
use webrtc_node.Peer.Negotiation.Jsep.Steps.{
  clear-Same, Same, announce-Same, IsAt, sync-offer, sync-stable, Keeps,
}

-- If the operation returns, its state has the property.
abbrev pub Ends : (Peer → Type 0) → Ran → Type 0
Ends Q (returned t) = Q t
Ends Q (thrown f t) = Unit
Ends Q (never t) = Unit

settle_local-Same :
    (type : SdpType) (g : Progress) (p : Peer)
    → (settle_local type g p).signaling ≡ (settle_descriptions type p).signaling
unfolding settle_local mark_set_by_api refresh_role
settle_local-Same type g p =
    let d : Peer = settle_descriptions type p in
    let q : Peer = refresh_role (clear_negotiation_needed (mark_set_by_api d)) in
    let c : Same d q = clear-Same (mark_set_by_api d) in
    let a : Peer = announce_state g.state_before q in
    let s : Peer = if g.announces then a else q in
    let e : Same d s = if-holds (Same d) g.announces (announce-Same g.state_before q ∙ c) c in
    let b : Bool = is_gathering_complete g.gathering_before in
    let f : Same d (if b then log queues_restart_gathering s else s) = if-holds (Same d) b e e in
    let t : Peer =
      if g.restarted
      then record (if b then log queues_restart_gathering s else s) { ice_restart_pending = false }
      else s in
    let h : Same d t =
      if-holds (Same d) g.restarted
        {x = record (if b then log queues_restart_gathering s else s) {
          ice_restart_pending = false;
        }}
        {y = s} f e in
    if-holds (Same d) g.js_only {x = t} {y = log refreshes_from_native t} h h

-- What an offer needs: no description is pending from the other side.
pub record IsReady (s : Signaling) : Type 0 where
  pub is_live : s.peer_closed ≡ false
  pub is_alone : is_some s.remote_side.pending ≡ false

pub settle-offer :
    (g : Progress) (p : Peer)
    → IsReady p.signaling
    → has_type offer p.signaling.local_side.shown ≡ true
    → IsAt have_local_offer (settle_local offer g p).signaling
unfolding settle_descriptions set_pending sync_state
settle-offer g p h k = subst (IsAt have_local_offer) (sym (settle_local-Same offer g p)) (
    sync-offer (on_local (set_pending p.signaling.local_side.shown) p).signaling h.is_live k
      h.is_alone)

-- What an answer needs: no restart in JavaScript alone is under way.
pub record IsPlain (s : Signaling) : Type 0 where
  pub is_live : s.peer_closed ≡ false
  pub no_restart : s.js_only_offer_pending ≡ false

pub settle-answer :
    (g : Progress) (p : Peer)
    → IsPlain p.signaling
    → IsAt stable (settle_local answer g p).signaling
unfolding settle_descriptions commit commit_given sync_state add_pending_ice
settle-answer g p h =
    let q : Peer = on_remote (commit none) p in
    subst (IsAt stable) (sym (settle_local-Same answer g p)) (
      sync-stable (on_local (commit_given q.signaling.local_side.shown) q).signaling h.is_live
        h.no_restart refl refl)

pub IsReady-Keeps : (s t : Signaling) → Keeps s t → IsReady s → IsReady t
IsReady-Keeps s t k h = record {
  is_live = k.same_closed ∙ h.is_live;
  is_alone = ap (λ (x : Side). is_some x.pending) k.same_remote ∙ h.is_alone;
}

pub IsPlain-Keeps : (s t : Signaling) → Keeps s t → IsPlain s → IsPlain t
IsPlain-Keeps s t k h = record {
  is_live = k.same_closed ∙ h.is_live;
  no_restart = k.same_js_only ∙ h.no_restart;
}

-- The shown description is an offer, also once the native states were read.
pub still_shown :
    (s t : Signaling)
    → Keeps s t
    → has_type offer s.local_side.shown ≡ true
    → has_type offer t.local_side.shown ≡ true
still_shown s t k h = ap (λ (x : Side). has_type offer x.shown) k.same_local ∙ h

IsOf-some :
    (t : SdpType) (o : Option Description) (d : Description)
    → o ≡ some d
    → IsOf t o
    → same_type d.type t ≡ true
IsOf-some t o d e h = subst (IsOf t) e h
