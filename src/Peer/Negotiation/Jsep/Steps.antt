-- ===== src/Peer/Negotiation/Jsep/Steps.antt =====
-- What the common steps of the negotiation do to the signaling part of a peer.
use webrtc_node.Base.{true, false, ◌≡◌, refl, sym, arith, if-split, subst, is_some, ◌⊎◌}
use webrtc_node.Sdp.Description.{offer}
use webrtc_node.Peer.Descriptions.{
  Signaling, SignalingState, stable, have_local_offer, have_remote_offer,
  description_signaling_state, sync_signaling_state, has_type,
}
use webrtc_node.Peer.Negotiation.Jsep.{Fits, IsFitting}
use webrtc_node.Peer.Negotiation.{
  Peer, announce_state, dispatch_state, refresh_transports, refresh_role, sync_states, sync_state,
  clear_negotiation_needed, end_suppression,
}

-- The two peers have the same descriptions and signaling state.
abbrev pub Same : Peer → Peer → Type 0
Same p q = q.signaling ≡ p.signaling

pub announce-Same : (s : SignalingState) (p : Peer) → Same p (announce_state s p)
unfolding announce_state dispatch_state
announce-Same s p = ground arith

pub dispatch-Same : (p : Peer) → Same p (dispatch_state p)
unfolding dispatch_state
dispatch-Same p = refl

pub refresh_transports-Same : (p : Peer) → Same p (refresh_transports p)
unfolding refresh_transports refresh_role
refresh_transports-Same p = refl

pub clear-Same : (p : Peer) → Same p (clear_negotiation_needed p)
unfolding clear_negotiation_needed
clear-Same p = ground arith

pub end_suppression-Same : (s : SignalingState) (p : Peer) → Same p (end_suppression s p)
unfolding end_suppression
end_suppression-Same s p = ground arith

-- Reading the native states makes the signaling state that of the descriptions, or leaves it.
pub sync_states-cases :
    (p : Peer)
    → (sync_states p).signaling ≡ p.signaling
      ⊎ (sync_states p).signaling ≡ sync_signaling_state p.signaling
unfolding sync_states sync_state refresh_transports refresh_role
sync_states-cases p = ground arith

-- The signaling part is in the state, with the descriptions that fit it.
abbrev pub IsAt : SignalingState → Signaling → Type 0
IsAt x s = (s.signaling_state ≡ x) × IsFitting s

pub IsAt-state :
    (x : SignalingState) (s : Signaling)
    → s.signaling_state ≡ x
    → Fits x s.local_side.pending s.remote_side.pending
    → IsAt x s
IsAt-state x s e f =
    subst (λ y. (y ≡ x) × Fits y s.local_side.pending s.remote_side.pending) (sym e) (refl, f)

described-IsAt :
    (s : Signaling) (x : SignalingState)
    → description_signaling_state s ≡ x
    → Fits x s.local_side.pending s.remote_side.pending
    → IsAt x (record s { signaling_state = description_signaling_state s })
described-IsAt s x e f =
    IsAt-state x (record s { signaling_state = description_signaling_state s }) e f

-- A pending local offer alone gives its state, also for a restart in JavaScript alone.
pub sync-offer :
    (s : Signaling)
    → s.peer_closed ≡ false
    → has_type offer s.local_side.pending ≡ true
    → is_some s.remote_side.pending ≡ false
    → IsAt have_local_offer (sync_signaling_state s)
unfolding sync_signaling_state description_signaling_state
sync-offer s c l r =
    if-split (IsAt have_local_offer) s.js_only_offer_pending (λ j. (refl, (l, r)))
      (λ j. described-IsAt s have_local_offer (ground arith) (l, r))

-- Nothing pending gives the stable state.
pub sync-stable :
    (s : Signaling)
    → s.peer_closed ≡ false
    → s.js_only_offer_pending ≡ false
    → is_some s.local_side.pending ≡ false
    → is_some s.remote_side.pending ≡ false
    → IsAt stable (sync_signaling_state s)
unfolding sync_signaling_state description_signaling_state
sync-stable s c j l r =
    if-split (IsAt stable) s.js_only_offer_pending (λ k. absurd (ground arith))
      (λ k. described-IsAt s stable (ground arith) (l, r))

-- A pending remote offer alone gives its state.
pub sync-remote_offer :
    (s : Signaling)
    → s.peer_closed ≡ false
    → s.js_only_offer_pending ≡ false
    → is_some s.local_side.pending ≡ false
    → has_type offer s.remote_side.pending ≡ true
    → IsAt have_remote_offer (sync_signaling_state s)
unfolding sync_signaling_state description_signaling_state
sync-remote_offer s c j l r =
    if-split (IsAt have_remote_offer) s.js_only_offer_pending (λ k. absurd (ground arith))
      (λ k. described-IsAt s have_remote_offer (ground arith) (l, r))

-- Reading the native states keeps the descriptions, the mark of closing and that of a restart in
-- JavaScript alone.
pub record Keeps (s t : Signaling) : Type 0 where
  pub same_closed : t.peer_closed ≡ s.peer_closed
  pub same_local : t.local_side ≡ s.local_side
  pub same_remote : t.remote_side ≡ s.remote_side
  pub same_js_only : t.js_only_offer_pending ≡ s.js_only_offer_pending

pub sync_states-Keeps : (p : Peer) → Keeps p.signaling (sync_states p).signaling
unfolding sync_states sync_state sync_signaling_state refresh_transports refresh_role
sync_states-Keeps p = record {
  same_closed = ground arith;
  same_local = ground arith;
  same_remote = ground arith;
  same_js_only = ground arith;
}
