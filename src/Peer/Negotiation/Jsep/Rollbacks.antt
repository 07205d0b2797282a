-- ===== src/Peer/Negotiation/Jsep/Rollbacks.antt =====
-- Rollbacks end in the stable state.
use webrtc_node.Base.{
  some, Bool, false, not, ◌&&◌, ◌≡◌, refl, ap, ◌∙◌, sym, subst, if◌then◌else◌, if-holds, is_some,
  [],
}
use webrtc_node.Sdp.Description.{rollback}
use webrtc_node.Peer.Descriptions.{Side, Signaling, stable, roll_back}
use webrtc_node.Peer.Negotiation.{
  Peer, Native, Ran, state_of, announce_state, refresh_transports, refresh_role, sync_states, log,
  on_local, on_remote, no_media, ensure_native, set_state, is_gathering_new,
  unregisters_descriptions, gathering_events, gathering_new, drops_pairing,
}
use webrtc_node.Peer.Negotiation.Local.{rolled_back_local, roll_back_local}
use webrtc_node.Peer.Negotiation.Taking.{rolled_back_remote}
use webrtc_node.Peer.Negotiation.Jsep.Steps.{
  Same, announce-Same, IsAt, Keeps, sync_states-Keeps, end_suppression-Same,
}
use webrtc_node.Peer.Negotiation.Jsep.Offers.{EndsAt}
use webrtc_node.Peer.Negotiation.Jsep.Endings.{Ends}

-- Both sides without a pending description, in the stable state.
emptied :
    (s t : Signaling)
    → Keeps s t
    → is_some s.local_side.pending ≡ false
    → is_some s.remote_side.pending ≡ false
    → IsAt stable (record t { signaling_state = stable })
emptied s t k l r = (
  refl,
  (
    ap (λ (x : Side). is_some x.pending) k.same_local ∙ l,
    ap (λ (x : Side). is_some x.pending) k.same_remote ∙ r,
  ),
)

kept_by_events :
    (b : Bool) (p q : Peer) → Same p q → Same p (if b then log gathering_events q else q)
kept_by_events b p q h = if-holds (λ x. Same p x) b h h

-- The mark that an explicit rollback makes leaves the signaling part.
abbrev pub IsMark : (Peer → Peer) → Type 0
IsMark mark = (p : Peer) → Same p (mark p)

-- The peer whose native states are read in a rollback of the local description.
abbrev taken_back : (Peer → Peer) → Peer → Peer
unfolding roll_back
taken_back mark p =
    log unregisters_descriptions (record (mark (on_local roll_back p)) { local_candidates = [] })

rolled_back_local-Same :
    (mark : Peer → Peer) (p : Peer)
    → Same (set_state stable (sync_states (taken_back mark p))) (rolled_back_local mark p)
unfolding rolled_back_local refresh_transports refresh_role
rolled_back_local-Same mark p =
    let s : Peer = set_state stable (sync_states (taken_back mark p)) in
    let initial : Bool = not (is_some p.signaling.local_side.current) in
    let g : Peer = if initial then record s { gathering = gathering_new } else s in
    let v : Same s g = if-holds (λ x. Same s x) initial refl refl in
    let t : Peer = refresh_transports g in
    let u : Peer =
      if initial && not (is_gathering_new p.gathering) then log gathering_events t else t in
    end_suppression-Same stable (announce_state (state_of p) u)
    ∙ (announce-Same (state_of p) u
        ∙ kept_by_events (initial && not (is_gathering_new p.gathering)) s t v)

rolled_back_local-At :
    (mark : Peer → Peer) (p : Peer)
    → IsMark mark
    → is_some p.signaling.remote_side.pending ≡ false
    → IsAt stable (rolled_back_local mark p).signaling
unfolding roll_back
rolled_back_local-At mark p h r =
    let q : Peer = taken_back mark p in
    subst (IsAt stable) (sym (rolled_back_local-Same mark p)) (
      emptied q.signaling (sync_states q).signaling (sync_states-Keeps q)
        (ap (λ (x : Signaling). is_some x.local_side.pending) (h (on_local roll_back p)))
        (ap (λ (x : Signaling). is_some x.remote_side.pending) (h (on_local roll_back p)) ∙ r))

-- What a remote offer needs: nothing pending on the local side, and no restart in JavaScript alone.
pub record IsOpen (s : Signaling) : Type 0 where
  pub is_live : s.peer_closed ≡ false
  pub no_restart : s.js_only_offer_pending ≡ false
  pub is_alone : is_some s.local_side.pending ≡ false

IsOpen-Keeps :
    (s t : Signaling) → Keeps s t → IsOpen s → IsOpen (record t { signaling_state = stable })
IsOpen-Keeps s t k h = record {
  is_live = k.same_closed ∙ h.is_live;
  no_restart = k.same_js_only ∙ h.no_restart;
  is_alone = ap (λ (x : Side). is_some x.pending) k.same_local ∙ h.is_alone;
}

rolled_back_local-IsOpen :
    (p : Peer)
    → p.signaling.peer_closed ≡ false
    → p.signaling.js_only_offer_pending ≡ false
    → IsOpen (rolled_back_local (λ x. x) p).signaling
unfolding roll_back
rolled_back_local-IsOpen p c j =
    let q : Peer = taken_back (λ x. x) p in
    subst IsOpen (sym (rolled_back_local-Same (λ x. x) p)) (
      IsOpen-Keeps q.signaling (sync_states q).signaling (sync_states-Keeps q)
        (record { is_live = c; no_restart = j; is_alone = refl }))

pub roll_back_local-IsOpen :
    (n : Native) (p : Peer)
    → p.signaling.peer_closed ≡ false
    → p.signaling.js_only_offer_pending ≡ false
    → Ends (λ t. IsOpen t.signaling) (roll_back_local (λ x. x) n p)
unfolding roll_back_local
roll_back_local-IsOpen n p c j =
    let Q : Ran → Type 0 = Ends (λ t. IsOpen t.signaling) in
    if-holds Q (is_some p.signaling.local_side.shown && not (no_media p.signaling.local_side.shown))
      (if-holds Q (n.takes_local rollback)
        (rolled_back_local-IsOpen (record (ensure_native p) { suppressed = some stable }) c j) tt)
      (rolled_back_local-IsOpen p c j)

pub roll_back_local-EndsAt :
    (mark : Peer → Peer) (n : Native) (p : Peer)
    → IsMark mark
    → is_some p.signaling.remote_side.pending ≡ false
    → EndsAt stable (roll_back_local mark n p)
unfolding roll_back_local
roll_back_local-EndsAt mark n p h r =
    if-holds (EndsAt stable)
      (is_some p.signaling.local_side.shown && not (no_media p.signaling.local_side.shown))
      (if-holds (EndsAt stable) (n.takes_local rollback)
        (rolled_back_local-At mark (record (ensure_native p) { suppressed = some stable }) h r) tt)
      (rolled_back_local-At mark p h r)

pub rolled_back_remote-At :
    (p : Peer)
    → is_some p.signaling.local_side.pending ≡ false
    → IsAt stable (rolled_back_remote p).signaling
unfolding rolled_back_remote refresh_transports refresh_role roll_back
rolled_back_remote-At p l =
    let q : Peer = log drops_pairing (record (on_remote roll_back p) { remote_candidates = [] }) in
    let t : Peer = refresh_transports (set_state stable (sync_states q)) in
    subst (IsAt stable)
      (sym (
        end_suppression-Same stable (announce_state (state_of p) t) ∙ announce-Same (state_of p) t))
      (emptied q.signaling (sync_states q).signaling (sync_states-Keeps q) l refl)
