-- ===== src/Peer/Negotiation/Jsep/Offers.antt =====
-- The offers that setLocalDescription applies end in the state have-local-offer.
use webrtc_node.Base.{
  Option, none, some, Bool, true, false, not, ◌&&◌, ◌||◌, ◌≡◌, refl, sym, subst, arith, if-holds,
  if-split, is_some, or_else,
}
use webrtc_node.Sdp.Description.{SdpType, offer, Description, mark_js_only_ice_restart}
use webrtc_node.Peer.Descriptions.{
  Signaling, SignalingState, have_local_offer, has_type, set_pending, same_type,
}
use webrtc_node.Peer.Negotiation.{
  log, schedules_gathering, can_apply_credentials, Peer, Native, Ran, state_of, dispatch_state,
  refresh_transports, refresh_role, sync_states, sync_state, mark_set_by_api,
  clear_negotiation_needed, on_local, no_media, ensure_native,
}
use webrtc_node.Peer.Negotiation.Local.{apply_offer, apply_or_fail}
use webrtc_node.Peer.Negotiation.General.{
  apply_by_native, apply_prepared, apply_js_only_offer, apply_native, is_shown, native_if_none,
  js_only_or_fail, progress_of,
}
use webrtc_node.Peer.Negotiation.Special.{
  apply_no_media, apply_data_only_offer, is_data_only_offer, plain,
}
use webrtc_node.Peer.Negotiation.Jsep.{IsOf, IsLawful}
use webrtc_node.Peer.Negotiation.Jsep.Steps.{
  Same, announce-Same, IsAt, sync-offer, sync_states-Keeps,
}
use webrtc_node.Peer.Negotiation.Jsep.Endings.{
  Ends, IsReady, settle-offer, IsReady-Keeps, still_shown,
}

prepared-offer :
    (p : Peer)
    → IsReady p.signaling
    → has_type offer p.prepared ≡ true
    → IsAt have_local_offer (apply_prepared offer p).signaling
unfolding apply_prepared
prepared-offer p h k =
    let q : Peer = record (on_local (λ l. record l { shown = p.prepared }) p) {
      prepared = none;
      prepared_type = none;
      has_credentials = false;
    } in
    let e = sync_states-Keeps q in
    settle-offer (record (progress_of p) { announces = true })
      (log schedules_gathering (sync_states q))
      (IsReady-Keeps q.signaling (sync_states q).signaling e
        (record { is_live = h.is_live; is_alone = h.is_alone }))
      (still_shown q.signaling (sync_states q).signaling e k)

native-offer :
    (restart : Bool) (n : Native) (p : Peer)
    → IsReady p.signaling
    → IsLawful n
    → IsAt have_local_offer (apply_native restart n offer p).signaling
unfolding apply_native
native-offer restart n p h l =
    let q : Peer = on_local (λ x. record x { shown = n.described offer }) (ensure_native p) in
    let e = sync_states-Keeps q in
    settle-offer (record (progress_of p) { restarted = restart })
      (log schedules_gathering (sync_states q))
      (IsReady-Keeps q.signaling (sync_states q).signaling e
        (record { is_live = h.is_live; is_alone = h.is_alone }))
      (still_shown q.signaling (sync_states q).signaling e (l.describes offer))

js_only-offer :
    (o : Description) (p : Peer)
    → IsReady p.signaling
    → same_type o.type offer ≡ true
    → IsAt have_local_offer (apply_js_only_offer offer o p).signaling
unfolding apply_js_only_offer
js_only-offer o p h k =
    let q : Peer = on_local (λ l. record l { shown = some (mark_js_only_ice_restart o) }) p in
    let s : Peer = record q {
      signaling = record q.signaling {
        js_only_offer_pending = true;
        signaling_state = have_local_offer;
      };
    } in
    settle-offer (record (progress_of p) { restarted = true; js_only = true; announces = true }) s
      (record { is_live = h.is_live; is_alone = h.is_alone }) k

-- An operation that ends in the state, if it returns.
abbrev pub EndsAt : SignalingState → Ran → Type 0
EndsAt x = Ends (λ t. IsAt x t.signaling)

js_only_or_fail-offer :
    (o : Option Description) (p : Peer)
    → IsReady p.signaling
    → IsOf offer o
    → EndsAt have_local_offer (js_only_or_fail offer o p)
js_only_or_fail-offer none p h k = tt
js_only_or_fail-offer (some o) p h k = js_only-offer o p h k

pub or_else-IsOf :
    (t : SdpType) (a b : Option Description) → IsOf t a → IsOf t b → IsOf t (or_else a b)
or_else-IsOf t none b h k = k
or_else-IsOf t (some a) b h k = h

pub native_if_none-Same : (o : Option Description) (p : Peer) → Same p (native_if_none o p)
native_if_none-Same none p = refl
native_if_none-Same (some d) p = refl

native_if_none-IsOf :
    (o : Option Description) (p : Peer)
    → IsOf offer p.last_offer
    → IsOf offer (native_if_none o p).last_offer
native_if_none-IsOf none p h = h
native_if_none-IsOf (some d) p h = h

by_native-offer :
    (marked : Bool) (n : Native) (d : Option Description) (p : Peer)
    → IsReady p.signaling
    → IsLawful n
    → IsOf offer d
    → IsOf offer p.last_offer
    → EndsAt have_local_offer (apply_by_native marked n offer d p)
unfolding apply_by_native is_shown
by_native-offer marked n d p h l k o =
    if-split (EndsAt have_local_offer) (is_shown offer p) (λ e. absurd (ground arith))
      (λ _.
        if-split (EndsAt have_local_offer) (has_type offer p.prepared) (prepared-offer p h) (λ _.
          if-holds (EndsAt have_local_offer)
            (((p.ice_restart_pending || marked) && same_type offer offer)
              && not (can_apply_credentials p))
            (js_only_or_fail-offer (or_else (or_else d p.last_offer) n.created_offer)
              (native_if_none (or_else d p.last_offer) p)
              (subst IsReady (sym (native_if_none-Same (or_else d p.last_offer) p)) h)
              (or_else-IsOf offer (or_else d p.last_offer) n.created_offer
                (or_else-IsOf offer d p.last_offer k o) l.creates_offers))
            (if-holds (EndsAt have_local_offer) (n.takes_local offer)
              (native-offer ((p.ice_restart_pending || marked) && same_type offer offer) n p h l)
              tt)))

no_media-offer :
    (d : Description) (p : Peer)
    → IsReady p.signaling
    → same_type d.type offer ≡ true
    → IsAt have_local_offer (apply_no_media d p).signaling
unfolding apply_no_media set_pending refresh_transports refresh_role dispatch_state
    clear_negotiation_needed
no_media-offer d p h k = rw k (ground arith)

data_only-offer :
    (d : Description) (p : Peer)
    → IsReady p.signaling
    → same_type d.type offer ≡ true
    → IsAt have_local_offer (apply_data_only_offer d p).signaling
unfolding apply_data_only_offer set_pending sync_state refresh_transports refresh_role
data_only-offer d p h k =
    subst (IsAt have_local_offer) (sym (announce-Same (state_of p) _))
      (sync-offer (on_local (set_pending (some (plain d))) p).signaling h.is_live k h.is_alone)

pub apply_or_fail-EndsAt :
    (x : SignalingState) (apply : Description → Peer → Peer) (t : SdpType) (o : Option Description)
    (p : Peer)
    → IsOf t o
    → ((d : Description) → same_type d.type t ≡ true → IsAt x (apply d p).signaling)
    → EndsAt x (apply_or_fail apply o p)
unfolding mark_set_by_api
apply_or_fail-EndsAt x apply t none p h k = tt
apply_or_fail-EndsAt x apply t (some d) p h k = k d h

is_data_only-current :
    (d : Option Description) (p : Peer)
    → is_data_only_offer d p ≡ true
    → has_type offer p.signaling.local_side.current ≡ true
unfolding is_data_only_offer
is_data_only-current d p e = ground arith

pub has_type-IsOf : (t : SdpType) (o : Option Description) → has_type t o ≡ true → IsOf t o
has_type-IsOf t none e = tt
has_type-IsOf t (some d) e = e

-- An offer that is ready to be applied ends in its state.
pub apply_offer-EndsAt :
    (marked : Bool) (n : Native) (d : Option Description) (p : Peer)
    → IsReady p.signaling
    → IsLawful n
    → IsOf offer d
    → IsOf offer p.last_offer
    → EndsAt have_local_offer (apply_offer marked n d p)
unfolding apply_offer
apply_offer-EndsAt marked n d p h l k o =
    let Q : Ran → Type 0 = EndsAt have_local_offer in
    let implied : Option Description = or_else p.last_offer n.created_offer in
    let i : IsOf offer implied =
      or_else-IsOf offer p.last_offer n.created_offer o l.creates_offers in
    let q : Peer = native_if_none (or_else d p.last_offer) p in
    let s = native_if_none-Same (or_else d p.last_offer) p in
    let h' : IsReady q.signaling = subst IsReady (sym s) h in
    let o' : IsOf offer q.last_offer = native_if_none-IsOf (or_else d p.last_offer) p o in
    if-holds Q (no_media d)
      (apply_or_fail-EndsAt have_local_offer apply_no_media offer d p k
        (λ c e. no_media-offer c p h e))
      (if-holds Q (not (is_some d) && not (is_some implied)) tt (
        if-holds Q (not (is_some d) && no_media implied)
          (apply_or_fail-EndsAt have_local_offer apply_no_media offer implied q i
            (λ c e. no_media-offer c q h' e))
          (if-split Q (is_data_only_offer d q)
            (λ e.
              apply_or_fail-EndsAt have_local_offer apply_data_only_offer offer
                (or_else d (or_else p.signaling.local_side.current p.last_offer)) q
                (or_else-IsOf offer d (or_else p.signaling.local_side.current p.last_offer) k (
                  or_else-IsOf offer p.signaling.local_side.current p.last_offer
                    (has_type-IsOf offer p.signaling.local_side.current (
                      subst (λ (x : Signaling). has_type offer x.local_side.current ≡ true) s
                        (is_data_only-current d q e)))
                    o))
                (λ c e. data_only-offer c q h' e))
            (λ _. by_native-offer marked n d q h' l k o'))))
