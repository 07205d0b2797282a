-- ===== src/Peer/Negotiation/Jsep/LocalFailures.antt =====
-- What is left of the descriptions where setLocalDescription throws.
use webrtc_node.Base.{
  Option, none, some, Bool, false, not, ◌&&◌, ◌||◌, ◌≡◌, refl, subst, if-holds, is_some, or_else,
}
use webrtc_node.Sdp.Description.{SdpType, offer, answer, pranswer, rollback, Description}
use webrtc_node.Peer.Descriptions.{Signaling, has_type, same_type}
use webrtc_node.Peer.Negotiation.{
  Peer, Native, Ran, returned, never, thrown, no_media, can_apply_credentials, visible,
  mark_set_by_api,
}
use webrtc_node.Peer.Negotiation.Local.{
  LocalInput, run_set_local, set_local_offer, set_local_answer, set_local_pranswer,
  set_local_rollback, apply_offer, apply_answer, apply_or_fail, no_media_answer, roll_back_local,
  or_last, is_last, takes_local_offer, takes_local_answer, is_applied, is_have_local_offer,
}
use webrtc_node.Peer.Negotiation.General.{
  apply_by_native, js_only_or_fail, is_shown, native_if_none,
}
use webrtc_node.Peer.Negotiation.Special.{
  apply_no_media, apply_data_only_offer, apply_data_only_answer, apply_js_only_answer,
  is_data_only_offer, is_data_only_answer,
}
use webrtc_node.Peer.Negotiation.Jsep.Steps.{Same}
use webrtc_node.Peer.Negotiation.Jsep.Offers.{native_if_none-Same}

-- An operation that does not return leaves the descriptions and the signaling state of `s`.
abbrev pub Leaves : Signaling → Ran → Type 0
Leaves s (returned t) = Unit
Leaves s (thrown f t) = t.signaling ≡ s
Leaves s (never t) = t.signaling ≡ s

js_only-Leaves :
    (type : SdpType) (o : Option Description) (p : Peer)
    → Leaves p.signaling (js_only_or_fail type o p)
js_only-Leaves type none p = refl
js_only-Leaves type (some o) p = tt

apply_or_fail-Leaves :
    (apply : Description → Peer → Peer) (o : Option Description) (p q : Peer)
    → Same p q
    → Leaves p.signaling (apply_or_fail apply o q)
apply_or_fail-Leaves apply none p q e = e
apply_or_fail-Leaves apply (some d) p q e = tt

apply_by_native-Leaves :
    (marked : Bool) (n : Native) (type : SdpType) (d : Option Description) (p : Peer)
    → Leaves p.signaling (apply_by_native marked n type d p)
unfolding apply_by_native
apply_by_native-Leaves marked n type d p =
    let Q : Ran → Type 0 = Leaves p.signaling in
    let o : Option Description = or_else d p.last_offer in
    if-holds Q (is_shown type p) tt (
      if-holds Q (has_type type p.prepared) tt (
        if-holds Q
          (((p.ice_restart_pending || marked) && same_type type offer)
            && not (can_apply_credentials p))
          (subst
            (λ s. Leaves s (js_only_or_fail type (or_else o n.created_offer) (native_if_none o p)))
            (native_if_none-Same o p)
            (js_only-Leaves type (or_else o n.created_offer) (native_if_none o p)))
          (if-holds Q (n.takes_local type) tt refl)))

apply_offer-Leaves :
    (marked : Bool) (n : Native) (d : Option Description) (p : Peer)
    → Leaves p.signaling (apply_offer marked n d p)
unfolding apply_offer
apply_offer-Leaves marked n d p =
    let Q : Ran → Type 0 = Leaves p.signaling in
    let implied : Option Description = or_else p.last_offer n.created_offer in
    let q : Peer = native_if_none (or_else d p.last_offer) p in
    let s : q.signaling ≡ p.signaling = native_if_none-Same (or_else d p.last_offer) p in
    if-holds Q (no_media d) (apply_or_fail-Leaves apply_no_media d p p refl) (
      if-holds Q (not (is_some d) && not (is_some implied)) s (
        if-holds Q (not (is_some d) && no_media implied)
          (apply_or_fail-Leaves apply_no_media implied p q s)
          (if-holds Q (is_data_only_offer d q)
            (apply_or_fail-Leaves apply_data_only_offer
              (or_else d (or_else p.signaling.local_side.current p.last_offer)) p q s)
            (subst (λ x. Leaves x (apply_by_native marked n offer d q)) s
              (apply_by_native-Leaves marked n offer d q)))))

apply_answer-Leaves :
    (marked : Bool) (n : Native) (d : Option Description) (p : Peer)
    → Leaves p.signaling (apply_answer marked n d p)
unfolding apply_answer
apply_answer-Leaves marked n d p =
    let Q : Ran → Type 0 = Leaves p.signaling in
    let q : Peer = native_if_none (or_else d p.last_answer) p in
    let s : q.signaling ≡ p.signaling = native_if_none-Same (or_else d p.last_answer) p in
    if-holds Q (no_media d) (apply_or_fail-Leaves apply_no_media d p p refl) (
      if-holds Q (not (is_some d) && no_media (visible p.signaling.remote_side))
        (apply_or_fail-Leaves apply_no_media (no_media_answer p) p p refl)
        (if-holds Q p.js_only_remote_offer
          (apply_or_fail-Leaves apply_js_only_answer
            (or_else (or_else d p.last_answer) n.created_answer) p q s)
          (if-holds Q (is_data_only_answer d p)
            (apply_or_fail-Leaves apply_data_only_answer
              (or_else d (or_else p.signaling.local_side.current p.last_answer)) p p refl)
            (apply_by_native-Leaves marked n answer d p))))

pub roll_back-Leaves :
    (mark : Peer → Peer) (n : Native) (p : Peer) → Leaves p.signaling (roll_back_local mark n p)
unfolding roll_back_local
roll_back-Leaves mark n p =
    let Q : Ran → Type 0 = Leaves p.signaling in
    if-holds Q (is_some p.signaling.local_side.shown && not (no_media p.signaling.local_side.shown))
      (if-holds Q (n.takes_local rollback) tt refl) tt

explicit-Leaves :
    (n : Native) (own : Bool) (d : Description) (type : SdpType) (p : Peer)
    → Leaves p.signaling (elim type [
      | offer ↦ set_local_offer n d p
      | answer ↦ set_local_answer n own d p
      | pranswer ↦ set_local_pranswer d p
      | rollback ↦ set_local_rollback n p
    ])
unfolding set_local_offer set_local_answer set_local_pranswer set_local_rollback
explicit-Leaves n own d offer p =
    let Q : Ran → Type 0 = Leaves p.signaling in
    if-holds Q (not (takes_local_offer p.signaling.signaling_state)) refl (
      if-holds Q (not (is_last p.last_offer (or_last p.last_offer d))) refl
        (apply_offer-Leaves d.js_only_ice_restart n (some (or_last p.last_offer d)) p))
explicit-Leaves n own d answer p =
    let Q : Ran → Type 0 = Leaves p.signaling in
    let e : Description = or_last p.last_answer d in
    if-holds Q (not (is_applied own e p) && not (takes_local_answer p.signaling.signaling_state))
      refl
      (if-holds Q (not (is_last p.last_answer e)) refl (
        if-holds Q (is_applied own e p) tt
          (apply_answer-Leaves d.js_only_ice_restart n (some e) p)))
explicit-Leaves n own d pranswer p =
    if-holds (Leaves p.signaling) (not (takes_local_answer p.signaling.signaling_state)) refl tt
explicit-Leaves n own d rollback p =
    if-holds (Leaves p.signaling) (not (is_have_local_offer p.signaling.signaling_state)) refl
      (roll_back-Leaves mark_set_by_api n p)

-- A call of setLocalDescription that throws, or is never settled, leaves the descriptions and the
-- signaling state as they were.
pub run_set_local-Leaves :
    (n : Native) (type : SdpType) (i : Option LocalInput) (p : Peer)
    → Leaves p.signaling (run_set_local n type i p)
unfolding run_set_local
run_set_local-Leaves n type none p =
    let Q : Ran → Type 0 = Leaves p.signaling in
    if-holds Q p.signaling.peer_closed refl (
      if-holds Q (same_type type answer) (apply_answer-Leaves false n none p)
        (apply_offer-Leaves false n none p))
run_set_local-Leaves n type (some i) p =
    if-holds (Leaves p.signaling) p.signaling.peer_closed refl
      (explicit-Leaves n i.own_answer i.description i.description.type p)
