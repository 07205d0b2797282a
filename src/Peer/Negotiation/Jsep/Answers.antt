-- ===== src/Peer/Negotiation/Jsep/Answers.antt =====
-- The answers that setLocalDescription applies end in the stable state.
use webrtc_node.Base.{
  Option, none, some, Bool, true, false, not, ◌&&◌, ◌||◌, ◌≡◌, refl, sym, subst, arith, if-holds,
  if-split, is_some, or_else,
}
use webrtc_node.Sdp.Description.{
  SdpType, offer, answer, pranswer, rollback, Description, mark_js_only_ice_restart,
}
use webrtc_node.Peer.Descriptions.{stable, sync_signaling_state, has_type, commit, same_type}
use webrtc_node.Peer.Negotiation.{
  Peer, Native, Ran, state_of, dispatch_state, refresh_transports, refresh_role, sync_states,
  sync_state, log, schedules_gathering, registers_description, clear_negotiation_needed, on_local,
  on_remote, no_media, ensure_native, visible, can_apply_credentials,
}
use webrtc_node.Peer.Negotiation.Local.{apply_answer, no_media_answer}
use webrtc_node.Peer.Negotiation.General.{
  apply_by_native, apply_prepared, apply_native, is_shown, native_if_none, progress_of,
}
use webrtc_node.Peer.Negotiation.Special.{
  apply_no_media, apply_data_only_answer, apply_js_only_answer, is_data_only_answer, plain,
}
use webrtc_node.Peer.Negotiation.Jsep.{IsOf, IsLawful}
use webrtc_node.Peer.Negotiation.Jsep.Steps.{
  announce-Same, clear-Same, IsAt, sync-stable, sync_states-Keeps,
}
use webrtc_node.Peer.Negotiation.Jsep.Offers.{
  EndsAt, or_else-IsOf, apply_or_fail-EndsAt, native_if_none-Same, has_type-IsOf,
}
use webrtc_node.Peer.Negotiation.Jsep.Endings.{IsPlain, settle-answer, IsPlain-Keeps}

synced-answer : (p q : Peer) → IsPlain q.signaling → IsPlain (sync_states q).signaling
synced-answer p q h = IsPlain-Keeps q.signaling (sync_states q).signaling (sync_states-Keeps q) h

prepared-answer : (p : Peer) → IsPlain p.signaling → IsAt stable (apply_prepared answer p).signaling
unfolding apply_prepared
prepared-answer p h =
    let q : Peer = record (on_local (λ l. record l { shown = p.prepared }) p) {
      prepared = none;
      prepared_type = none;
      has_credentials = false;
    } in
    settle-answer (record (progress_of p) { announces = true })
      (log schedules_gathering (sync_states q))
      (synced-answer p q (record { is_live = h.is_live; no_restart = h.no_restart }))

native-answer :
    (restart : Bool) (n : Native) (p : Peer)
    → IsPlain p.signaling
    → IsAt stable (apply_native restart n answer p).signaling
unfolding apply_native
native-answer restart n p h =
    let q : Peer = on_local (λ x. record x { shown = n.described answer }) (ensure_native p) in
    settle-answer (record (progress_of p) { restarted = restart })
      (log schedules_gathering (sync_states q))
      (synced-answer p q (record { is_live = h.is_live; no_restart = h.no_restart }))

by_native-answer :
    (marked : Bool) (n : Native) (d : Option Description) (p : Peer)
    → IsPlain p.signaling
    → EndsAt stable (apply_by_native marked n answer d p)
unfolding apply_by_native
by_native-answer marked n d p h =
    let Q : Ran → Type 0 = EndsAt stable in
    if-holds Q (is_shown answer p)
      (settle-answer (progress_of p) (sync_states p) (synced-answer p p h))
      (if-holds Q (has_type answer p.prepared) (prepared-answer p h) (
        if-split Q
          (((p.ice_restart_pending || marked) && same_type answer offer)
            && not (can_apply_credentials p))
          (λ e. absurd (never_restarts (p.ice_restart_pending || marked) _ e))
          (λ _.
            if-holds Q (n.takes_local answer)
              (native-answer ((p.ice_restart_pending || marked) && same_type answer offer) n p h)
              tt)))
  where
    never_restarts : (a b : Bool) → ((a && false) && b) ≡ true → ⊥
    never_restarts true b e = cc
    never_restarts false b e = cc

pub not_offer : (t : SdpType) → same_type t answer ≡ true → same_type t offer ≡ false
not_offer offer e = cc
not_offer answer e = refl
not_offer pranswer e = refl
not_offer rollback e = refl

no_media-answer :
    (d : Description) (p : Peer)
    → same_type d.type answer ≡ true
    → IsAt stable (apply_no_media d p).signaling
unfolding apply_no_media commit refresh_transports refresh_role dispatch_state
    clear_negotiation_needed
no_media-answer d p k = rw (not_offer d.type k, k) (ground arith)

js_only-answer : (d : Description) (p : Peer) → IsAt stable (apply_js_only_answer d p).signaling
unfolding apply_js_only_answer commit refresh_transports refresh_role
js_only-answer d p =
    let q : Peer =
      on_local (commit (some (mark_js_only_ice_restart d))) (on_remote (commit none) p) in
    let s : Peer = record (log registers_description q) { js_only_remote_offer = false } in
    subst (IsAt stable) (sym (announce-Same (state_of p) _)) (
      subst (λ x. IsAt stable (record x { signaling_state = stable })) (sym (clear-Same s))
        (refl, (refl, refl)))

data_only-answer :
    (d : Description) (p : Peer)
    → IsPlain p.signaling
    → IsAt stable (apply_data_only_answer d p).signaling
unfolding apply_data_only_answer commit sync_state refresh_transports refresh_role
data_only-answer d p h =
    let q : Peer = on_local (commit (some (plain d))) (on_remote (commit none) p) in
    let s : Peer = log registers_description q in
    subst (IsAt stable) (sym (announce-Same (state_of p) _)) (
      subst (λ x. IsAt stable (sync_signaling_state x)) (sym (clear-Same s))
        (sync-stable q.signaling h.is_live h.no_restart refl refl))

no_media_answer-IsOf : (p : Peer) → IsOf answer p.last_answer → IsOf answer (no_media_answer p)
no_media_answer-IsOf p h =
    or_else-IsOf answer p.last_answer _ h (go (visible p.signaling.remote_side))
  where
    go :
        (o : Option Description)
        → IsOf answer (elim o [
          | none ↦ none
          | some d ↦ some (record { type = answer; sdp = d.sdp; js_only_ice_restart = false })
        ])
    go none = tt
    go (some d) = refl

native_if_none-IsPlain :
    (o : Option Description) (p : Peer)
    → IsPlain p.signaling
    → IsPlain (native_if_none o p).signaling
native_if_none-IsPlain o p h = subst IsPlain (sym (native_if_none-Same o p)) h

is_data_only-answer :
    (d : Option Description) (p : Peer)
    → is_data_only_answer d p ≡ true
    → has_type answer p.signaling.local_side.current ≡ true
unfolding is_data_only_answer
is_data_only-answer d p e = ground arith

-- An answer that is ready to be applied ends in the stable state.
pub apply_answer-EndsAt :
    (marked : Bool) (n : Native) (d : Option Description) (p : Peer)
    → IsPlain p.signaling
    → IsLawful n
    → IsOf answer d
    → IsOf answer p.last_answer
    → EndsAt stable (apply_answer marked n d p)
unfolding apply_answer
apply_answer-EndsAt marked n d p h l k o =
    let Q : Ran → Type 0 = EndsAt stable in
    let created : Option Description = or_else (or_else d p.last_answer) n.created_answer in
    let c : IsOf answer created =
      or_else-IsOf answer (or_else d p.last_answer) n.created_answer
        (or_else-IsOf answer d p.last_answer k o) l.creates_answers in
    let q : Peer = native_if_none (or_else d p.last_answer) p in
    if-holds Q (no_media d)
      (apply_or_fail-EndsAt stable apply_no_media answer d p k (λ x e. no_media-answer x p e))
      (if-holds Q (not (is_some d) && no_media (visible p.signaling.remote_side))
        (apply_or_fail-EndsAt stable apply_no_media answer (no_media_answer p) p
          (no_media_answer-IsOf p o) (λ x e. no_media-answer x p e))
        (if-holds Q p.js_only_remote_offer
          (apply_or_fail-EndsAt stable apply_js_only_answer answer created q c
            (λ x e. js_only-answer x q))
          (if-split Q (is_data_only_answer d p)
            (λ e.
              apply_or_fail-EndsAt stable apply_data_only_answer answer
                (or_else d (or_else p.signaling.local_side.current p.last_answer)) p
                (or_else-IsOf answer d (or_else p.signaling.local_side.current p.last_answer) k (
                  or_else-IsOf answer p.signaling.local_side.current p.last_answer
                    (has_type-IsOf answer p.signaling.local_side.current
                      (is_data_only-answer d p e))
                    o))
                (λ x f. data_only-answer x p h))
            (λ _. by_native-answer marked n d p h))))
