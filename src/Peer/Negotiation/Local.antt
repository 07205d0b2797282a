-- ===== src/Peer/Negotiation/Local.antt =====
-- setLocalDescription.
use webrtc_node.Base.{
  ◌+◌, [], Option, none, some, Bool, true, false, not, ◌&&◌, ◌||◌, ◌==◌, if◌then◌else◌, or_else,
  is_some, str_eq, invalid_state, invalid_modification,
}
use webrtc_node.Sdp.Lines.{is_empty}
use webrtc_node.Sdp.Description.{SdpType, offer, answer, pranswer, rollback, Description}
use webrtc_node.Peer.Descriptions.{
  SignalingState, stable, have_local_offer, have_remote_offer, have_local_pranswer, same_type,
  has_type, set_pending, roll_back,
}
use webrtc_node.Peer.Negotiation.{
  Peer, Native, Ran, returned, never, thrown, log, state_of, set_state, on_local, visible, no_media,
  ensure_native, end_suppression, announce_state, sync_states, refresh_role, refresh_transports,
  mark_set_by_api, add_pending_ice, gathering_new, is_gathering_new, registers_description,
  unregisters_descriptions, gathering_events,
}
use webrtc_node.Peer.Negotiation.Special.{
  apply_no_media, apply_js_only_answer, apply_data_only_offer, apply_data_only_answer,
  is_data_only_offer, is_data_only_answer,
}
use webrtc_node.Peer.Negotiation.General.{native_if_none, apply_by_native}

-- What setLocalDescription is given: a description, and whether this peer created it as an answer.
pub record LocalInput : Type 0 where
  pub description : Description
  pub own_answer : Bool

-- `_rollbackLocalDescription` with what goes with it, once the native peer has agreed; `mark` is the
-- step that only an explicit rollback makes.
unfoldable pub rolled_back_local : (Peer → Peer) → Peer → Peer
unfolding roll_back sync_states refresh_transports announce_state end_suppression
rolled_back_local mark p =
    let initial = not (is_some p.signaling.local_side.current) in
    let q = record (mark (on_local roll_back p)) { local_candidates = [] } in
    let s = set_state stable (sync_states (log unregisters_descriptions q)) in
    let t = refresh_transports (if initial then record s { gathering = gathering_new } else s) in
    let u = if initial && not (is_gathering_new p.gathering) then log gathering_events t else t in
    end_suppression stable (announce_state (state_of p) u)

-- The rollback of the local description; where it has media, the native peer is told first.
unfoldable pub roll_back_local : (Peer → Peer) → Native → Peer → Ran
unfolding rolled_back_local
roll_back_local mark n p =
    if is_some p.signaling.local_side.shown && not (no_media p.signaling.local_side.shown)
    then if n.takes_local rollback
      then returned (rolled_back_local mark (record (ensure_native p) { suppressed = some stable }))
      else thrown invalid_state (record (ensure_native p) { suppressed = none })
    else returned (rolled_back_local mark p)

-- An operation that has returned, with `_localDescriptionSetByApi` set.
abbrev pub returned_by_api : Peer → Ran
returned_by_api p = returned (mark_set_by_api p)

-- The answer that is applied without media: the last one, or the remote text.
abbrev pub no_media_answer : Peer → Option Description
no_media_answer p = or_else p.last_answer (elim (visible p.signaling.remote_side) [
  | none ↦ none
  | some d ↦ some (record { type = answer; sdp = d.sdp; js_only_ice_restart = false })
])

abbrev pub apply_or_fail : (Description → Peer → Peer) → Option Description → Peer → Ran
apply_or_fail apply none p = thrown invalid_state (ensure_native p)
apply_or_fail apply (some d) p = returned_by_api (apply d p)

-- Offers behind their first checks; `d` is none where the type is implicit.
unfoldable pub apply_offer : Bool → Native → Option Description → Peer → Ran
unfolding apply_by_native apply_no_media apply_data_only_offer is_data_only_offer mark_set_by_api
apply_offer marked n d p =
    let implied = or_else p.last_offer n.created_offer in
    let q = native_if_none (or_else d p.last_offer) p in
    if no_media d
    then apply_or_fail apply_no_media d p
    else if not (is_some d) && not (is_some implied)
    then thrown invalid_state q
    else if not (is_some d) && no_media implied
    then apply_or_fail apply_no_media implied q
    else if is_data_only_offer d q
    then apply_or_fail apply_data_only_offer
        (or_else d (or_else p.signaling.local_side.current p.last_offer)) q
    else apply_by_native marked n offer d q

-- Answers behind their first checks.
unfoldable pub apply_answer : Bool → Native → Option Description → Peer → Ran
unfolding apply_by_native apply_no_media apply_data_only_answer apply_js_only_answer
    is_data_only_answer mark_set_by_api
apply_answer marked n d p =
    if no_media d
    then apply_or_fail apply_no_media d p
    else if not (is_some d) && no_media (visible p.signaling.remote_side)
    then apply_or_fail apply_no_media (no_media_answer p) p
    else if p.js_only_remote_offer
    then apply_or_fail apply_js_only_answer (or_else (or_else d p.last_answer) n.created_answer)
        (native_if_none (or_else d p.last_answer) p)
    else if is_data_only_answer d p
    then apply_or_fail apply_data_only_answer
        (or_else d (or_else p.signaling.local_side.current p.last_answer)) p
    else apply_by_native marked n answer d p

-- `normalized.sdp === ""` stands for the last created description.
abbrev pub or_last : Option Description → Description → Description
or_last none d = d
or_last (some l) d = if is_empty d.sdp then l else d

abbrev pub is_last : Option Description → Description → Bool
is_last none d = false
is_last (some l) d = str_eq d.sdp l.sdp

abbrev pub takes_local_offer : SignalingState → Bool
takes_local_offer stable = true
takes_local_offer have_local_offer = true
takes_local_offer _ = false

abbrev pub takes_local_answer : SignalingState → Bool
takes_local_answer have_remote_offer = true
takes_local_answer have_local_pranswer = true
takes_local_answer _ = false

-- An explicit offer.
unfoldable pub set_local_offer : Native → Description → Peer → Ran
unfolding apply_offer
set_local_offer n d p =
    if not (takes_local_offer p.signaling.signaling_state)
    then thrown invalid_state p
    else if not (is_last p.last_offer (or_last p.last_offer d))
    then thrown invalid_modification p
    else apply_offer d.js_only_ice_restart n (some (or_last p.last_offer d)) p

-- A provisional answer.
unfoldable pub set_local_pranswer : Description → Peer → Ran
unfolding set_pending mark_set_by_api announce_state refresh_transports
set_local_pranswer d p =
    if not (takes_local_answer p.signaling.signaling_state)
    then thrown invalid_state p
    else let q = log registers_description (mark_set_by_api (on_local (set_pending (some d)) p)) in
      returned (announce_state (state_of p) (refresh_transports (set_state have_local_pranswer q)))

-- `alreadyAppliedAnswer`: the shown description is an answer, with the same text or one that this peer
-- created.
abbrev pub shown_text_is : Option Description → Description → Bool
shown_text_is none d = false
shown_text_is (some l) d = str_eq l.sdp d.sdp

abbrev pub is_applied : Bool → Description → Peer → Bool
is_applied own d p =
    has_type answer p.signaling.local_side.shown
    && (shown_text_is p.signaling.local_side.shown d || own)

-- An explicit answer.
unfoldable pub set_local_answer : Native → Bool → Description → Peer → Ran
unfolding apply_answer mark_set_by_api sync_states refresh_role add_pending_ice
set_local_answer n own given p =
    let d = or_last p.last_answer given in
    if not (is_applied own d p) && not (takes_local_answer p.signaling.signaling_state)
    then thrown invalid_state p
    else if not (is_last p.last_answer d)
    then thrown invalid_modification p
    else if is_applied own d p
    then returned (add_pending_ice (refresh_role (sync_states (mark_set_by_api p))))
    else apply_answer given.js_only_ice_restart n (some d) p

abbrev pub is_have_local_offer : SignalingState → Bool
is_have_local_offer have_local_offer = true
is_have_local_offer _ = false

-- A rollback.
unfoldable pub set_local_rollback : Native → Peer → Ran
unfolding roll_back_local mark_set_by_api
set_local_rollback n p =
    if not (is_have_local_offer p.signaling.signaling_state)
    then thrown invalid_state p
    else roll_back_local mark_set_by_api n p

-- The part of setLocalDescription behind its first wait; `type` is the type that was implied before it,
-- for a call without a description. A later wait in it ends nothing, and is not a step of its own.
unfoldable pub run_set_local : Native → SdpType → Option LocalInput → Peer → Ran
unfolding set_local_offer set_local_answer set_local_pranswer set_local_rollback apply_offer
    apply_answer
run_set_local n type i p = if p.signaling.peer_closed then never p else elim i [
  | none ↦ if same_type type answer then apply_answer false n none p else apply_offer false n none p
  | some given ↦ elim given.description.type [
    | offer ↦ set_local_offer n given.description p
    | answer ↦ set_local_answer n given.own_answer given.description p
    | pranswer ↦ set_local_pranswer given.description p
    | rollback ↦ set_local_rollback n p
  ]
]

abbrev is_rollback : Option LocalInput → Bool
is_rollback none = false
is_rollback (some i) = same_type i.description.type rollback

-- setLocalDescription up to its first wait; none where it throws.
unfoldable pub begin_set_local : Option LocalInput → Peer → Option Peer
begin_set_local i p =
    if p.signaling.peer_closed
    then none
    else if is_rollback i
        && (not (is_have_local_offer p.signaling.signaling_state) && p.operations == 0)
    then none
    else some (record p { operations = p.operations + 1 })
