-- ===== src/Peer/Negotiation.antt =====
-- The negotiation of RTCPeerConnection in lib/index.js: the state that createOffer, createAnswer,
-- setLocalDescription and setRemoteDescription share, and the steps that they have in common.
pub mod Create
pub mod Special
pub mod General
pub mod Local
pub mod Taking
pub mod Remote
pub mod Jsep
use webrtc_node.Base.{
  ℕ, ◌+◌, ◌-◌, List, [], ◌∷◌, ◌++◌, Option, none, some, Bool, true, false, not, ◌&&◌, ◌||◌, ◌==◌,
  if◌then◌else◌, or_else, is_some, Fault, Str,
}
use webrtc_node.Sdp.Description.{
  SdpType, offer, answer, pranswer, rollback, Description, has_data_media_section, is_no_media_sdp,
}
use webrtc_node.Sdp.Lines.{is_empty}
use webrtc_node.Sdp.Candidates.{Candidate}
use webrtc_node.Peer.Descriptions.{
  Side, Signaling, SignalingState, stable, have_local_offer, have_remote_offer, have_local_pranswer,
  have_remote_pranswer, signaling_closed, sync_signaling_state, has_type,
}

pub data Gathering : Type 0 where
  gathering_new gathering_now gathering_complete : Gathering

pub data IceRole : Type 0 where
  unknown controlling controlled : IceRole

-- Calls that lead to other parts: the registry of descriptions for pairing, the pairing of peers, the
-- SCTP transport, the identifiers of channels, the native gathering, the candidates.
pub data Call : Type 0 where
  registers_description unregisters_descriptions pairs_with_remote drops_pairing : Call
  updates_sctp assigns_ids arms_suppression schedules_gathering reads_native_states : Call
  gathering_events flushes_candidates queues_restart_gathering refreshes_from_native : Call
  adds_candidates queues_candidates : List Candidate → Call

-- `last_offer` and `last_answer` are `_lastCreatedOffer` and `_lastCreatedAnswer`, `prepared` is
-- `_preparedLocalDescription`, `suppressed` is `_suppressNextNativeSignalingState`. `state_events` logs
-- the dispatched signalingstatechange events, the newest last, and `needed_events` counts the
-- negotiationneeded events.
pub record Peer : Type 0 where
  pub signaling : Signaling
  pub js_only_remote_offer : Bool
  pub has_native : Bool
  pub set_by_api : Bool
  pub ice_restart_pending : Bool
  pub negotiation_needed : Bool
  pub needed_scheduled : Bool
  pub needed_events : ℕ
  pub can_trickle : Option Bool
  pub gathering : Gathering
  pub role : IceRole
  pub last_offer : Option Description
  pub last_answer : Option Description
  pub prepared : Option Description
  pub prepared_type : Option SdpType
  pub has_credentials : Bool
  pub suppressed : Option SignalingState
  pub operations : ℕ
  pub pending_ice : List Candidate
  pub local_candidates : List Candidate
  pub remote_candidates : List Candidate
  pub last_dispatched : SignalingState
  pub state_events : List SignalingState
  pub calls : List Call

-- What the native peer answers during an operation: the descriptions that it creates, none where it
-- throws; the local description that it has once it was told to set one of a type; whether it takes
-- what it is told to set; and a local description that it has prepared with given credentials.
pub record Native : Type 0 where
  pub created_offer : Option Description
  pub created_answer : Option Description
  pub described : SdpType → Option Description
  pub takes_local : SdpType → Bool
  pub takes_remote : Description → Bool

-- How an operation ends: it returns, throws, or is never settled; the state is kept in each case.
pub data Ran : Type 0 where
  returned never : Peer → Ran
  thrown : Fault → Peer → Ran

abbrev pub no_media : Option Description → Bool
no_media none = false
no_media (some d) = is_no_media_sdp d.sdp

abbrev pub has_data : Option Description → Bool
has_data none = false
has_data (some d) = has_data_media_section d.sdp

abbrev pub log : Call → Peer → Peer
log c p = record p { calls = p.calls ++ c ∷ [] }

abbrev pub state_of : Peer → SignalingState
state_of p = p.signaling.signaling_state

abbrev pub local_of : Peer → Side
local_of p = p.signaling.local_side

abbrev pub remote_of : Peer → Side
remote_of p = p.signaling.remote_side

abbrev pub set_state : SignalingState → Peer → Peer
set_state s p = record p { signaling = record p.signaling { signaling_state = s } }

abbrev pub on_local : (Side → Side) → Peer → Peer
on_local f p = record p { signaling = record p.signaling { local_side = f p.signaling.local_side } }

abbrev pub on_remote : (Side → Side) → Peer → Peer
on_remote f p = record p {
  signaling = record p.signaling { remote_side = f p.signaling.remote_side };
}

abbrev pub state_number : SignalingState → ℕ
state_number stable = 0
state_number have_local_offer = 1
state_number have_remote_offer = 2
state_number have_local_pranswer = 3
state_number have_remote_pranswer = 4
state_number signaling_closed = 5

abbrev pub same_state : SignalingState → SignalingState → Bool
same_state a b = state_number a == state_number b

-- `_dispatchSignalingStateChange`.
unfoldable pub dispatch_state : Peer → Peer
dispatch_state p = record p {
  last_dispatched = p.signaling.signaling_state;
  state_events = p.state_events ++ p.signaling.signaling_state ∷ [];
}

-- `if (previousState !== this._signalingState) this._dispatchSignalingStateChange()`.
unfoldable pub announce_state : SignalingState → Peer → Peer
unfolding dispatch_state
announce_state previous p =
    if same_state previous p.signaling.signaling_state then p else dispatch_state p

-- `_syncSignalingStateFromDescriptions`.
unfoldable pub sync_state : Peer → Peer
unfolding sync_signaling_state
sync_state p = record p { signaling = sync_signaling_state p.signaling }

-- `_refreshIceRole`.
unfoldable pub refresh_role : Peer → Peer
refresh_role p = record p {
  role =
      if has_type offer p.signaling.local_side.shown
        && has_type answer p.signaling.remote_side.shown
      then controlling
      else if has_type offer p.signaling.remote_side.shown
          && has_type answer p.signaling.local_side.shown
      then controlled
      else unknown;
}

-- `_refreshIceRole` and `_updateSctpTransport`, which mostly come together.
unfoldable pub refresh_transports : Peer → Peer
unfolding refresh_role
refresh_transports p = log updates_sctp (refresh_role p)

-- `_syncStatesFromNative`; the states of the connection are left to the transports.
unfoldable pub sync_states : Peer → Peer
unfolding sync_state refresh_transports
sync_states p =
    if p.signaling.peer_closed || not p.has_native
    then p
    else refresh_transports (sync_state (log reads_native_states p))

-- A description whose text is not empty.
abbrev pub with_text : Option Description → Option Description
with_text none = none
with_text (some d) = if is_empty d.sdp then none else some d

-- `_clearNegotiationNeededIfDataMLineIsPresent`.
unfoldable pub clear_negotiation_needed : Peer → Peer
clear_negotiation_needed p =
    if has_data (or_else (with_text p.signaling.local_side.shown) p.signaling.remote_side.shown)
    then record p { negotiation_needed = false }
    else p

-- `this._localDescriptionSetByApi = hasDataMediaSection(this._localDescription)`.
unfoldable pub mark_set_by_api : Peer → Peer
mark_set_by_api p = record p { set_by_api = has_data p.signaling.local_side.shown }

-- `_canApplyNativeIceCredentials`.
abbrev pub is_gathering_new : Gathering → Bool
is_gathering_new gathering_new = true
is_gathering_new _ = false

unfoldable pub can_apply_credentials : Peer → Bool
can_apply_credentials p =
    is_gathering_new p.gathering
    && not (is_some p.signaling.local_side.shown)
    && not (is_some p.signaling.local_side.current)
    && not (is_some p.signaling.local_side.pending)

-- `_ensureNativePeerConnection`.
abbrev pub ensure_native : Peer → Peer
ensure_native p = record p { has_native = true }

-- The pending candidates are added, and those that wait for the native peer are flushed.
unfoldable pub add_pending_ice : Peer → Peer
add_pending_ice p =
    log flushes_candidates (log (adds_candidates p.pending_ice) (record p { pending_ice = [] }))

-- `this._suppressNextNativeSignalingState = null`, where it is still the given state.
unfoldable pub end_suppression : SignalingState → Peer → Peer
end_suppression s p = elim p.suppressed [
  | none ↦ p
  | some q ↦ if same_state q s then record p { suppressed = none } else p
]

-- `remoteDescription` and `localDescription`, the getters.
abbrev pub visible : Side → Option Description
visible s = or_else s.pending s.current
