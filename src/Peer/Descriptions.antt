-- ===== src/Peer/Descriptions.antt =====
-- The session descriptions of RTCPeerConnection, the signaling state that they give, and the limits of
-- the SCTP transport.
pub mod Coherence
pub mod Limits
use webrtc_node.Base.{
  ℕ, ◌+◌, List, [], ◌∷◌, Option, none, some, Bool, true, false, not, ◌&&◌, ◌||◌, ltb, leb, ◌==◌,
  min, if◌then◌else◌, or_else, is_some, Num, integer, fraction, pos, negsuc, nan, infinite,
}
use webrtc_node.Sdp.Description.{
  SdpType, offer, answer, pranswer, rollback, Description, has_data_media_section,
  max_message_size_from_sdp,
}

-- The descriptions of one side: `_currentLocalDescription`, `_pendingLocalDescription` and
-- `_localDescription`, or those of the remote side, whose methods are the same.
pub record Side : Type 0 where
  pub current : Option Description
  pub pending : Option Description
  pub shown : Option Description

-- `_setPendingLocalDescription` and `_setPendingRemoteDescription`.
unfoldable pub set_pending : Option Description → Side → Side
set_pending d s = record s { pending = d; shown = or_else d s.current }

-- `_commitLocalDescription` and `_commitRemoteDescription`; `none` is the missing argument, for which
-- the pending or the shown description stands.
unfoldable pub commit : Option Description → Side → Side
commit d s =
    let current = or_else (or_else d (or_else s.pending s.shown)) s.current in
    record { current = current; pending = none; shown = current }

-- `_rollbackLocalDescription` and `_rollbackRemoteDescription`.
unfoldable pub roll_back : Side → Side
roll_back s = record s { pending = none; shown = s.current }

abbrev pub same_type : SdpType → SdpType → Bool
same_type offer offer = true
same_type answer answer = true
same_type pranswer pranswer = true
same_type rollback rollback = true
same_type _ _ = false

abbrev pub has_type : SdpType → Option Description → Bool
has_type t none = false
has_type t (some d) = same_type d.type t

-- `_refreshCurrentOrPendingLocalDescription` and its remote twin.
unfoldable pub refresh : Option Description → Side → Side
refresh none s = s
refresh (some d) s =
    if has_type d.type s.pending
    then record s { pending = some d; shown = some d }
    else record s { current = some d; shown = some d }

pub data SignalingState : Type 0 where
  stable have_local_offer have_remote_offer : SignalingState
  have_local_pranswer have_remote_pranswer signaling_closed : SignalingState

-- `_closed`, the two sides, `_jsOnlyIceRestartOfferPending` and `_signalingState`.
pub record Signaling : Type 0 where
  pub peer_closed : Bool
  pub local_side : Side
  pub remote_side : Side
  pub js_only_offer_pending : Bool
  pub signaling_state : SignalingState

-- `_descriptionSignalingState`.
unfoldable pub description_signaling_state : Signaling → SignalingState
description_signaling_state s =
    if s.peer_closed
    then signaling_closed
    else if has_type offer s.local_side.pending
    then have_local_offer
    else if has_type offer s.remote_side.pending
    then have_remote_offer
    else if has_type pranswer s.local_side.pending
    then have_local_pranswer
    else if has_type pranswer s.remote_side.pending
    then have_remote_pranswer
    else stable

-- `_syncSignalingStateFromDescriptions`.
unfoldable pub sync_signaling_state : Signaling → Signaling
unfolding description_signaling_state
sync_signaling_state s =
    if s.js_only_offer_pending
    then record s { signaling_state = have_local_offer }
    else record s { signaling_state = description_signaling_state s }

-- `_implicitLocalDescriptionType`.
unfoldable pub implicit_local_description_type : Signaling → SdpType
implicit_local_description_type s = elim s.signaling_state [
  | have_remote_offer ↦ answer
  | _ ↦ offer
]

-- What `maxMessageSize` can be: null, a number of bytes, or Infinity.
pub data Limit : Type 0 where
  not_set unlimited : Limit
  bytes_at_most : ℕ → Limit

abbrev pub default_sctp_max_message_size : ℕ
default_sctp_max_message_size = 262144

-- `maxMessageSizeFromSdp(...) || DEFAULT`, where zero counts as missing.
abbrev pub local_limit : Option ℕ → ℕ
local_limit none = default_sctp_max_message_size
local_limit (some n) = if n == 0 then default_sctp_max_message_size else n

abbrev pub meet_limits : ℕ → Option ℕ → Limit
meet_limits own none = bytes_at_most (min 65536 own)
meet_limits own (some remote) =
    if remote == 0
    then if own == 0 then unlimited else bytes_at_most own
    else if own == 0
    then bytes_at_most remote
    else bytes_at_most (min remote own)

-- `_currentSctpMaxMessageSize`; `looped` says that the remote description is the peer's own and no
-- candidates were exchanged explicitly.
unfoldable pub current_sctp_max_message_size :
    Bool → Option Description → Option Description → Limit
current_sctp_max_message_size looped none remote = not_set
current_sctp_max_message_size looped (some l) none = not_set
current_sctp_max_message_size looped (some l) (some r) =
    if not (has_data_media_section l.sdp) || not (has_data_media_section r.sdp)
    then not_set
    else if looped
    then not_set
    else meet_limits (local_limit (max_message_size_from_sdp l.sdp))
        (max_message_size_from_sdp r.sdp)

-- `_currentSctpMaxChannels`; the last argument is the native `maxDataChannelId` as a number, `none`
-- without a native peer. A fraction, which no native peer gives, counts as a missing number.
unfoldable pub current_sctp_max_channels : Bool → Bool → Option Num → Option ℕ
current_sctp_max_channels connected self_remote none = none
current_sctp_max_channels connected self_remote (some n) =
    if not connected || self_remote
    then none
    else elim n [ integer (pos k) ↦ some (k + 1) | _ ↦ some 1024 ]

-- `_commitLocalDescription` and `_commitRemoteDescription` with an argument that may be null.
unfoldable pub commit_given : Option Description → Side → Side
commit_given d s =
    let current = or_else d s.current in
    record { current = current; pending = none; shown = current }
