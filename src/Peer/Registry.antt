-- ===== src/Peer/Registry.antt =====
-- The identifiers of data channels in RTCPeerConnection: their registration, the search for a free
-- one, and the assignment by the DTLS role.
pub mod Uniqueness
pub mod Search
pub mod Sync
pub mod Moving
pub mod Assignment
use webrtc_node.Base.{
  ℕ, zero, suc, ◌+◌, List, [], ◌∷◌, ◌++◌, Option, none, some, Bool, true, false, not, ◌&&◌, ◌||◌,
  ltb, ◌==◌, if◌then◌else◌, keep, or_else, is_some, Str, str_eq, codes,
}

-- What the registry knows of a data channel: the native identifier, `_assignedId`,
-- `_registeredDataChannelId`, and whether `readyState` is "closed". `peer_lacks_id` says that its
-- paired channel is synthetic and without an identifier.
pub record Chan : Type 0 where
  pub native_id : Option ℕ
  pub assigned_id : Option ℕ
  pub registered : Option ℕ
  pub is_shut : Bool
  pub negotiated : Bool
  pub peer_lacks_id : Bool

-- Calls that lead to other objects: `_pairDataChannelById`, `_assignId` of a paired channel,
-- `_scheduleDataChannelAnnouncementRepair` of the paired peer, and `_handlePeerConnectionFailure`.
pub data Call : Type 0 where
  pairs gives_id : ℕ → ℕ → Call
  repairs : Call
  fails : ℕ → Call

-- `order` are the channels of `_channels`, and `used` is `_usedDataChannelIds`.
pub record Registry : Type 0 where
  pub channel : ℕ → Chan
  pub order : List ℕ
  pub used : ℕ → Option ℕ
  pub refresh_needed : Bool
  pub has_paired_peer : Bool
  pub calls : List Call

abbrev pub update {ℓ} : {A : Type ℓ} → ℕ → A → (ℕ → A) → ℕ → A
update k a f j = if j == k then a else f j

-- `_effectiveId`.
abbrev pub effective_id : Chan → Option ℕ
effective_id c = or_else c.native_id c.assigned_id

abbrev pub holds : ℕ → Option ℕ → Bool
holds k none = false
holds k (some j) = j == k

-- `_unregisterDataChannelId`.
unfoldable pub unregister : ℕ → Registry → Registry
unregister c s = elim (s.channel c).registered [
  | none ↦ s
  | some id ↦ record s {
    used = if holds c (s.used id) then update id none s.used else s.used;
    channel = update c (record (s.channel c) { registered = none }) s.channel;
  }
]

-- Whether another channel, that is not closed, has the identifier.
abbrev pub is_taken : ℕ → ℕ → Registry → Bool
is_taken c id s = elim (s.used id) [
  | none ↦ false
  | some e ↦ not (e == c) && not (s.channel e).is_shut
]

abbrev pub take_id : ℕ → ℕ → Registry → Registry
take_id c id s = record s {
  channel = update c (record (s.channel c) { registered = some id }) s.channel;
  used = update id (some c) s.used;
  calls = s.calls ++ pairs c id ∷ [];
}

-- `_registerDataChannelId`.
unfoldable pub register : ℕ → Option ℕ → Registry → Registry
unfolding unregister
register c none s = s
register c (some id) s =
    if holds id (s.channel c).registered
    then s
    else let t = unregister c s in if is_taken c id t then t else take_id c id t

-- `channel && channel.readyState !== "closed"` for the channel that has the identifier.
unfoldable pub is_held : ℕ → Registry → Bool
is_held id s = elim (s.used id) [ none ↦ false | some c ↦ not (s.channel c).is_shut ]

-- The loop of `_isDataChannelIdInUse`; the Boolean is `refreshStillNeeded`.
unfoldable pub refresh_ids : List ℕ → Bool → Registry → Bool × Registry
unfolding register
refresh_ids [] still s = (still, s)
refresh_ids (c ∷ cs) still s =
    if (s.channel c).is_shut then refresh_ids cs still s else elim (effective_id (s.channel c)) [
      | none ↦ refresh_ids cs true s
      | some id ↦ refresh_ids cs still (register c (some id) s)
    ]

-- What it leads to where a refresh is needed.
abbrev pub after_refresh : ℕ → Registry → Bool × Registry
after_refresh id s =
    let (still, t) = refresh_ids s.order false s in
    (is_held id t, record t { refresh_needed = still })

-- `_isDataChannelIdInUse`.
unfoldable pub is_id_in_use : ℕ → Registry → Bool × Registry
unfolding is_held refresh_ids
is_id_in_use id s =
    if is_held id s
    then (true, s)
    else if not s.refresh_needed
    then (false, s)
    else after_refresh id s

-- `_nextAvailableDataChannelId` from `id` on; 32768 rounds reach the last identifier.
unfoldable pub next_available_id : ℕ → ℕ → Registry → Option ℕ × Registry
unfolding is_id_in_use
next_available_id zero id s = (none, s)
next_available_id (suc fuel) id s =
    if ltb 65534 id
    then (none, s)
    else let (used, t) = is_id_in_use id s in
      let rest = next_available_id fuel (id + 2) t in if used then rest else (some id, t)

abbrev pub log_call : Call → Registry → Registry
log_call c s = record s { calls = s.calls ++ c ∷ [] }

-- `_assignId` of a channel.
unfoldable pub assign_id : ℕ → ℕ → Registry → Registry
unfolding register
assign_id c id s =
    if is_some (effective_id (s.channel c))
    then s
    else let t = register c (some id) (record s {
      channel = update c (record (s.channel c) { assigned_id = some id }) s.channel;
    }) in
      let u = if (t.channel c).peer_lacks_id then log_call (gives_id c id) t else t in
      if u.has_paired_peer then log_call repairs u else u

-- `_dataChannelIdParityFromDtlsRole`: whether the remote description is an answer and the local one
-- an offer, and the setup of the remote one.
unfoldable pub id_parity : Bool → Bool → Option Str → Option ℕ
id_parity is_answer is_offer none = none
id_parity is_answer is_offer (some setup) =
    if not is_answer || not is_offer
    then none
    else if str_eq setup (codes "passive")
    then some 0
    else if str_eq setup (codes "active")
    then some 1
    else none

-- `_handlePeerConnectionFailure` closes the channel, which leaves `_channels` and the registry.
unfoldable pub fail_channel : ℕ → Registry → Registry
unfolding unregister
fail_channel c s = unregister c (record s {
  channel = update c (record (s.channel c) { is_shut = true }) s.channel;
  order = keep (λ j. not (j == c)) s.order;
  calls = s.calls ++ fails c ∷ [];
})

-- A round of the loop of `_assignDataChannelIdsFromDtlsRole`.
unfoldable pub assign_round : ℕ → ℕ → Registry → Registry
unfolding next_available_id assign_id fail_channel
assign_round parity c s =
    let d = s.channel c in
    if d.negotiated || is_some (effective_id d) || d.is_shut
    then s
    else let (found, t) = next_available_id 32768 parity s in
      elim found [ none ↦ fail_channel c t | some id ↦ assign_id c id t ]

unfoldable pub assign_ids : ℕ → List ℕ → Registry → Registry
unfolding assign_round
assign_ids parity [] s = s
assign_ids parity (c ∷ cs) s = assign_ids parity cs (assign_round parity c s)

-- `_assignDataChannelIdsFromDtlsRole`.
unfoldable pub assign_data_channel_ids : Option ℕ → Registry → Registry
unfolding assign_ids
assign_data_channel_ids none s = s
assign_data_channel_ids (some parity) s = assign_ids parity s.order s
