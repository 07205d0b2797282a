-- ===== src/Tests/Peers.antt =====
-- Tests and instances for the descriptions of a peer and the identifiers of its channels.
use webrtc_node.Base.{
  ℕ, ◌+◌, ◌*◌, ◌≤◌, ◌<◌, List, [], ◌∷◌, ◌++◌, none, some, true, false, ◌≡◌, refl, codes, Str, arith,
  inr, ◌==◌, if◌then◌else◌, All,
}
use webrtc_node.Sdp.Lines.{crlf}
use webrtc_node.Sdp.Description.{
  Description, offer, answer, has_data_media_section, max_message_size_from_sdp,
}
use webrtc_node.Peer.Descriptions.{
  Side, Signaling, stable, bytes_at_most, current_sctp_max_message_size, local_limit, set_pending,
  commit, roll_back,
}
use webrtc_node.Peer.Descriptions.Coherence.{
  IsCoherent, Change, sets_pending, commits, refreshes, rolls_back, apply_all, AllFit,
  apply_all-IsCoherent, set_pending-undo,
}
use webrtc_node.Peer.Descriptions.Limits.{Admits, current_sctp_max_message_size-bounds}
use webrtc_node.Peer.Registry.{Chan, Registry, next_available_id, assign_data_channel_ids, is_held}
use webrtc_node.Peer.Registry.Uniqueness.{IsSound}
use webrtc_node.Peer.Registry.Sync.{IsSynced}
use webrtc_node.Peer.Registry.Moving.{IsMoved, IsServed}
use webrtc_node.Peer.Registry.Assignment.{AreUnique, assign_data_channel_ids_unique}
use webrtc_node.Peer.Registry.Search.{next_available_id-free, next_available_id-none}

abbrev data_text : Str
data_text =
    codes "v=0"
    ++ (crlf
        ++ (codes "m=application 9 UDP/DTLS/SCTP x" ++ (crlf ++ codes "a=max-message-size:1000")))

abbrev an_offer : Description
an_offer = record { type = offer; sdp = data_text; js_only_ice_restart = false }

abbrev an_answer : Description
an_answer = record { type = answer; sdp = data_text; js_only_ice_restart = false }

abbrev blank : Side
blank = record { current = none; pending = none; shown = none }

abbrev changes : List Change
changes = sets_pending (some an_offer) ∷ refreshes (some an_offer) ∷ commits none ∷ rolls_back ∷ []

changes_fit : AllFit changes blank
unfolding AllFit set_pending
changes_fit = (tt, (inr refl, (tt, (tt, tt))))

apply_all-IsCoherent_example : IsCoherent (apply_all changes blank)
apply_all-IsCoherent_example = apply_all-IsCoherent changes blank changes_fit refl

set_pending-undo_example :
    (roll_back (set_pending (some an_offer) blank) ≡ blank)
    × (commit none (set_pending (some an_offer) blank)
        ≡ record { current = some an_offer; pending = none; shown = some an_offer })
set_pending-undo_example = set_pending-undo an_offer blank refl refl

abbrev idle_peer : Signaling
idle_peer = record {
  peer_closed = false;
  local_side = record blank { pending = some an_offer };
  remote_side = blank;
  js_only_offer_pending = false;
  signaling_state = stable;
}

data_text_has_data : has_data_media_section data_text ≡ true
unfolding has_data_media_section
data_text_has_data = refl

current_sctp_max_message_size-bounds_example :
    (n : ℕ) × (current_sctp_max_message_size false (some an_offer) (some an_answer)
      ≡ bytes_at_most n)
    × (0 < n)
    × (n ≤ local_limit (max_message_size_from_sdp an_offer.sdp))
    × Admits (max_message_size_from_sdp an_answer.sdp) n
current_sctp_max_message_size-bounds_example =
    current_sctp_max_message_size-bounds an_offer an_answer data_text_has_data data_text_has_data

abbrev plain_chan : Chan
plain_chan = record {
  native_id = none;
  assigned_id = none;
  registered = none;
  is_shut = false;
  negotiated = false;
  peer_lacks_id = false;
}

abbrev empty_registry : Registry
empty_registry = record {
  channel = λ c. plain_chan;
  order = 0 ∷ 1 ∷ [];
  used = λ id. none;
  refresh_needed = false;
  has_paired_peer = false;
  calls = [];
}

-- The last even identifier belongs to the channel 0.
abbrev full_registry : Registry
full_registry = record empty_registry {
  channel = λ c. if c == 0 then record plain_chan { registered = some 65534 } else plain_chan;
  used = λ id. if id == 65534 then some 0 else none;
}

assign_tests :
    ((assign_data_channel_ids (some 1) empty_registry).used 1 ≡ some 0)
    × ((assign_data_channel_ids (some 1) empty_registry).used 3 ≡ some 1)
    × ((next_available_id 1 65534 full_registry).0 ≡ none)
unfolding assign_data_channel_ids next_available_id
assign_tests = (refl, refl, refl)

-- The channel 0 has the identifier 1.
abbrev held_registry : Registry
held_registry = record empty_registry {
  channel = λ c.
      if c == 0
      then record plain_chan { assigned_id = some 1; registered = some 1 }
      else plain_chan;
  used = λ id. if id == 1 then some 0 else none;
}

held_tests :
    ((assign_data_channel_ids (some 1) held_registry).used 1 ≡ some 0)
    × ((assign_data_channel_ids (some 1) held_registry).used 3 ≡ some 1)
unfolding assign_data_channel_ids next_available_id
held_tests = (refl, refl)

held_registry-IsSound : IsSound held_registry
held_registry-IsSound = record {
  confirmed = λ id c e. ground arith;
  found = λ id c e f. ground arith;
}

held_registry-IsSynced : IsSynced held_registry
held_registry-IsSynced c id o e = ground arith

assign_data_channel_ids_unique_example :
    IsSound (assign_data_channel_ids (some 1) held_registry)
    × IsSynced (assign_data_channel_ids (some 1) held_registry)
    × AreUnique (assign_data_channel_ids (some 1) held_registry)
    × IsMoved 1 held_registry (assign_data_channel_ids (some 1) held_registry)
    × All
        (λ c. IsServed ((assign_data_channel_ids (some 1) held_registry).channel c))
        held_registry.order
assign_data_channel_ids_unique_example =
    assign_data_channel_ids_unique 1 held_registry held_registry-IsSound held_registry-IsSynced

found_one : (next_available_id 3 1 empty_registry).0 ≡ some 1
unfolding next_available_id
found_one = refl

next_available_id-free_example :
    ((n : ℕ) × (1 ≡ 1 + 2 * n))
    × (1 ≤ 65534)
    × (is_held 1 (next_available_id 3 1 empty_registry).1 ≡ false)
next_available_id-free_example = next_available_id-free 3 1 1 empty_registry found_one

found_none : (next_available_id 1 65534 full_registry).0 ≡ none
unfolding next_available_id
found_none = refl

next_available_id-none_example : is_held (65534 + 2 * 0) full_registry ≡ true
next_available_id-none_example =
    next_available_id-none 1 65534 0 full_registry refl (omega arith) found_none (omega arith)
