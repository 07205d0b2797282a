-- ===== src/Tests/Configs.antt =====
-- Tests and instances for what scripts pass in.
use webrtc_node.Base.{
  ℕ, ◌+◌, ◌%◌, ◌<◌, [], ◌∷◌, none, some, true, ◌≡◌, refl, codes, All, ok, err, type_error,
  syntax_error, integer, pos, negsuc,
}
use webrtc_node.Config.Init.{
  DataChannelInit, DataChannelOptions, normalize_data_channel_init, IsValid, to_unsigned_long,
  normalize_data_channel_init-IsValid, to_unsigned_long-wraps,
}
use webrtc_node.Config.IceUrl.{validate_ice_server_url}
use webrtc_node.Config.Servers.{ServerInput, IceServer, normalize_servers}
use webrtc_node.Config.Servers.Usability.{IsUsable, AreTaken, normalize_servers-IsUsable}
use webrtc_node.Base.{◌↔◌, ◌⊎◌, false}
use webrtc_node.Sdp.Candidates.{Candidate}
use webrtc_node.Config.IceUrl.{is_nil}
use webrtc_node.Config.CandidateInit.{
  CandidateInit, text_member, has_section, input_text, candidate_of, new_ice_candidate,
  normalize_add_input, candidate_init, normalize_add_input_agrees,
}

url_tests :
    (validate_ice_server_url (codes "stun:example.org:3478") ≡ ok tt)
    × (validate_ice_server_url (codes "TURN:[::1]:80?transport=TCP") ≡ ok tt)
    × (validate_ice_server_url (codes "turn:[::1]80") ≡ err syntax_error)
    × (validate_ice_server_url (codes "stun:example.org:65536") ≡ err syntax_error)
    × (validate_ice_server_url (codes "stun:a?transport=udp") ≡ err syntax_error)
    × (validate_ice_server_url (codes "stun://a") ≡ err syntax_error)
    × (validate_ice_server_url (codes "http:a") ≡ err syntax_error)
unfolding validate_ice_server_url
url_tests = (refl, refl, refl, refl, refl, refl, refl)

abbrev plain_init : DataChannelInit
plain_init = record {
  ordered = none;
  max_packet_life_time = none;
  max_retransmits = some (integer (pos 3));
  protocol = none;
  negotiated = some true;
  id = some (integer (pos 7));
}

abbrev plain_options : DataChannelOptions
plain_options = record {
  ordered = true;
  max_packet_life_time = none;
  max_retransmits = some 3;
  protocol = [];
  negotiated = true;
  id = some 7;
}

accepted_init : normalize_data_channel_init plain_init ≡ ok plain_options
unfolding normalize_data_channel_init
accepted_init = refl

rejected_inits :
    (normalize_data_channel_init (record plain_init { id = none }) ≡ err type_error)
    × (normalize_data_channel_init (record plain_init { id = some (integer (pos 65535)) })
        ≡ err type_error)
unfolding normalize_data_channel_init
rejected_inits = (refl, refl)

normalize_data_channel_init-IsValid_example : IsValid plain_options
normalize_data_channel_init-IsValid_example =
    normalize_data_channel_init-IsValid plain_init plain_options accepted_init

to_unsigned_long-wraps_example :
    (to_unsigned_long (some (integer (pos 5000000000))) ≡ ok (5000000000 % 4294967296))
    × ((m : ℕ) × (to_unsigned_long (some (integer (negsuc 5000000000))) ≡ ok m)
        × (m < 4294967296)
        × ((m + (5000000000 + 1)) % 4294967296 ≡ 0))
to_unsigned_long-wraps_example = to_unsigned_long-wraps 5000000000

abbrev turn_input : ServerInput
turn_input = record {
  urls = some (codes "turn:a:1" ∷ []);
  username = some (codes "u");
  credential = some (codes "c");
}

abbrev turn_server : IceServer
turn_server = record {
  urls = codes "turn:a:1" ∷ [];
  username = some (codes "u");
  credential = some (codes "c");
}

accepted_server : normalize_servers (some turn_input ∷ []) ≡ ok (turn_server ∷ [])
unfolding normalize_servers
accepted_server = refl

normalize_servers-IsUsable_example :
    All IsUsable (turn_server ∷ []) × AreTaken (some turn_input ∷ []) (turn_server ∷ [])
normalize_servers-IsUsable_example =
    normalize_servers-IsUsable (some turn_input ∷ []) (turn_server ∷ []) accepted_server

abbrev lone_init : CandidateInit
lone_init = record {
  candidate = text_member (codes "candidate:1");
  sdp_mid = some (codes "0");
  sdp_m_line_index = none;
  username_fragment = none;
}

abbrev lone : Candidate
lone = record {
  candidate = codes "candidate:1";
  sdp_mid = some (codes "0");
  sdp_m_line_index = none;
  username_fragment = none;
}

normalize_add_input_agrees_example : (normalize_add_input (candidate_init lone_init) ≡ ok lone) ↔ (
    (new_ice_candidate lone_init ≡ ok lone)
    ⊎ ((has_section lone_init ≡ false)
        × (is_nil (input_text lone_init.candidate) ≡ true)
        × (candidate_of (input_text lone_init.candidate) lone_init ≡ lone)))
normalize_add_input_agrees_example = normalize_add_input_agrees lone_init lone (λ e. cc)
