-- ===== src/Config/Servers.antt =====
-- `normalizeEnum`, `normalizeIceServers` and `normalizePeerConnectionConfiguration`.
pub mod Usability
use webrtc_node.Base.{
  ℕ, List, [], ◌∷◌, Option, none, some, Bool, true, false, ◌||◌, ltb, leb, ◌≡◌, refl, if◌then◌else◌,
  is_some, any, length, All, Num, Result, ok, err, type_error, syntax_error, invalid_access, ◌>>=◌,
  ◌>>◌, throw_if, throw_if-eq-ok, >>=-eq-ok, Str, str_eq, codes, subst, ap, suc,
}
use webrtc_node.Channel.Data.{byte_length}
use webrtc_node.Sdp.Description.{strip_prefix_i}
use webrtc_node.Config.Init.{enforce_range, enforce_optional, with_default}
use webrtc_node.Config.IceUrl.{validate_ice_server_url, is_nil}

-- A member of an enumeration: missing, null, or a value as a text.
pub data EnumInput : Type 0 where
  missing null_value : EnumInput
  text_value : Str → EnumInput

-- `normalizeEnum`.
unfoldable pub normalize_enum : EnumInput → List Str → Str → Result Str
normalize_enum missing allowed default = ok default
normalize_enum null_value allowed default = err type_error
normalize_enum (text_value v) allowed default =
    if any (str_eq v) allowed then ok v else err type_error

-- An ICE server as scripts give it: `urls` is none where the object lacks it; the credentials are
-- converted to texts.
pub record ServerInput : Type 0 where
  pub urls : Option (List Str)
  pub username : Option Str
  pub credential : Option Str

pub record IceServer : Type 0 where
  pub urls : List Str
  pub username : Option Str
  pub credential : Option Str

-- `/^turns?:/i`.
abbrev pub is_turn_url : Str → Bool
is_turn_url url =
    is_some (strip_prefix_i (codes "turn:") url) || is_some (strip_prefix_i (codes "turns:") url)

unfoldable pub validate_urls : List Str → Result (Unit {0})
unfolding validate_ice_server_url
validate_urls [] = ok tt
validate_urls (u ∷ us) = do _ ← validate_ice_server_url u; validate_urls us

abbrev pub lacks_credential : Option Str → Bool
lacks_credential none = true
lacks_credential (some c) = is_nil c

-- The tests for a server that requires credentials.
unfoldable pub check_credentials : Option Str → Option Str → Result (Unit {0})
unfolding byte_length
check_credentials none credential = err invalid_access
check_credentials (some name) credential = do
  throw_if (lacks_credential credential) invalid_access
  throw_if (ltb 509 (byte_length name)) invalid_access
  ok tt

abbrev pub check_server_urls : Option Str → Option Str → List Str → Result IceServer
check_server_urls username credential urls = do
  throw_if (leb (length urls) 0) syntax_error
  _ ← validate_urls urls
  _ ← if any is_turn_url urls then check_credentials username credential else ok tt
  ok (record { urls = urls; username = username; credential = credential })

-- The function that `normalizeIceServers` maps over the servers; `none` is no object.
unfoldable pub normalize_ice_server : Option ServerInput → Result IceServer
unfolding validate_urls check_credentials
normalize_ice_server none = err type_error
normalize_ice_server (some server) = elim server.urls [
  | none ↦ err type_error
  | some urls ↦ check_server_urls server.username server.credential urls
]

unfoldable pub normalize_servers : List (Option ServerInput) → Result (List IceServer)
unfolding normalize_ice_server
normalize_servers [] = ok []
normalize_servers (s ∷ ss) = do
  server ← normalize_ice_server s
  rest ← normalize_servers ss
  ok (server ∷ rest)

-- `iceServers`: missing, no array, or an array.
pub data ServersInput : Type 0 where
  no_servers not_an_array : ServersInput
  server_list : List (Option ServerInput) → ServersInput

-- `normalizeIceServers`.
unfoldable pub normalize_ice_servers : ServersInput → Result (List IceServer)
unfolding normalize_servers
normalize_ice_servers no_servers = ok []
normalize_ice_servers not_an_array = err type_error
normalize_ice_servers (server_list servers) = normalize_servers servers

-- A certificate as scripts give it: null or undefined, another object, or an RTCCertificate with the
-- time at which it expires.
pub data CertificateInput : Type 0 where
  no_certificate foreign_object : CertificateInput
  certificate : ℕ → CertificateInput

unfoldable pub check_certificates : ℕ → List CertificateInput → Result (Unit {0})
check_certificates now [] = ok tt
check_certificates now (no_certificate ∷ cs) = err type_error
check_certificates now (foreign_object ∷ cs) = check_certificates now cs
check_certificates now (certificate expires ∷ cs) =
    let rest = check_certificates now cs in if leb expires now then err invalid_access else rest

-- The configuration of a peer; `certificates` is none where it is null.
pub record ConfigInput : Type 0 where
  pub certificates : Option (List CertificateInput)
  pub ice_servers : ServersInput
  pub ice_transport_policy : EnumInput
  pub bundle_policy : EnumInput
  pub rtcp_mux_policy : EnumInput
  pub ice_candidate_pool_size : Option Num

pub record Config : Type 0 where
  pub ice_servers : List IceServer
  pub ice_transport_policy : Str
  pub bundle_policy : Str
  pub rtcp_mux_policy : Str
  pub ice_candidate_pool_size : ℕ
  pub certificates : List CertificateInput

-- `normalizePeerConnectionConfiguration` of an object, at the time `now`.
unfoldable pub normalize_configuration : ℕ → ConfigInput → Result Config
unfolding check_certificates normalize_ice_servers normalize_enum enforce_range
normalize_configuration now c = elim c.certificates [
  | none ↦ err type_error
  | some certificates ↦ do
    _ ← check_certificates now certificates
    servers ← normalize_ice_servers c.ice_servers
    transport ←
        normalize_enum c.ice_transport_policy (codes "all" ∷ codes "relay" ∷ []) (codes "all")
    bundle ←
        normalize_enum c.bundle_policy
          (codes "balanced" ∷ codes "max-compat" ∷ codes "max-bundle" ∷ []) (codes "balanced")
    mux ← normalize_enum c.rtcp_mux_policy (codes "require" ∷ []) (codes "require")
    size ← enforce_optional 255 c.ice_candidate_pool_size
    ok (record {
      ice_servers = servers;
      ice_transport_policy = transport;
      bundle_policy = bundle;
      rtcp_mux_policy = mux;
      ice_candidate_pool_size = with_default 0 size;
      certificates = certificates;
    })
]
