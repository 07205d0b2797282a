-- ===== src/Config/CandidateInit.antt =====
-- The candidates that scripts pass in: the RTCIceCandidate constructor and
-- `normalizeAddIceCandidateInput`; and the options of `configurePeerConnection`.
use webrtc_node.Base.{
  ℕ, [], Option, none, some, Bool, true, false, not, ◌||◌, ◌⊎◌, ◌&&◌, ltb, ◌≡◌, ◌↔◌, refl, arith,
  if◌then◌else◌, is_some, Num, integer, pos, Result, ok, err, type_error, invalid_state, Str, ◌>>=◌,
  ◌>>◌, throw_if, codes,
}
use webrtc_node.Sdp.Candidates.{Candidate}
use webrtc_node.Config.IceUrl.{is_nil}

-- The member `candidate`: missing, null, or converted to a text.
pub data TextMember : Type 0 where
  absent null_text : TextMember
  text_member : Str → TextMember

-- An RTCIceCandidateInit, converted; in the other members `none` is a missing or a null one.
pub record CandidateInit : Type 0 where
  pub candidate : TextMember
  pub sdp_mid : Option Str
  pub sdp_m_line_index : Option Num
  pub username_fragment : Option Str

-- The constructor keeps null as the text "null"; `addIceCandidate` takes it for an empty text.
abbrev pub constructor_text : TextMember → Str
constructor_text absent = []
constructor_text null_text = codes "null"
constructor_text (text_member s) = s

abbrev pub input_text : TextMember → Str
input_text absent = []
input_text null_text = []
input_text (text_member s) = s

abbrev pub candidate_of : Str → CandidateInit → Candidate
candidate_of text init = record {
  candidate = text;
  sdp_mid = init.sdp_mid;
  sdp_m_line_index = init.sdp_m_line_index;
  username_fragment = init.username_fragment;
}

abbrev pub has_section : CandidateInit → Bool
has_section init = is_some init.sdp_mid || is_some init.sdp_m_line_index

-- The RTCIceCandidate constructor of an object, but for what it reads from the candidate's text.
unfoldable pub new_ice_candidate : CandidateInit → Result Candidate
new_ice_candidate init =
    if not (has_section init)
    then err type_error
    else ok (candidate_of (constructor_text init.candidate) init)

-- What `addIceCandidate` is given: nothing, no object, an RTCIceCandidate, or another object.
pub data AddInput : Type 0 where
  no_input not_an_object : AddInput
  ice_candidate : Candidate → AddInput
  candidate_init : CandidateInit → AddInput

abbrev pub end_of_candidates : Candidate
end_of_candidates = record {
  candidate = [];
  sdp_mid = none;
  sdp_m_line_index = none;
  username_fragment = none;
}

-- `normalizeAddIceCandidateInput`.
unfoldable pub normalize_add_input : AddInput → Result Candidate
normalize_add_input no_input = ok end_of_candidates
normalize_add_input not_an_object = err type_error
normalize_add_input (ice_candidate c) = ok c
normalize_add_input (candidate_init init) =
    if not (is_nil (input_text init.candidate)) && not (has_section init)
    then err type_error
    else ok (candidate_of (input_text init.candidate) init)

-- The nonstandard configuration of a peer; `max_message_size` is none where it is not set.
pub record Nonstandard : Type 0 where
  pub enable_ice_udp_mux : Option Bool
  pub disable_fingerprint_verification : Option Bool
  pub max_message_size : Option ℕ

-- A member that should be a Boolean: missing, of another type, or one.
pub data BoolInput : Type 0 where
  left_out other_type : BoolInput
  bool_value : Bool → BoolInput

abbrev pub read_bool : BoolInput → Option Bool → Result (Option Bool)
read_bool left_out old = ok old
read_bool other_type old = err type_error
read_bool (bool_value b) old = ok (some b)

abbrev max_safe_integer : ℕ
max_safe_integer = 9007199254740991

abbrev pub read_size : Option Num → Option ℕ → Result (Option ℕ)
read_size none old = ok old
read_size (some (integer (pos n))) old =
    if ltb max_safe_integer n then err type_error else ok (some n)
read_size (some _) old = err type_error

-- `configurePeerConnection` of a peer with an options object, in the order of its tests.
unfoldable pub configure_peer_connection :
    Bool → Bool → BoolInput → BoolInput → Option Num → Nonstandard → Result Nonstandard
configure_peer_connection closed has_native mux fingerprint size old = do
  throw_if closed invalid_state
  throw_if has_native invalid_state
  m ← read_bool mux old.enable_ice_udp_mux
  f ← read_bool fingerprint old.disable_fingerprint_verification
  n ← read_size size old.max_message_size
  ok (record { enable_ice_udp_mux = m; disable_fingerprint_verification = f; max_message_size = n })

same_text : (m : TextMember) → (m ≡ null_text → ⊥) → constructor_text m ≡ input_text m
same_text absent h = refl
same_text null_text h = absurd (h refl)
same_text (text_member s) h = refl

-- For an init whose candidate is not null: `addIceCandidate` accepts it exactly if the constructor of
-- RTCIceCandidate does, with the same candidate, or if it names no section and its candidate is empty
-- or missing.
pub normalize_add_input_agrees :
    (init : CandidateInit) (c : Candidate)
    → (init.candidate ≡ null_text → ⊥)
    → (normalize_add_input (candidate_init init) ≡ ok c) ↔ (
        (new_ice_candidate init ≡ ok c)
        ⊎ ((has_section init ≡ false)
            × (is_nil (input_text init.candidate) ≡ true)
            × (candidate_of (input_text init.candidate) init ≡ c)))
unfolding normalize_add_input new_ice_candidate
normalize_add_input_agrees init c h = let e = same_text init.candidate h in rw e (ground arith)
