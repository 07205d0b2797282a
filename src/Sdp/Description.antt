-- ===== src/Sdp/Description.antt =====
-- RTCSessionDescription of lib/index.js and the tests on its text: syntax, media, message size.
pub mod Splitting
pub mod Syntax
use webrtc_node.Base.{
  ℕ, ◌+◌, ◌*◌, ◌-◌, Str, String, codes, str_eq, strip_prefix, starts_with, lower_code, is_digit,
  is_letter, List, [], ◌∷◌, Option, none, some, or_else, Bool, true, false, not, ◌&&◌, ◌||◌, map,
  find, ◌==◌, leb, if◌then◌else◌, Result, ok, err, type_error, sdp_syntax, ◌>>=◌, is_some,
}
use webrtc_node.Sdp.Lines.{is_empty, starts_lf, onto_first}
use webrtc_node.Sdp.Sections.{Section, parse_sdp_media_sections}

pub data SdpType : Type 0 where
  offer answer pranswer rollback : SdpType

-- `js_only_ice_restart` is the hidden property that `markJsOnlyIceRestart` sets.
pub record Description : Type 0 where
  pub type : SdpType
  pub sdp : Str
  pub js_only_ice_restart : Bool

-- `validateSdpType`.
unfoldable pub validate_sdp_type : Str → Result SdpType
validate_sdp_type t =
    if str_eq t (codes "offer")
    then ok offer
    else if str_eq t (codes "answer")
    then ok answer
    else if str_eq t (codes "pranswer")
    then ok pranswer
    else if str_eq t (codes "rollback")
    then ok rollback
    else err type_error

-- The constructor, and the `type` that `toJSON` gives back.
unfoldable pub new_session_description : Str → Str → Result Description
unfolding validate_sdp_type
new_session_description type sdp = do
  t ← validate_sdp_type type
  ok (record { type = t; sdp = sdp; js_only_ice_restart = false })

unfoldable pub type_to_json : SdpType → Str
type_to_json offer = codes "offer"
type_to_json answer = codes "answer"
type_to_json pranswer = codes "pranswer"
type_to_json rollback = codes "rollback"

abbrev pub mark_js_only_ice_restart : Description → Description
mark_js_only_ice_restart d = record d { js_only_ice_restart = true }

-- `re.exec` tries the match at each position, from the left.
unfoldable pub first_match {ℓ} : {A : Type ℓ} → (Str → Option A) → Str → Option A
first_match m [] = m []
first_match m (c ∷ s) = or_else (m (c ∷ s)) (first_match m s)

unfoldable pub contains : Str → Str → Bool
unfolding first_match
contains part s = is_some (first_match (strip_prefix part) s)

-- Letters of both cases match; `p` is in lower case.
abbrev pub strip_prefix_i : Str → Str → Option Str
strip_prefix_i [] s = some s
strip_prefix_i (c ∷ p) [] = none
strip_prefix_i (c ∷ p) (d ∷ s) = if c == lower_code d then strip_prefix_i p s else none

-- `\b` after a word character.
abbrev pub word_ends : Str → Bool
word_ends [] = true
word_ends (c ∷ s) = not (is_letter c || is_digit c || c == b'_')

abbrev ends_line : Str → Bool
ends_line [] = true
ends_line (c ∷ s) = c == 10 || (c == 13 && starts_lf s)

-- `/^v=0(?:\r?\n|$)/` holds and `/\r?\nm=/` does not.
unfoldable pub is_no_media_sdp : Str → Bool
unfolding contains
is_no_media_sdp sdp =
    elim (strip_prefix (codes "v=0") sdp) [ none ↦ false | some rest ↦ ends_line rest ]
    && not (contains (10 ∷ codes "m=") sdp)

-- `/\r?\nm=application\b/i`.
abbrev pub application_at : Str → Option Str
application_at s = elim (strip_prefix_i (codes "m=application") s) [
  | none ↦ none
  | some rest ↦ if word_ends rest then some rest else none
]

abbrev after_lf {ℓ} : {A : Type ℓ} → (Str → Option A) → Str → Option A
after_lf m [] = none
after_lf m (c ∷ s) = if c == 10 then m s else none

unfoldable pub has_data_media_section : Str → Bool
unfolding first_match
has_data_media_section sdp = is_some (first_match (after_lf application_at) sdp)

-- `Number` of the digits in front: exact, where JavaScript rounds above 2^53.
unfoldable pub read_digits : ℕ → Str → ℕ
read_digits n [] = n
read_digits n (c ∷ s) =
    let rest = read_digits (n * 10 + (c - b'0')) s in if is_digit c then rest else n

abbrev digits_at : Str → Option ℕ
digits_at [] = none
digits_at (c ∷ s) = if is_digit c then some (read_digits 0 (c ∷ s)) else none

abbrev size_at : Str → Option ℕ
size_at s = elim (strip_prefix_i (codes "a=max-message-size:") s) [
  | none ↦ none
  | some rest ↦ digits_at rest
]

unfoldable pub max_message_size_from_sdp : Str → Option ℕ
unfolding first_match read_digits
max_message_size_from_sdp sdp = first_match (after_lf size_at) sdp

-- `split(/\r\n|\n|\r/)`.
unfoldable pub split_any : Str → List Str
split_any [] = [] ∷ []
split_any (c ∷ s) =
    let rest = split_any s in
    if c == 10
    then [] ∷ rest
    else if c == 13
    then (if starts_lf s then rest else [] ∷ rest)
    else onto_first c rest

-- `/^[a-z]=/`.
abbrev pub is_sdp_line : Str → Bool
is_sdp_line (c ∷ d ∷ s) = leb b'a' c && leb c b'z' && d == b'='
is_sdp_line _ = false

-- The loop over the lines from `index` on.
unfoldable pub first_bad_line : ℕ → List Str → Option ℕ
first_bad_line index [] = none
first_bad_line index ([] ∷ []) = none
first_bad_line index (line ∷ lines) =
    let rest = first_bad_line (index + 1) lines in
    if is_sdp_line line then rest else some (index + 1)

abbrev pub first_is_version : List Str → Bool
first_is_version [] = false
first_is_version (line ∷ lines) = str_eq line (codes "v=0")

unfoldable pub sdp_syntax_error_line : Str → Option ℕ
unfolding first_bad_line split_any
sdp_syntax_error_line sdp =
    let lines = split_any sdp in if first_is_version lines then first_bad_line 0 lines else some 1

unfoldable pub assert_valid_sdp_syntax : Description → Result (Unit {0})
assert_valid_sdp_syntax d = elim d.type [
  | rollback ↦ ok tt
  | _ ↦ elim (sdp_syntax_error_line d.sdp) [ none ↦ ok tt | some line ↦ err (sdp_syntax line) ]
]

-- `dtlsSetupFromDescription`, on the text of the description.
abbrev setup_line : List Str → Option Str
setup_line lines = find (λ line. is_some (strip_prefix_i (codes "a=setup:") line)) lines

abbrev first_section : List Section → Option Section
first_section [] = none
first_section (s ∷ ss) = some s

abbrev section_lines_of : Option Section → List Str
section_lines_of none = []
section_lines_of (some s) = s.lines

-- The setup in lower case, of the letters A to Z.
unfoldable pub dtls_setup : Str → Option Str
dtls_setup sdp =
    let parsed = parse_sdp_media_sections sdp in
    let section =
      or_else (find (λ s. is_some (application_at s.start_line)) parsed.media_sections)
        (first_section parsed.media_sections) in
    elim (or_else (setup_line (section_lines_of section)) (setup_line parsed.session_lines)) [
      | none ↦ none
      | some line ↦ elim (strip_prefix_i (codes "a=setup:") line) [
        | none ↦ none
        | some rest ↦ some (map lower_code rest)
      ]
    ]

-- `trickle` as a word of its own; the Boolean says that a word character stands in front.
unfoldable pub has_trickle_word : Bool → Str → Bool
has_trickle_word inside [] = false
has_trickle_word inside (c ∷ s) =
    (not inside
      && elim (strip_prefix_i (codes "trickle") (c ∷ s)) [ none ↦ false | some t ↦ word_ends t ])
    || has_trickle_word (not (word_ends (c ∷ []))) s

-- What stands before the end of the line.
abbrev line_start : Str → Str
line_start [] = []
line_start (c ∷ s) = if c == 10 || c == 13 then [] else c ∷ line_start s

abbrev trickle_at : Str → Option (Unit {0})
trickle_at s = elim (strip_prefix_i (codes "a=ice-options:") s) [
  | none ↦ none
  | some rest ↦ if has_trickle_word false (line_start rest) then some tt else none
]

-- `/\r?\na=ice-options:[^\r\n]*\btrickle\b/i`.
unfoldable pub has_trickle_ice_option : Str → Bool
unfolding first_match has_trickle_word
has_trickle_ice_option sdp = is_some (first_match (after_lf trickle_at) sdp)
