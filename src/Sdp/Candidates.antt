-- ===== src/Sdp/Candidates.antt =====
-- ICE candidates as lines of a description, in lib/index.js: `validateCandidateSyntax`,
-- `selectCandidateSections`, `appendRemoteCandidateToDescription`,
-- `stripIceCandidateLinesFromDescription` and `extractIceCandidatesFromDescription`.
pub mod Laws
pub mod Stripping
pub mod Appending
pub mod Removal
pub mod Marking
pub mod Choosing
pub mod Addition
use webrtc_node.Base.{
  ℕ, zero, suc, ◌+◌, Str, codes, str_eq, starts_with, strip_prefix, List, [], ◌∷◌, ◌++◌, Option,
  none, some, Bool, true, false, not, ◌&&◌, ◌||◌, map, any, keep, length, get_elem?, ◌==◌, leb,
  if◌then◌else◌, Result, ok, err, operation_error, ◌>>=◌, ◌>>◌, throw_if, Num, integer, ℤ, pos,
}
use webrtc_node.Sdp.Lines.{is_empty}
use webrtc_node.Sdp.Sections.{Section, Sdp, parse_sdp_media_sections, serialize_sdp, section_lines}
use webrtc_node.Sdp.Description.{Description, is_no_media_sdp}

-- The fields of an RTCIceCandidateInit.
pub record Candidate : Type 0 where
  pub candidate : Str
  pub sdp_mid : Option Str
  pub sdp_m_line_index : Option Num
  pub username_fragment : Option Str

-- The code units of `\s`, which are those that `trim` removes.
abbrev pub is_space : ℕ → Bool
is_space c =
    (leb 9 c && leb c 13)
    || c == 32
    || c == 160
    || c == 5760
    || (leb 8192 c && leb c 8202)
    || c == 8232
    || c == 8233
    || c == 8239
    || c == 8287
    || c == 12288
    || c == 65279

abbrev onto_word : ℕ → List Str → List Str
onto_word c [] = (c ∷ []) ∷ []
onto_word c (word ∷ words) = (c ∷ word) ∷ words

unfoldable pub split_space : Str → List Str
split_space [] = [] ∷ []
split_space (c ∷ s) = let rest = split_space s in if is_space c then [] ∷ rest else onto_word c rest

abbrev or_empty_word : List Str → List Str
or_empty_word [] = [] ∷ []
or_empty_word (word ∷ words) = word ∷ words

-- `s.trim().split(/\s+/)`.
unfoldable pub words : Str → List Str
unfolding split_space
words s = or_empty_word (keep (λ word. not (is_empty word)) (split_space s))

-- `parts.indexOf(word)`, with `none` for -1.
unfoldable pub index_of : Str → List Str → Option ℕ
index_of word [] = none
index_of word (part ∷ parts) =
    if str_eq part word
    then some 0
    else elim (index_of word parts) [ none ↦ none | some i ↦ some (i + 1) ]

abbrev pub non_empty_at : List Str → ℕ → Bool
non_empty_at parts i = elim (get_elem? parts i) [ none ↦ false | some part ↦ not (is_empty part) ]

abbrev typ_in_place : List Str → Bool
typ_in_place parts = elim (index_of (codes "typ") parts) [
  | none ↦ false
  | some i ↦ leb 8 (length parts) && leb 6 i && non_empty_at parts (i + 1)
]

unfoldable pub validate_candidate_syntax : Str → Bool
unfolding words index_of
validate_candidate_syntax [] = true
validate_candidate_syntax (c ∷ s) = elim (strip_prefix (codes "candidate:") (c ∷ s)) [
  | none ↦ false
  | some rest ↦ typ_in_place (words rest)
]

abbrev pub opt_eq : Option Str → Option Str → Bool
opt_eq none none = true
opt_eq none (some t) = false
opt_eq (some s) none = false
opt_eq (some s) (some t) = str_eq s t

-- Which sections are chosen: a list of tests, one for each.
unfoldable pub mark_first : (Section → Bool) → List Section → List Bool
mark_first p [] = []
mark_first p (s ∷ ss) =
    let rest = mark_first p ss in if p s then true ∷ map (λ _. false) ss else false ∷ rest

unfoldable pub mark_index : ℕ → List Section → List Bool
mark_index i [] = []
mark_index zero (s ∷ ss) = true ∷ map (λ _. false) ss
mark_index (suc i) (s ∷ ss) = false ∷ mark_index i ss

abbrev pub is_true : Bool → Bool
is_true b = b

abbrev has_index : List Section → Num → Bool
has_index ss (integer (pos i)) = leb (i + 1) (length ss)
has_index ss _ = false

abbrev marks_at : List Section → Num → List Bool
marks_at ss (integer (pos i)) = mark_index i ss
marks_at ss _ = []

-- The first choice of `targets`.
unfoldable pub choose_sections : List Section → Candidate → Result (List Bool)
unfolding mark_first mark_index
choose_sections ss c = elim c.sdp_mid [
  | some mid ↦
      let marks = mark_first (λ s. opt_eq s.mid (some mid)) ss in
      if any is_true marks then ok marks else err operation_error
  | none ↦ elim c.sdp_m_line_index [
    | some i ↦ if has_index ss i then ok (marks_at ss i) else err operation_error
    | none ↦ elim c.username_fragment [
      | some u ↦
          let marks = map (λ s. opt_eq s.ice_ufrag (some u)) ss in
          if any is_true marks then ok marks else err operation_error
      | none ↦ ok (map (λ _. true) ss)
    ]
  ]
]

abbrev pub any_marked : (Section → Bool) → List Section → List Bool → Bool
any_marked p (s ∷ ss) (b ∷ bs) = (b && p s) || any_marked p ss bs
any_marked p _ _ = false

-- `selectCandidateSections`, on the sections of the parsed description.
unfoldable pub select_candidate_sections : List Section → Candidate → Result (List Bool)
unfolding choose_sections
select_candidate_sections [] c = ok []
select_candidate_sections (s ∷ ss) c = do
  marks ← choose_sections (s ∷ ss) c
  elim c.username_fragment [
    | none ↦ ok marks
    | some u ↦
        if any_marked (λ t. opt_eq t.ice_ufrag (some u)) (s ∷ ss) marks
        then ok marks
        else err operation_error
  ]

abbrev pub has_line : Str → List Str → Bool
has_line line lines = any (str_eq line) lines

abbrev pub push_line : Str → Section → Section
push_line line s = record s {
  lines = if has_line line s.lines then s.lines else s.lines ++ line ∷ [];
}

unfoldable pub push_marked : Str → List Bool → List Section → List Section
push_marked line (b ∷ bs) (s ∷ ss) = (if b then push_line line s else s) ∷ push_marked line bs ss
push_marked line _ ss = ss

abbrev pub candidate_line : Str → Str
candidate_line [] = codes "a=end-of-candidates"
candidate_line (c ∷ s) = codes "a=" ++ c ∷ s

-- `appendRemoteCandidateToDescription`.
unfoldable pub append_remote_candidate : Description → Candidate → Result Description
unfolding validate_candidate_syntax select_candidate_sections push_marked
append_remote_candidate d c = if is_empty d.sdp || is_no_media_sdp d.sdp then ok d else do
  throw_if (not (validate_candidate_syntax c.candidate)) operation_error
  let parsed = parse_sdp_media_sections d.sdp
  targets ← select_candidate_sections parsed.media_sections c
  ok (
      if any is_true targets
      then record {
        type = d.type;
        sdp = serialize_sdp (record parsed {
          media_sections = push_marked (candidate_line c.candidate) targets parsed.media_sections;
        });
        js_only_ice_restart = false;
      }
      else d)

-- `isIceCandidateLine`.
unfoldable pub is_ice_candidate_line : Str → Bool
is_ice_candidate_line line =
    starts_with (codes "a=candidate:") line || str_eq line (codes "a=end-of-candidates")

abbrev pub strip_section : Section → Section
strip_section s = record s { lines = keep (λ line. not (is_ice_candidate_line line)) s.lines }

-- `stripIceCandidateLinesFromDescription`.
unfoldable pub strip_ice_candidate_lines : Description → Description
unfolding is_ice_candidate_line
strip_ice_candidate_lines d =
    if is_empty d.sdp || is_no_media_sdp d.sdp
    then d
    else let parsed = parse_sdp_media_sections d.sdp in
      if any is_ice_candidate_line (section_lines parsed.media_sections)
      then record d {
        sdp =
            serialize_sdp
              (record parsed { media_sections = map strip_section parsed.media_sections });
      }
      else d

-- `extractIceCandidatesFromDescription`.
unfoldable pub candidates_of_lines : ℕ → Section → List Str → List Candidate
candidates_of_lines index s [] = []
candidates_of_lines index s (line ∷ lines) =
    let rest = candidates_of_lines index s lines in
    if starts_with (codes "a=candidate:") line
    then elim (strip_prefix (codes "a=") line) [
      | none ↦ rest
      | some candidate ↦
          record {
            candidate = candidate;
            sdp_mid = s.mid;
            sdp_m_line_index = some (integer (pos index));
            username_fragment = s.ice_ufrag;
          }
          ∷ rest
    ]
    else rest

unfoldable pub candidates_of_sections : ℕ → List Section → List Candidate
unfolding candidates_of_lines
candidates_of_sections index [] = []
candidates_of_sections index (s ∷ ss) =
    candidates_of_lines index s s.lines ++ candidates_of_sections (index + 1) ss

unfoldable pub extract_ice_candidates : Description → List Candidate
unfolding candidates_of_sections
extract_ice_candidates d =
    if is_empty d.sdp || is_no_media_sdp d.sdp
    then []
    else candidates_of_sections 0 (parse_sdp_media_sections d.sdp).media_sections

-- `resolveCandidateMid`; an empty mid counts as none.
abbrev truthy_mid : Option Section → Option Str
truthy_mid none = none
truthy_mid (some s) = elim s.mid [
  | none ↦ none
  | some mid ↦ if is_empty mid then none else some mid
]

unfoldable pub resolve_candidate_mid : Str → Candidate → Option Str
resolve_candidate_mid sdp c = elim c.sdp_mid [
  | some mid ↦ some mid
  | none ↦ elim c.sdp_m_line_index [
    | some (integer (pos i)) ↦
        truthy_mid (get_elem? (parse_sdp_media_sections sdp).media_sections i)
    | _ ↦ none
  ]
]
