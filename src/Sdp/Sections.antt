-- ===== src/Sdp/Sections.antt =====
-- `parseSdpMediaSections`, `serializeSdp` and the readers of single attributes in lib/index.js.
pub mod Laws
pub mod Reading
pub mod Editing
use webrtc_node.Base.{
  Str, String, codes, strip_prefix, starts_with, List, [], ◌∷◌, ◌++◌, Option, none, some, or_else,
  Bool, true, false, ◌&&◌, map, find, is_some, if◌then◌else◌,
}
use webrtc_node.Sdp.Lines.{is_empty, split_sdp_lines, join_lines}

pub record Section : Type 0 where
  pub start_line : Str
  pub lines : List Str
  pub mid : Option Str
  pub ice_ufrag : Option Str
  pub ice_pwd : Option Str

-- What `parseSdpMediaSections` returns.
pub record Sdp : Type 0 where
  pub session_lines : List Str
  pub media_sections : List Section

-- The variables of its loop. `current` is the last of the sections; `done` holds those before it.
pub record Parsing : Type 0 where
  pub session : List Str
  pub session_ufrag : Option Str
  pub session_pwd : Option Str
  pub done : List Section
  pub current : Option Section

-- `if (line.startsWith(name)) old = line.slice(name.length)`.
abbrev pub attribute : String → Str → Option Str → Option Str
attribute name line old = or_else (strip_prefix (codes name) line) old

unfoldable pub new_section : Str → Section
new_section line = record {
  start_line = line;
  lines = line ∷ [];
  mid = none;
  ice_ufrag = none;
  ice_pwd = none;
}

unfoldable pub add_line : Str → Section → Section
add_line line s = record s {
  lines = s.lines ++ line ∷ [];
  mid = attribute "a=mid:" line s.mid;
  ice_ufrag = attribute "a=ice-ufrag:" line s.ice_ufrag;
  ice_pwd = attribute "a=ice-pwd:" line s.ice_pwd;
}

unfoldable pub sections_so_far : List Section → Option Section → List Section
sections_so_far done none = done
sections_so_far done (some s) = done ++ s ∷ []

-- A line that starts no section goes to the current one, or to the session.
unfoldable pub read_other : Parsing → Option Section → Str → Parsing
unfolding add_line
read_other p (some s) line = record p { current = some (add_line line s) }
read_other p none line = record p {
  session = p.session ++ line ∷ [];
  session_ufrag = attribute "a=ice-ufrag:" line p.session_ufrag;
  session_pwd = attribute "a=ice-pwd:" line p.session_pwd;
}

-- One round of the loop.
unfoldable pub read_line : Parsing → Str → Parsing
unfolding new_section sections_so_far read_other
read_line p line =
    if starts_with (codes "m=") line
    then record p { done = sections_so_far p.done p.current; current = some (new_section line) }
    else read_other p p.current line

unfoldable pub read_lines : Parsing → List Str → Parsing
read_lines p [] = p
read_lines p (line ∷ lines) = read_lines (read_line p line) lines

-- The second loop: a section without credentials has those of the session.
unfoldable pub inherit : Option Str → Option Str → Section → Section
inherit ufrag pwd s = record s {
  ice_ufrag = or_else s.ice_ufrag ufrag;
  ice_pwd = or_else s.ice_pwd pwd;
}

abbrev start : Parsing
start = record { session = []; session_ufrag = none; session_pwd = none; done = []; current = none }

unfoldable pub parse_lines : List Str → Sdp
unfolding read_lines read_line inherit sections_so_far
parse_lines lines =
    let p = read_lines start lines in
    record {
      session_lines = p.session;
      media_sections =
          map (inherit p.session_ufrag p.session_pwd) (sections_so_far p.done p.current);
    }

unfoldable pub parse_sdp_media_sections : Str → Sdp
unfolding parse_lines split_sdp_lines
parse_sdp_media_sections sdp = parse_lines (split_sdp_lines sdp)

-- The lines of a parsed description, in the order in which `serializeSdp` writes them.
abbrev pub section_lines : List Section → List Str
section_lines [] = []
section_lines (s ∷ ss) = s.lines ++ section_lines ss

unfoldable pub serialize_sdp : Sdp → Str
unfolding join_lines
serialize_sdp sdp = join_lines (sdp.session_lines ++ section_lines sdp.media_sections)

pub record IceParameters : Type 0 where
  pub username_fragment : Str
  pub password : Str

-- A string that is truthy.
abbrev pub is_truthy : Option Str → Bool
is_truthy none = false
is_truthy (some []) = false
is_truthy (some (c ∷ s)) = true

abbrev pub parameters_of : Section → Option IceParameters
parameters_of s = elim s.ice_ufrag [
  | none ↦ none
  | some u ↦ elim s.ice_pwd [
    | none ↦ none
    | some p ↦ some (record { username_fragment = u; password = p })
  ]
]

-- `firstIceParameters`, on the text of the description.
unfoldable pub first_ice_parameters : Str → Option IceParameters
unfolding parse_sdp_media_sections
first_ice_parameters sdp =
    elim (find (λ s. is_truthy s.ice_ufrag && is_truthy s.ice_pwd)
      (parse_sdp_media_sections sdp).media_sections) [ none ↦ none | some s ↦ parameters_of s ]
