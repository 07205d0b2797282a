-- ===== src/Sdp/Sections/Laws.antt =====
-- Parsing and serialising a session description.
use webrtc_node.Base.{
  Str, codes, starts_with, List, [], ◌∷◌, ◌++◌, Option, none, some, ◌≡◌, refl, ap, sym, ◌∙◌, map,
  append-nil, append_assoc, Bool-cases, inl, inr,
}
use webrtc_node.Sdp.Lines.{split_sdp_lines}
use webrtc_node.Sdp.Lines.Laws.{split_sdp_lines-IsLine, split_sdp_lines-join_lines}
use webrtc_node.Sdp.Sections.{
  Section, Sdp, Parsing, section_lines, sections_so_far, read_line, read_other, read_lines, inherit,
  parse_lines, parse_sdp_media_sections, serialize_sdp, new_section, add_line,
}

pub section_lines-append :
    (xs ys : List Section) → section_lines (xs ++ ys) ≡ section_lines xs ++ section_lines ys
section_lines-append [] ys = refl
section_lines-append (x ∷ xs) ys = simp (section_lines-append xs ys, append_assoc)

section_lines-inherit :
    (u p : Option Str) (ss : List Section) → section_lines (map (inherit u p) ss) ≡ section_lines ss
unfolding inherit
section_lines-inherit u p [] = refl
section_lines-inherit u p (s ∷ ss) = rw (section_lines-inherit u p ss)

-- The lines read so far, in order.
abbrev lines_read : Parsing → List Str
lines_read p = p.session ++ section_lines (sections_so_far p.done p.current)

-- There is no section before the first.
abbrev IsOrdered : Parsing → Type 0
IsOrdered p = p.current ≡ none → p.done ≡ []

new_section-lines :
    (done : List Section) (cur : Option Section) (line : Str)
    → section_lines (sections_so_far (sections_so_far done cur) (some (new_section line)))
      ≡ section_lines (sections_so_far done cur) ++ line ∷ []
unfolding sections_so_far new_section
new_section-lines done cur line =
    section_lines-append (sections_so_far done cur) (new_section line ∷ [])

read_other-lines_read :
    (p : Parsing) (cur : Option Section) (line : Str)
    → p.current ≡ cur
    → IsOrdered p
    → (lines_read (read_other p cur line) ≡ lines_read p ++ line ∷ [])
      × IsOrdered (read_other p cur line)
unfolding read_other sections_so_far add_line
read_other-lines_read p none line e o = (rw (e, o e, sections_so_far) (simp (append-nil)), λ _. o e)
read_other-lines_read p (some s) line e o =
    (rw e (simp (section_lines-append, append_assoc, append-nil)), λ h. cc)

read_line-lines_read :
    (p : Parsing) (line : Str)
    → IsOrdered p
    → (lines_read (read_line p line) ≡ lines_read p ++ line ∷ []) × IsOrdered (read_line p line)
unfolding read_line
read_line-lines_read p line o = elim (Bool-cases (starts_with (codes "m=") line)) [
  | inl m ↦ rw m (
    rw (new_section-lines p.done p.current line) (sym (append_assoc p.session _ (line ∷ []))),
    λ h. cc,
  )
  | inr m ↦ rw m (read_other-lines_read p p.current line refl o)
]

read_lines-lines_read :
    (p : Parsing) (lines : List Str)
    → IsOrdered p
    → lines_read (read_lines p lines) ≡ lines_read p ++ lines
unfolding read_lines
read_lines-lines_read p [] o = sym (append-nil _)
read_lines-lines_read p (line ∷ lines) o =
    let (e, o') = read_line-lines_read p line o in
    read_lines-lines_read (read_line p line) lines o'
    ∙ rw e (append_assoc (lines_read p) (line ∷ []) lines)

abbrev pub sdp_lines : Sdp → List Str
sdp_lines sdp = sdp.session_lines ++ section_lines sdp.media_sections

sdp_lines-parse_lines : (lines : List Str) → sdp_lines (parse_lines lines) ≡ lines
unfolding parse_lines sections_so_far
sdp_lines-parse_lines lines =
    rw (section_lines-inherit _ _ _) (read_lines-lines_read _ lines (λ _. refl))

-- Parsing keeps every non-empty line of the text, in order: the session's lines and then those of
-- each media section.
pub parse-keeps_lines : (sdp : Str) → sdp_lines (parse_sdp_media_sections sdp) ≡ split_sdp_lines sdp
unfolding parse_sdp_media_sections
parse-keeps_lines sdp = sdp_lines-parse_lines (split_sdp_lines sdp)

-- Serialising what was parsed gives a text that parses to the same session lines and sections,
-- inherited credentials included.
pub parse-serialize :
    (sdp : Str)
    → parse_sdp_media_sections (serialize_sdp (parse_sdp_media_sections sdp))
      ≡ parse_sdp_media_sections sdp
unfolding serialize_sdp
parse-serialize sdp = rw (parse-keeps_lines sdp) (
    unfold parse_sdp_media_sections in
    ap parse_lines (split_sdp_lines-join_lines (split_sdp_lines sdp) (split_sdp_lines-IsLine sdp)))
