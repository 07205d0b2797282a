-- ===== src/Sdp/Sections/Editing.antt =====
-- Editing the lines of a parsed description and serialising it: what the text parses to.
use webrtc_node.Base.{
  Str, List, [], ◌∷◌, ◌++◌, Option, none, some, ◌≡◌, refl, ap, sym, ◌∙◌, subst, map, append-nil,
  append_assoc, All,
}
use webrtc_node.Sdp.Sections.{
  Section, Sdp, Parsing, section_lines, sections_so_far, read_line, read_other, read_lines, inherit,
  parse_lines, new_section, add_line, attribute, start,
}
use webrtc_node.Sdp.Sections.Reading.{
  IsMediaLine, NotMediaLine, add_lines, IsRead, last_attribute, lines-add_lines, IsReadSoFar,
  sections_so_far-IsRead, read_lines-IsReadSoFar, read_lines-append,
}

-- Reading lines that start no section, before the first section and in one.
read_session :
    (session : List Str) (u w : Option Str) (lines : List Str)
    → All NotMediaLine lines
    → read_lines
        (record {
          session = session;
          session_ufrag = u;
          session_pwd = w;
          done = [];
          current = none;
        })
        lines
      ≡ record {
        session = session ++ lines;
        session_ufrag = last_attribute "a=ice-ufrag:" lines u;
        session_pwd = last_attribute "a=ice-pwd:" lines w;
        done = [];
        current = none;
      }
unfolding read_lines read_line read_other last_attribute
read_session session u w [] h = rw (append-nil session)
read_session session u w (line ∷ lines) (n, h) = rw n (
    read_session (session ++ line ∷ []) (attribute "a=ice-ufrag:" line u)
      (attribute "a=ice-pwd:" line w) lines h
    ∙ rw (append_assoc session (line ∷ []) lines))

read_tail :
    (p : Parsing) (s : Section) (lines : List Str)
    → All NotMediaLine lines
    → read_lines (record p { current = some s }) lines
      ≡ record p { current = some (add_lines s lines) }
unfolding read_lines read_line read_other add_lines
read_tail p s [] h = refl
read_tail p s (line ∷ lines) (n, h) = rw n (read_tail p (add_line line s) lines h)

abbrev SectionReads : Parsing → Section → Type 0
SectionReads p s =
    read_lines p s.lines ≡ record p { done = sections_so_far p.done p.current; current = some s }

read_section_lines :
    (p : Parsing) (head : Str) (tail : List Str)
    → IsMediaLine head
    → All NotMediaLine tail
    → SectionReads p (add_lines (new_section head) tail)
unfolding read_lines read_line new_section
read_section_lines p head tail m h =
    ap (read_lines p) (lines-add_lines (new_section head) tail)
    ∙ rw m
        (read_tail (record p { done = sections_so_far p.done p.current }) (new_section head) tail h)

read_section : (p : Parsing) (s : Section) → IsRead s → SectionReads p s
read_section p s r =
    subst (SectionReads p) (sym r.same)
      (read_section_lines p r.head r.tail r.head_media r.tail_plain)

abbrev SameSession : Parsing → Parsing → Type 0
SameSession p q =
    (p.session ≡ q.session) × (p.session_ufrag ≡ q.session_ufrag) × (p.session_pwd ≡ q.session_pwd)

read_sections :
    (p : Parsing) (ss : List Section)
    → All IsRead ss
    → let q = read_lines p (section_lines ss) in
      SameSession q p × (sections_so_far q.done q.current ≡ sections_so_far p.done p.current ++ ss)
unfolding read_lines
read_sections p [] h = ((refl, refl, refl), sym (append-nil _))
read_sections p (s ∷ ss) (r, h) =
    rw (read_lines-append p s.lines (section_lines ss), read_section p s r)
      (let p' : Parsing = record p { done = sections_so_far p.done p.current; current = some s } in
        let (same, e) = read_sections p' ss h in
        (
          same,
          e ∙ unfold sections_so_far in append_assoc (sections_so_far p.done p.current) (s ∷ []) ss,
        ))

-- What parsing produces, but for its choice of lines.
pub record IsParsed (sdp : Sdp) : Type 0 where
  pub plain : All NotMediaLine sdp.session_lines
  pub sections : List Section
  pub are_read : All IsRead sections
  pub inherited :
      sdp.media_sections
      ≡ map
          (inherit
            (last_attribute "a=ice-ufrag:" sdp.session_lines none)
            (last_attribute "a=ice-pwd:" sdp.session_lines none))
          sections

start-IsReadSoFar : IsReadSoFar start
unfolding last_attribute
start-IsReadSoFar = record {
  session_plain = tt;
  done_read = tt;
  current_read = λ s e. absurd (cc);
  ufrag_read = refl;
  pwd_read = refl;
}

pub parse_lines-IsParsed : (lines : List Str) → IsParsed (parse_lines lines)
unfolding parse_lines
parse_lines-IsParsed lines =
    let p : Parsing = read_lines start lines in
    let r : IsReadSoFar p = read_lines-IsReadSoFar start lines start-IsReadSoFar in
    record {
      plain = r.session_plain;
      sections = sections_so_far p.done p.current;
      are_read = sections_so_far-IsRead p.done p.current r.done_read r.current_read;
      inherited = rw (r.ufrag_read, r.pwd_read);
    }

section_lines-inherit :
    (u w : Option Str) (ss : List Section) → section_lines (map (inherit u w) ss) ≡ section_lines ss
unfolding inherit
section_lines-inherit u w [] = refl
section_lines-inherit u w (s ∷ ss) = rw (section_lines-inherit u w ss)

abbrev read_back : List Str → List Section → Parsing
read_back session ss = read_lines start (session ++ section_lines ss)

read_back_lem :
    (session : List Str) (ss : List Section)
    → All NotMediaLine session
    → All IsRead ss
    → let q = read_back session ss in
      (q.session ≡ session)
      × (q.session_ufrag ≡ last_attribute "a=ice-ufrag:" session none)
      × (q.session_pwd ≡ last_attribute "a=ice-pwd:" session none)
      × (sections_so_far q.done q.current ≡ ss)
unfolding sections_so_far
read_back_lem session ss h r =
    rw (read_lines-append start session (section_lines ss), read_session [] none none session h)
      (let ((a, b, c), d) =
          read_sections
            (record {
              session = session;
              session_ufrag = last_attribute "a=ice-ufrag:" session none;
              session_pwd = last_attribute "a=ice-pwd:" session none;
              done = [];
              current = none;
            })
            ss r in
        (a, b, c, d))

-- The lines of what parsing produces parse to it.
pub parse_lines-lines :
    (sdp : Sdp)
    → IsParsed sdp
    → parse_lines (sdp.session_lines ++ section_lines sdp.media_sections) ≡ sdp
unfolding parse_lines
parse_lines-lines sdp r =
    let (a, b, c, d) = read_back_lem sdp.session_lines r.sections r.plain r.are_read in
    rw (r.inherited, section_lines-inherit _ _ r.sections) (rw (a, b, c, d))
