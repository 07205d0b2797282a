-- ===== src/Sdp/Sections/Reading.antt =====
-- What the reading of one line keeps of the sections.
use webrtc_node.Base.{
  Str, String, codes, starts_with, List, [], ◌∷◌, ◌++◌, Option, none, some, ◌≡◌, refl, ap, sym, ◌∙◌,
  append-nil, append_assoc, Bool-cases, inl, inr, true, false, All, All-snoc,
}
use webrtc_node.Sdp.Sections.{
  Section, Parsing, sections_so_far, read_line, read_other, read_lines, new_section, add_line,
  attribute,
}

abbrev pub IsMediaLine : Str → Type 0
IsMediaLine line = starts_with (codes "m=") line ≡ true

abbrev pub NotMediaLine : Str → Type 0
NotMediaLine line = starts_with (codes "m=") line ≡ false

unfoldable pub add_lines : Section → List Str → Section
add_lines s [] = s
add_lines s (line ∷ lines) = add_lines (add_line line s) lines

-- A section as the first loop leaves it: a media line and what follows it.
pub record IsRead (s : Section) : Type 0 where
  pub head : Str
  pub tail : List Str
  pub head_media : IsMediaLine head
  pub tail_plain : All NotMediaLine tail
  pub same : s ≡ add_lines (new_section head) tail

unfoldable pub last_attribute : String → List Str → Option Str → Option Str
last_attribute name [] old = old
last_attribute name (line ∷ lines) old = last_attribute name lines (attribute name line old)

add_lines-snoc :
    (s : Section) (lines : List Str) (line : Str)
    → add_line line (add_lines s lines) ≡ add_lines s (lines ++ line ∷ [])
unfolding add_lines
add_lines-snoc s [] line = refl
add_lines-snoc s (l ∷ lines) line = add_lines-snoc (add_line l s) lines line

last_attribute-snoc :
    (name : String) (lines : List Str) (line : Str) (old : Option Str)
    → attribute name line (last_attribute name lines old)
      ≡ last_attribute name (lines ++ line ∷ []) old
unfolding last_attribute
last_attribute-snoc name [] line old = refl
last_attribute-snoc name (l ∷ lines) line old =
    last_attribute-snoc name lines line (attribute name l old)

pub lines-add_lines :
    (s : Section) (lines : List Str) → (add_lines s lines).lines ≡ s.lines ++ lines
unfolding add_lines add_line
lines-add_lines s [] = sym (append-nil s.lines)
lines-add_lines s (line ∷ lines) =
    lines-add_lines (add_line line s) lines ∙ append_assoc s.lines (line ∷ []) lines

new_section-IsRead : (line : Str) → IsMediaLine line → IsRead (new_section line)
unfolding add_lines
new_section-IsRead line m = record {
  head = line;
  tail = [];
  head_media = m;
  tail_plain = tt;
  same = refl;
}

pub add_line-IsRead :
    (s : Section) (line : Str) → IsRead s → NotMediaLine line → IsRead (add_line line s)
add_line-IsRead s line r n = record {
  head = r.head;
  tail = r.tail ++ line ∷ [];
  head_media = r.head_media;
  tail_plain = All-snoc NotMediaLine r.tail line r.tail_plain n;
  same = ap (add_line line) r.same ∙ add_lines-snoc (new_section r.head) r.tail line;
}

-- What the loop keeps true.
pub record IsReadSoFar (p : Parsing) : Type 0 where
  pub session_plain : All NotMediaLine p.session
  pub done_read : All IsRead p.done
  pub current_read : (s : Section) → p.current ≡ some s → IsRead s
  pub ufrag_read : p.session_ufrag ≡ last_attribute "a=ice-ufrag:" p.session none
  pub pwd_read : p.session_pwd ≡ last_attribute "a=ice-pwd:" p.session none

pub sections_so_far-IsRead :
    (done : List Section) (cur : Option Section)
    → All IsRead done
    → ((s : Section) → cur ≡ some s → IsRead s)
    → All IsRead (sections_so_far done cur)
unfolding sections_so_far
sections_so_far-IsRead done none h k = h
sections_so_far-IsRead done (some s) h k = All-snoc IsRead done s h (k s refl)

some-IsRead : (t : Section) → IsRead t → (s : Section) → some t ≡ some s → IsRead s
some-IsRead t r s e = let e' : t ≡ s = cc in rw (← e') r

read_other-IsReadSoFar :
    (p : Parsing) (cur : Option Section) (line : Str)
    → p.current ≡ cur
    → NotMediaLine line
    → IsReadSoFar p
    → IsReadSoFar (read_other p cur line)
unfolding read_other
read_other-IsReadSoFar p none line e n r = record {
  session_plain = All-snoc NotMediaLine p.session line r.session_plain n;
  done_read = r.done_read;
  current_read = r.current_read;
  ufrag_read =
      ap (attribute "a=ice-ufrag:" line) r.ufrag_read
      ∙ last_attribute-snoc "a=ice-ufrag:" p.session line none;
  pwd_read =
      ap (attribute "a=ice-pwd:" line) r.pwd_read
      ∙ last_attribute-snoc "a=ice-pwd:" p.session line none;
}
read_other-IsReadSoFar p (some s) line e n r = record {
  session_plain = r.session_plain;
  done_read = r.done_read;
  current_read = some-IsRead (add_line line s) (add_line-IsRead s line (r.current_read s e) n);
  ufrag_read = r.ufrag_read;
  pwd_read = r.pwd_read;
}

read_line-IsReadSoFar : (p : Parsing) (line : Str) → IsReadSoFar p → IsReadSoFar (read_line p line)
unfolding read_line
read_line-IsReadSoFar p line r = elim (Bool-cases (starts_with (codes "m=") line)) [
  | inl m ↦ rw m (record {
    session_plain = r.session_plain;
    done_read = sections_so_far-IsRead p.done p.current r.done_read r.current_read;
    current_read = some-IsRead (new_section line) (new_section-IsRead line m);
    ufrag_read = r.ufrag_read;
    pwd_read = r.pwd_read;
  })
  | inr m ↦ rw m (read_other-IsReadSoFar p p.current line refl m r)
]

pub read_lines-IsReadSoFar :
    (p : Parsing) (lines : List Str) → IsReadSoFar p → IsReadSoFar (read_lines p lines)
unfolding read_lines
read_lines-IsReadSoFar p [] r = r
read_lines-IsReadSoFar p (line ∷ lines) r =
    read_lines-IsReadSoFar (read_line p line) lines (read_line-IsReadSoFar p line r)

pub read_lines-append :
    (p : Parsing) (xs ys : List Str) → read_lines p (xs ++ ys) ≡ read_lines (read_lines p xs) ys
unfolding read_lines
read_lines-append p [] ys = refl
read_lines-append p (x ∷ xs) ys = read_lines-append (read_line p x) xs ys
