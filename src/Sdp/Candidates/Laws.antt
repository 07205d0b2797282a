-- ===== src/Sdp/Candidates/Laws.antt =====
-- Lines that leave the attributes of a section alone, and sections that such lines are taken from
-- or added to.
use webrtc_node.Base.{
  Str, codes, starts_with, str_eq_iff, List, [], ◌∷◌, ◌++◌, Option, ◌≡◌, refl, ap, sym, ◌∙◌, subst,
  map, Bool, true, false, not, keep, arith, All, Bool-cases, inl, inr,
}
use webrtc_node.Sdp.Sections.{Section, Sdp, inherit, attribute, new_section, add_line}
use webrtc_node.Sdp.Sections.Editing.{IsParsed}
use webrtc_node.Sdp.Sections.Reading.{
  NotMediaLine, IsMediaLine, IsRead, add_lines, lines-add_lines, add_line-IsRead,
}
use webrtc_node.Sdp.Candidates.{
  is_ice_candidate_line, strip_section, push_line, push_marked, has_line,
}

-- A line that is no attribute which `parseSdpMediaSections` reads, and no media line.
abbrev pub IsInert : Str → Type 0
IsInert line =
    NotMediaLine line
    × ((old : Option Str) → attribute "a=mid:" line old ≡ old)
    × ((old : Option Str) → attribute "a=ice-ufrag:" line old ≡ old)
    × ((old : Option Str) → attribute "a=ice-pwd:" line old ≡ old)

pub candidate-IsInert : (line : Str) → starts_with (codes "a=candidate:") line ≡ true → IsInert line
candidate-IsInert [] h = cc
candidate-IsInert (a ∷ []) h = ground arith
candidate-IsInert (a ∷ b ∷ []) h = ground arith
candidate-IsInert (a ∷ b ∷ c ∷ line) h =
    (ground arith, λ old. ground arith, λ old. ground arith, λ old. ground arith)

pub end-IsInert : IsInert (codes "a=end-of-candidates")
end-IsInert = (refl, λ old. refl, λ old. refl, λ old. refl)

pub ice_candidate-IsInert : (line : Str) → is_ice_candidate_line line ≡ true → IsInert line
unfolding is_ice_candidate_line
ice_candidate-IsInert line h = elim (Bool-cases (starts_with (codes "a=candidate:") line)) [
  | inl e ↦ candidate-IsInert line e
  | inr e ↦
      let same : line ≡ codes "a=end-of-candidates" =
        (str_eq_iff line (codes "a=end-of-candidates")).0 (rw e at h) in
      rw same end-IsInert
]

-- What an inert line changes.
abbrev with_lines : List Str → Section → Section
with_lines lines s = record s { lines = lines }

add_line_inert :
    (s : Section) (line : Str)
    → IsInert line
    → add_line line s ≡ with_lines (s.lines ++ line ∷ []) s
unfolding add_line
add_line_inert s line (_, a, b, c) = rw (a s.mid, b s.ice_ufrag, c s.ice_pwd)

with_lines-add_lines :
    (s : Section) (xs ys lines : List Str)
    → with_lines ys (add_lines (with_lines xs s) lines) ≡ with_lines ys (add_lines s lines)
unfolding add_lines add_line
with_lines-add_lines s xs ys [] = refl
with_lines-add_lines s xs ys (line ∷ lines) =
    with_lines-add_lines (add_line line s) (xs ++ line ∷ []) ys lines

abbrev pub is_kept : Str → Bool
is_kept line = not (is_ice_candidate_line line)

keep-add_lines :
    (s : Section) (tail : List Str)
    → with_lines [] (add_lines s (keep is_kept tail)) ≡ with_lines [] (add_lines s tail)
unfolding add_lines
keep-add_lines s [] = refl
keep-add_lines s (line ∷ tail) = elim (Bool-cases (is_ice_candidate_line line)) [
  | inl e ↦ rw e (
      keep-add_lines s tail
      ∙ sym (with_lines-add_lines s (s.lines ++ line ∷ []) [] tail)
      ∙ ap (λ t. with_lines [] (add_lines t tail))
          (sym (add_line_inert s line (ice_candidate-IsInert line e))))
  | inr e ↦ rw e (keep-add_lines (add_line line s) tail)
]

media-is_kept : (line : Str) → IsMediaLine line → is_ice_candidate_line line ≡ false
unfolding is_ice_candidate_line
media-is_kept [] h = cc
media-is_kept (c ∷ line) h = ground arith

All-keep {ℓ} : (P : Str → Type ℓ) (p : Str → Bool) (xs : List Str) → All P xs → All P (keep p xs)
All-keep P p [] h = tt
All-keep P p (x ∷ xs) (a, h) = elim (Bool-cases (p x)) [
  | inl e ↦ rw e (a, All-keep P p xs h)
  | inr e ↦ rw e (All-keep P p xs h)
]

strip_read :
    (head : Str) (tail : List Str)
    → IsMediaLine head
    → strip_section (add_lines (new_section head) tail)
      ≡ add_lines (new_section head) (keep is_kept tail)
strip_read head tail m =
    let n : Section = new_section head in
    let kept : List Str = head ∷ keep is_kept tail in
    let heads : (t : List Str) → (add_lines n t).lines ≡ head ∷ t =
      λ t. lines-add_lines n t ∙ unfold new_section in refl in
    let lines_kept : keep is_kept (add_lines n tail).lines ≡ kept =
      ap (keep is_kept) (heads tail) ∙ rw (media-is_kept head m) in
    ap (λ ls. with_lines ls (add_lines n tail)) lines_kept
    ∙ ap (with_lines kept) (sym (keep-add_lines n tail))
    ∙ ap (λ ls. with_lines ls (add_lines n (keep is_kept tail))) (sym (heads (keep is_kept tail)))

strip_section-IsRead : (s : Section) → IsRead s → IsRead (strip_section s)
strip_section-IsRead s r = record {
  head = r.head;
  tail = keep is_kept r.tail;
  head_media = r.head_media;
  tail_plain = All-keep NotMediaLine is_kept r.tail r.tail_plain;
  same = ap strip_section r.same ∙ strip_read r.head r.tail r.head_media;
}

push_line-IsRead : (line : Str) (s : Section) → IsInert line → IsRead s → IsRead (push_line line s)
push_line-IsRead line s i r = elim (Bool-cases (has_line line s.lines)) [
  | inl e ↦ rw e r
  | inr e ↦ rw e (subst IsRead (add_line_inert s line i) (add_line-IsRead s line r i.0))
]

map-IsRead :
    (f : Section → Section) (ss : List Section)
    → ((s : Section) → IsRead s → IsRead (f s))
    → All IsRead ss
    → All IsRead (map f ss)
map-IsRead f [] keeps h = tt
map-IsRead f (s ∷ ss) keeps (r, h) = (keeps s r, map-IsRead f ss keeps h)

map-strip-inherit :
    (u w : Option Str) (ss : List Section)
    → map strip_section (map (inherit u w) ss) ≡ map (inherit u w) (map strip_section ss)
unfolding inherit
map-strip-inherit u w [] = refl
map-strip-inherit u w (s ∷ ss) = rw (map-strip-inherit u w ss)

pub strip-IsParsed :
    (sdp : Sdp)
    → IsParsed sdp
    → IsParsed (record sdp { media_sections = map strip_section sdp.media_sections })
strip-IsParsed sdp r = record {
  plain = r.plain;
  sections = map strip_section r.sections;
  are_read = map-IsRead strip_section r.sections strip_section-IsRead r.are_read;
  inherited = ap (map strip_section) r.inherited ∙ map-strip-inherit _ _ r.sections;
}

push_marked-IsRead :
    (line : Str) (marks : List Bool) (ss : List Section)
    → IsInert line
    → All IsRead ss
    → All IsRead (push_marked line marks ss)
unfolding push_marked
push_marked-IsRead line [] ss i h = h
push_marked-IsRead line (b ∷ bs) [] i h = tt
push_marked-IsRead line (true ∷ bs) (s ∷ ss) i (r, h) =
    (push_line-IsRead line s i r, push_marked-IsRead line bs ss i h)
push_marked-IsRead line (false ∷ bs) (s ∷ ss) i (r, h) = (r, push_marked-IsRead line bs ss i h)

push_marked-inherit :
    (line : Str) (u w : Option Str) (marks : List Bool) (ss : List Section)
    → push_marked line marks (map (inherit u w) ss) ≡ map (inherit u w) (push_marked line marks ss)
unfolding push_marked inherit
push_marked-inherit line u w [] ss = refl
push_marked-inherit line u w (b ∷ bs) [] = refl
push_marked-inherit line u w (true ∷ bs) (s ∷ ss) = rw (push_marked-inherit line u w bs ss)
push_marked-inherit line u w (false ∷ bs) (s ∷ ss) = rw (push_marked-inherit line u w bs ss)

pub push-IsParsed :
    (line : Str) (marks : List Bool) (sdp : Sdp)
    → IsInert line
    → IsParsed sdp
    → IsParsed (record sdp { media_sections = push_marked line marks sdp.media_sections })
push-IsParsed line marks sdp i r = record {
  plain = r.plain;
  sections = push_marked line marks r.sections;
  are_read = push_marked-IsRead line marks r.sections i r.are_read;
  inherited =
      ap (push_marked line marks) r.inherited ∙ push_marked-inherit line _ _ marks r.sections;
}
