-- ===== src/Sdp/Candidates/Stripping.antt =====
-- Taking the ICE candidates out of a description.
use webrtc_node.Base.{
  Str, codes, starts_with, List, [], ◌∷◌, ◌++◌, ◌≡◌, refl, ap, sym, ◌∙◌, map, Bool, true, false,
  ◌||◌, keep, any, arith, All, All-append, Bool-cases, inl, inr, ℕ, ◌+◌,
}
use webrtc_node.Sdp.Lines.{is_empty, split_sdp_lines}
use webrtc_node.Sdp.Lines.Laws.{IsLine, split_sdp_lines-IsLine, split_sdp_lines-join_lines}
use webrtc_node.Sdp.Sections.{
  Section, Sdp, section_lines, parse_sdp_media_sections, serialize_sdp, parse_lines,
}
use webrtc_node.Sdp.Sections.Laws.{sdp_lines, parse-keeps_lines}
use webrtc_node.Sdp.Sections.Editing.{IsParsed, parse_lines-IsParsed, parse_lines-lines}
use webrtc_node.Sdp.Description.{Description, is_no_media_sdp}
use webrtc_node.Sdp.Candidates.{
  is_ice_candidate_line, strip_section, strip_ice_candidate_lines, extract_ice_candidates,
  candidates_of_lines, candidates_of_sections,
}
use webrtc_node.Sdp.Candidates.Laws.{is_kept, strip-IsParsed}

pub parse-IsParsed : (sdp : Str) → IsParsed (parse_sdp_media_sections sdp)
unfolding parse_sdp_media_sections
parse-IsParsed sdp = parse_lines-IsParsed (split_sdp_lines sdp)

-- Writing a parsed description, with whole lines, and reading it again.
pub parse-serialize_of_lines :
    (sdp : Sdp)
    → IsParsed sdp
    → All IsLine (sdp_lines sdp)
    → parse_sdp_media_sections (serialize_sdp sdp) ≡ sdp
unfolding parse_sdp_media_sections serialize_sdp
parse-serialize_of_lines sdp r h =
    ap parse_lines (split_sdp_lines-join_lines (sdp_lines sdp) h) ∙ parse_lines-lines sdp r

pub parse-IsLine : (sdp : Str) → All IsLine (sdp_lines (parse_sdp_media_sections sdp))
parse-IsLine sdp = rw (parse-keeps_lines sdp) (split_sdp_lines-IsLine sdp)

pub All-append_left {ℓ} : (P : Str → Type ℓ) (xs ys : List Str) → All P (xs ++ ys) → All P xs
All-append_left P [] ys h = tt
All-append_left P (x ∷ xs) ys (a, h) = (a, All-append_left P xs ys h)

pub All-append_right {ℓ} : (P : Str → Type ℓ) (xs ys : List Str) → All P (xs ++ ys) → All P ys
All-append_right P [] ys h = h
All-append_right P (x ∷ xs) ys (a, h) = All-append_right P xs ys h

All-keep_lines {ℓ} : (P : Str → Type ℓ) (xs : List Str) → All P xs → All P (keep is_kept xs)
All-keep_lines P [] h = tt
All-keep_lines P (x ∷ xs) (a, h) = elim (Bool-cases (is_ice_candidate_line x)) [
  | inl e ↦ rw e (All-keep_lines P xs h)
  | inr e ↦ rw e (a, All-keep_lines P xs h)
]

All-strip {ℓ} :
    (P : Str → Type ℓ) (ss : List Section)
    → All P (section_lines ss)
    → All P (section_lines (map strip_section ss))
All-strip P [] h = tt
All-strip P (s ∷ ss) h =
    All-append P (keep is_kept s.lines) _ (All-keep_lines P s.lines (All-append_left P s.lines _ h))
      (All-strip P ss (All-append_right P s.lines _ h))

abbrev stripped_sdp : Sdp → Sdp
stripped_sdp sdp = record sdp { media_sections = map strip_section sdp.media_sections }

parse-serialize-strip :
    (sdp : Str)
    → parse_sdp_media_sections (serialize_sdp (stripped_sdp (parse_sdp_media_sections sdp)))
      ≡ stripped_sdp (parse_sdp_media_sections sdp)
parse-serialize-strip sdp =
    let p : Sdp = parse_sdp_media_sections sdp in
    parse-serialize_of_lines (stripped_sdp p) (strip-IsParsed p (parse-IsParsed sdp)) (
      All-append IsLine p.session_lines _
        (All-append_left IsLine p.session_lines _ (parse-IsLine sdp))
        (All-strip IsLine p.media_sections
          (All-append_right IsLine p.session_lines _ (parse-IsLine sdp))))

any-append : (p : Str → Bool) (xs ys : List Str) → any p (xs ++ ys) ≡ (any p xs || any p ys)
any-append p [] ys = refl
any-append p (x ∷ xs) ys = ground (arith, any-append p xs ys)

keep_all : (xs : List Str) → any is_ice_candidate_line xs ≡ false → keep is_kept xs ≡ xs
keep_all [] h = refl
keep_all (x ∷ xs) h = ground (arith, keep_all xs)

strip_none :
    (ss : List Section)
    → any is_ice_candidate_line (section_lines ss) ≡ false
    → map strip_section ss ≡ ss
strip_none [] h = refl
strip_none (s ∷ ss) h =
    let both : (any is_ice_candidate_line s.lines || any is_ice_candidate_line (section_lines ss))
        ≡ false =
      sym (any-append is_ice_candidate_line s.lines (section_lines ss)) ∙ h in
    let e : strip_section s ≡ s =
      ap (λ ls. record s { lines = ls }) (keep_all s.lines (ground arith)) in
    rw (e, strip_none ss (ground arith))

-- A description without media is left alone.
abbrev pub is_skipped : Str → Bool
is_skipped sdp = is_empty sdp || is_no_media_sdp sdp

-- A stripped description is read as the one with stripped sections.
pub parse-strip_lem :
    (d : Description)
    → is_skipped d.sdp ≡ false
    → parse_sdp_media_sections (strip_ice_candidate_lines d).sdp
      ≡ record (parse_sdp_media_sections d.sdp) {
        media_sections = map strip_section (parse_sdp_media_sections d.sdp).media_sections;
      }
unfolding strip_ice_candidate_lines
parse-strip_lem d h =
    let ls : List Str = section_lines (parse_sdp_media_sections d.sdp).media_sections in
    elim (Bool-cases (any is_ice_candidate_line ls)) [
      | inl e ↦ rw (h, e) (parse-serialize-strip d.sdp)
      | inr e ↦
          rw (h, e)
            (ap (λ ss. record (parse_sdp_media_sections d.sdp) { media_sections = ss })
              (sym (strip_none (parse_sdp_media_sections d.sdp).media_sections e)))
    ]

or_eq_false : (a b : Bool) → (a || b) ≡ false → a ≡ false
or_eq_false false b h = refl
or_eq_false true b h = cc

not_candidate :
    (line : Str)
    → is_ice_candidate_line line ≡ false
    → starts_with (codes "a=candidate:") line ≡ false
unfolding is_ice_candidate_line
not_candidate line h = or_eq_false (starts_with (codes "a=candidate:") line) _ h

candidates_of_kept :
    (i : ℕ) (s : Section) (ls : List Str) → candidates_of_lines i s (keep is_kept ls) ≡ []
unfolding candidates_of_lines
candidates_of_kept i s [] = refl
candidates_of_kept i s (l ∷ ls) = elim (Bool-cases (is_ice_candidate_line l)) [
  | inl e ↦ rw e (candidates_of_kept i s ls)
  | inr e ↦ rw e (rw (not_candidate l e) (candidates_of_kept i s ls))
]

candidates_of_stripped :
    (i : ℕ) (ss : List Section) → candidates_of_sections i (map strip_section ss) ≡ []
unfolding candidates_of_sections
candidates_of_stripped i [] = refl
candidates_of_stripped i (s ∷ ss) =
    rw (candidates_of_kept i (strip_section s) s.lines) (candidates_of_stripped (i + 1) ss)

strip_skipped : (d : Description) → is_skipped d.sdp ≡ true → strip_ice_candidate_lines d ≡ d
unfolding strip_ice_candidate_lines
strip_skipped d e = rw e

extract_skipped : (d : Description) → is_skipped d.sdp ≡ true → extract_ice_candidates d ≡ []
unfolding extract_ice_candidates
extract_skipped d e = rw e

extract_none :
    (d : Description)
    → candidates_of_sections 0 (parse_sdp_media_sections d.sdp).media_sections ≡ []
    → extract_ice_candidates d ≡ []
unfolding extract_ice_candidates
extract_none d e = elim (Bool-cases (is_skipped d.sdp)) [ inl f ↦ rw f | inr f ↦ rw f e ]

-- No candidate is left in a stripped description.
pub extract-strip : (d : Description) → extract_ice_candidates (strip_ice_candidate_lines d) ≡ []
extract-strip d = elim (Bool-cases (is_skipped d.sdp)) [
  | inl e ↦ rw (strip_skipped d e) (extract_skipped d e)
  | inr e ↦ extract_none (strip_ice_candidate_lines d) (
      rw (parse-strip_lem d e)
        (candidates_of_stripped 0 (parse_sdp_media_sections d.sdp).media_sections))
]
