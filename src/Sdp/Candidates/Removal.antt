-- ===== src/Sdp/Candidates/Removal.antt =====
-- What a description is without its ICE candidates (`stripIceCandidateLinesFromDescription`).
use webrtc_node.Base.{
  Str, codes, starts_with, starts_with-append, str_eq, str_eq_iff, List, [], ◌∷◌, ◌++◌, ◌≡◌, refl,
  ap, sym, subst, map, Bool, true, false, ◌||◌, keep, arith, Bool-cases, inl, inr, ◌⊎◌,
}
use webrtc_node.Sdp.Sections.{Section, Sdp, parse_sdp_media_sections}
use webrtc_node.Sdp.Description.{Description}
use webrtc_node.Sdp.Candidates.{is_ice_candidate_line, strip_section, strip_ice_candidate_lines}
use webrtc_node.Sdp.Candidates.Laws.{is_kept}
use webrtc_node.Sdp.Candidates.Stripping.{is_skipped, parse-strip_lem}

-- The lines that tell of candidates: `a=candidate:` and anything, and `a=end-of-candidates`.
abbrev pub IsCandidateText : Str → Type 0
IsCandidateText line =
    ((rest : Str) × (line ≡ codes "a=candidate:" ++ rest)) ⊎ (line ≡ codes "a=end-of-candidates")

-- The second lines are the first without those that tell of candidates.
pub data Stripped : List Str → List Str → Type 0 where
  end : Stripped [] []
  drops :
      {line : Str} {ls ms : List Str}
      → IsCandidateText line
      → Stripped ls ms
      → Stripped (line ∷ ls) ms
  keeps :
      {line : Str} {ls ms : List Str}
      → ¬ IsCandidateText line
      → Stripped ls ms
      → Stripped (line ∷ ls) (line ∷ ms)

-- The second sections are the first, in order, with stripped lines and the same attributes.
abbrev pub AreStripped : List Section → List Section → Type 0
AreStripped [] [] = Unit
AreStripped (s ∷ ss) (t ∷ ts) =
    (t ≡ record s { lines = t.lines }) × Stripped s.lines t.lines × AreStripped ss ts
AreStripped _ _ = ⊥

starts_with-split : (p s : Str) → starts_with p s ≡ true → (rest : Str) × (s ≡ p ++ rest)
starts_with-split [] s e = (s, refl)
starts_with-split (c ∷ p) [] e = cc
starts_with-split (c ∷ p) (d ∷ s) e =
    let k : d ≡ c = ground arith in
    let (rest, q) = starts_with-split p s (ground arith) in (rest, rw (k, q) refl)

or-split : (a b : Bool) → (a || b) ≡ true → (a ≡ true) ⊎ (b ≡ true)
or-split true b e = inl refl
or-split false b e = inr e

tells : (line : Str) → is_ice_candidate_line line ≡ true → IsCandidateText line
unfolding is_ice_candidate_line
tells line e = elim (or-split (starts_with (codes "a=candidate:") line) _ e) [
  | inl f ↦ inl (starts_with-split (codes "a=candidate:") line f)
  | inr f ↦ inr ((str_eq_iff line (codes "a=end-of-candidates")).0 f)
]

or_false : (a b : Bool) → (a || b) ≡ false → (a ≡ false) × (b ≡ false)
or_false true b e = cc
or_false false b e = (refl, e)

tells_not : (line : Str) → is_ice_candidate_line line ≡ false → ¬ IsCandidateText line
unfolding is_ice_candidate_line
tells_not line e k =
    let (f, g) = or_false (starts_with (codes "a=candidate:") line) _ e in
    elim k [
      | inl (rest, p) ↦
          let a : starts_with (codes "a=candidate:") line ≡ true =
            subst (λ l. starts_with (codes "a=candidate:") l ≡ true) (sym p)
              (starts_with-append (codes "a=candidate:") rest) in
          cc
      | inr p ↦
          let a : str_eq line (codes "a=end-of-candidates") ≡ true =
            (str_eq_iff line (codes "a=end-of-candidates")).1 p in
          cc
    ]

keep-Stripped : (ls : List Str) → Stripped ls (keep is_kept ls)
keep-Stripped [] = end
keep-Stripped (l ∷ ls) = elim (Bool-cases (is_ice_candidate_line l)) [
  | inl e ↦ rw e (drops (tells l e) (keep-Stripped ls))
  | inr e ↦ rw e (keeps (tells_not l e) (keep-Stripped ls))
]

strip-AreStripped : (ss : List Section) → AreStripped ss (map strip_section ss)
strip-AreStripped [] = tt
strip-AreStripped (s ∷ ss) = (refl, keep-Stripped s.lines, strip-AreStripped ss)

-- Stripping a description that has media keeps, as it is read, its session lines, the number and
-- order of its sections and their attributes; of the lines of each section exactly those are gone
-- that begin with `a=candidate:` or are `a=end-of-candidates`.
pub parse-strip :
    (d : Description)
    → is_skipped d.sdp ≡ false
    → ((parse_sdp_media_sections (strip_ice_candidate_lines d).sdp).session_lines
        ≡ (parse_sdp_media_sections d.sdp).session_lines)
      × AreStripped
          (parse_sdp_media_sections d.sdp).media_sections
          (parse_sdp_media_sections (strip_ice_candidate_lines d).sdp).media_sections
parse-strip d h =
    let p : Sdp = parse_sdp_media_sections d.sdp in
    let e = parse-strip_lem d h in
    (
      ap Sdp.session_lines e,
      subst (λ (q : Sdp). AreStripped p.media_sections q.media_sections) (sym e)
          (strip-AreStripped p.media_sections),
    )
