-- ===== src/Sdp/Candidates/Appending.antt =====
-- Adding a candidate to a description.
use webrtc_node.Base.{
  ℕ, Str, codes, starts_with, strip_prefix, List, [], ◌∷◌, ◌++◌, some, ◌≡◌, refl, ap, sym, Bool,
  true, false, any, arith, All, All-append, All-snoc, Bool-cases, Option-cases, inl, inr,
  if◌then◌else◌, Result, ok, err, operation_error, ◌>>=◌,
}
use webrtc_node.Sdp.Lines.Laws.{IsLine, NoLf}
use webrtc_node.Sdp.Sections.{Section, Sdp, section_lines, parse_sdp_media_sections, serialize_sdp}
use webrtc_node.Sdp.Description.{Description}
use webrtc_node.Sdp.Candidates.{
  Candidate, validate_candidate_syntax, select_candidate_sections, push_line, push_marked, is_true,
  candidate_line, append_remote_candidate, has_line,
}
use webrtc_node.Sdp.Candidates.Laws.{IsInert, candidate-IsInert, end-IsInert, push-IsParsed}
use webrtc_node.Sdp.Candidates.Stripping.{
  is_skipped, parse-IsParsed, parse-IsLine, parse-serialize_of_lines, All-append_left,
  All-append_right,
}

starts_with_of_strip : (p s rest : Str) → strip_prefix p s ≡ some rest → starts_with p s ≡ true
starts_with_of_strip [] s rest h = refl
starts_with_of_strip (c ∷ p) [] rest h = cc
starts_with_of_strip (c ∷ p) (d ∷ s) rest h = ground (arith, starts_with_of_strip p s rest)

valid-starts_with :
    (c : ℕ) (s : Str)
    → validate_candidate_syntax (c ∷ s) ≡ true
    → starts_with (codes "candidate:") (c ∷ s) ≡ true
unfolding validate_candidate_syntax
valid-starts_with c s h = elim (Option-cases (strip_prefix (codes "candidate:") (c ∷ s))) [
  | inl e ↦ let f : false ≡ true = rw (e, validate_candidate_syntax) at h in cc
  | inr (rest, e) ↦ starts_with_of_strip (codes "candidate:") (c ∷ s) rest e
]

candidate_line-IsInert : (s : Str) → validate_candidate_syntax s ≡ true → IsInert (candidate_line s)
candidate_line-IsInert [] h = end-IsInert
candidate_line-IsInert (c ∷ s) h = candidate-IsInert (codes "a=" ++ c ∷ s) (valid-starts_with c s h)

candidate_line-IsLine : (s : Str) → NoLf s → IsLine (candidate_line s)
candidate_line-IsLine [] h = (refl, omega arith)
candidate_line-IsLine (c ∷ s) h =
    (refl, (λ e. absurd (omega arith), (λ e. absurd (omega arith), h)))

All-push_marked {ℓ} :
    (P : Str → Type ℓ) (line : Str) (marks : List Bool) (ss : List Section)
    → P line
    → All P (section_lines ss)
    → All P (section_lines (push_marked line marks ss))
unfolding push_marked
All-push_marked P line [] ss p h = h
All-push_marked P line (b ∷ bs) [] p h = tt
All-push_marked P line (false ∷ bs) (s ∷ ss) p h =
    All-append P s.lines _ (All-append_left P s.lines _ h)
      (All-push_marked P line bs ss p (All-append_right P s.lines _ h))
All-push_marked P line (true ∷ bs) (s ∷ ss) p h =
    All-append P (push_line line s).lines _ pushed
      (All-push_marked P line bs ss p (All-append_right P s.lines _ h))
  where
    old : All P s.lines
    old = All-append_left P s.lines _ h

    pushed : All P (push_line line s).lines
    pushed = elim (Bool-cases (has_line line s.lines)) [
      | inl e ↦ rw e old
      | inr e ↦ rw e (All-snoc P s.lines line old p)
    ]

abbrev pushed_sdp : Str → List Bool → Sdp → Sdp
pushed_sdp line marks sdp = record sdp {
  media_sections = push_marked line marks sdp.media_sections;
}

parse-serialize-push :
    (line : Str) (marks : List Bool) (sdp : Str)
    → IsInert line
    → IsLine line
    → parse_sdp_media_sections
        (serialize_sdp (pushed_sdp line marks (parse_sdp_media_sections sdp)))
      ≡ pushed_sdp line marks (parse_sdp_media_sections sdp)
parse-serialize-push line marks sdp i l =
    let p : Sdp = parse_sdp_media_sections sdp in
    parse-serialize_of_lines (pushed_sdp line marks p)
      (push-IsParsed line marks p i (parse-IsParsed sdp))
      (All-append IsLine p.session_lines _
        (All-append_left IsLine p.session_lines _ (parse-IsLine sdp))
        (All-push_marked IsLine line marks p.media_sections l
          (All-append_right IsLine p.session_lines _ (parse-IsLine sdp))))

push_marked_none :
    (line : Str) (marks : List Bool) (ss : List Section)
    → any is_true marks ≡ false
    → push_marked line marks ss ≡ ss
unfolding push_marked
push_marked_none line [] ss h = refl
push_marked_none line (b ∷ bs) [] h = refl
push_marked_none line (true ∷ bs) (s ∷ ss) h = cc
push_marked_none line (false ∷ bs) (s ∷ ss) h = rw (push_marked_none line bs ss h)

-- The description that `append_remote_candidate` makes for given targets.
abbrev appended : Description → Candidate → List Bool → Description
appended d c marks =
    if any is_true marks
    then record {
      type = d.type;
      sdp =
          serialize_sdp
            (pushed_sdp (candidate_line c.candidate) marks (parse_sdp_media_sections d.sdp));
      js_only_ice_restart = false;
    }
    else d

append_inversion :
    (d : Description) (c : Candidate) (d' : Description)
    → is_skipped d.sdp ≡ false
    → append_remote_candidate d c ≡ ok d'
    → (marks : List Bool) × (validate_candidate_syntax c.candidate ≡ true)
      × (select_candidate_sections (parse_sdp_media_sections d.sdp).media_sections c ≡ ok marks)
      × (d' ≡ appended d c marks)
unfolding append_remote_candidate
append_inversion d c d' h e = elim (Bool-cases (validate_candidate_syntax c.candidate)) [
  | inr v ↦ let f : err operation_error ≡ ok d' = rw (h, v) at e in cc
  | inl v ↦
      go (select_candidate_sections (parse_sdp_media_sections d.sdp).media_sections c) refl
        (rw (h, v) at e) v
]
  where
    go :
        (r : Result (List Bool))
        → select_candidate_sections (parse_sdp_media_sections d.sdp).media_sections c ≡ r
        → (r >>= (λ marks. ok (appended d c marks))) ≡ ok d'
        → validate_candidate_syntax c.candidate ≡ true
        → (marks : List Bool) × (validate_candidate_syntax c.candidate ≡ true)
          × (select_candidate_sections (parse_sdp_media_sections d.sdp).media_sections c ≡ ok marks)
          × (d' ≡ appended d c marks)
    go (ok marks) s e v = (marks, v, s, cc)
    go (err f) s e v = cc

-- A description with a candidate is read as the one with the line in the selected sections.
pub parse-append_lem :
    (d : Description) (c : Candidate) (d' : Description)
    → is_skipped d.sdp ≡ false
    → NoLf c.candidate
    → append_remote_candidate d c ≡ ok d'
    → (marks : List Bool) × (select_candidate_sections
          (parse_sdp_media_sections d.sdp).media_sections
          c
        ≡ ok marks)
      × (parse_sdp_media_sections d'.sdp ≡ record (parse_sdp_media_sections d.sdp) {
        media_sections =
            push_marked
              (candidate_line c.candidate)
              marks
              (parse_sdp_media_sections d.sdp).media_sections;
      })
parse-append_lem d c d' h n e =
    let (marks, v, s, same) = append_inversion d c d' h e in
    let line : Str = candidate_line c.candidate in
    (
      marks,
      s,
      rw same (elim (Bool-cases (any is_true marks)) [
        | inl a ↦ rw a (
            parse-serialize-push line marks d.sdp (candidate_line-IsInert c.candidate v)
              (candidate_line-IsLine c.candidate n))
        | inr a ↦ rw a (
            ap (λ ss. record (parse_sdp_media_sections d.sdp) { media_sections = ss })
              (sym (push_marked_none line marks _ a)))
      ]),
    )
