-- ===== src/Sdp/Description/Syntax.antt =====
-- The line that `sdpSyntaxErrorLine` reports, against the lines of a text and their form.
use webrtc_node.Base.{
  ℕ, ◌+◌, ◌≤◌, ◌≡◌, refl, ap, sym, subst, Str, codes, str_eq_iff, List, [], ◌∷◌, ◌++◌, Option, none,
  some, true, false, arith, All, length, Bool-cases, inl, inr, ◌⊎◌,
}
use webrtc_node.Sdp.Description.{
  is_sdp_line, first_bad_line, split_any, first_is_version, sdp_syntax_error_line,
}
use webrtc_node.Sdp.Description.Splitting.{AreLinesOf, split_any-AreLinesOf}

-- A line `x=…` for a small letter x.
abbrev pub IsSdpLine : Str → Type 0
IsSdpLine line = (c : ℕ) × (rest : Str) × (b'a' ≤ c) × (c ≤ b'z') × (line ≡ c ∷ b'=' ∷ rest)

-- The first line that is not of this form and is not an empty last line.
pub record IsFirstBad (lines : List Str) (n : ℕ) : Type 0 where
  pub before : List Str
  pub bad : Str
  pub behind : List Str
  pub is_split : lines ≡ before ++ bad ∷ behind
  pub is_number : n ≡ length before + 1
  pub good_before : All IsSdpLine before
  pub is_bad : ¬ IsSdpLine bad
  pub not_end : ¬ ((bad ≡ []) × (behind ≡ []))

-- All lines are of this form, but an empty last one.
abbrev pub AreGood : List Str → Type 0
AreGood [] = Unit
AreGood (l ∷ ls) = (IsSdpLine l ⊎ ((l ≡ []) × (ls ≡ []))) × AreGood ls

abbrev pub IsOutcome : List Str → Option ℕ → Type 0
IsOutcome lines none = AreGood lines
IsOutcome lines (some n) = IsFirstBad lines n

-- The first line is `v=0`.
abbrev pub HasVersion : List Str → Type 0
HasVersion lines = (rest : List Str) × (lines ≡ codes "v=0" ∷ rest)

-- What is reported: 1 where the first line is not `v=0`, and else the first line that is bad.
abbrev pub IsReport : List Str → Option ℕ → Type 0
IsReport lines report =
    ((¬ HasVersion lines) × (report ≡ some 1)) ⊎ (HasVersion lines × IsOutcome lines report)

is_sdp_line-good : (l : Str) → is_sdp_line l ≡ true → IsSdpLine l
is_sdp_line-good [] e = cc
is_sdp_line-good (c ∷ []) e = cc
is_sdp_line-good (c ∷ d ∷ s) e =
    let q : b'=' ≡ d = ground arith in
    (c, s, ground arith, ground arith, ap (λ x. c ∷ x ∷ s) (sym q))

is_sdp_line-bad : (l : Str) → is_sdp_line l ≡ false → ¬ IsSdpLine l
is_sdp_line-bad l e (c, s, a, b, q) =
    let f : is_sdp_line (c ∷ b'=' ∷ s) ≡ false = subst (λ x. is_sdp_line x ≡ false) q e in
    ground arith

-- The outcome of the loop from an index on.
abbrev LoopOutcome : ℕ → List Str → Option ℕ → Type 0
LoopOutcome index lines none = AreGood lines
LoopOutcome index lines (some n) = (k : ℕ) × (n ≡ index + k) × IsFirstBad lines k

good-LoopOutcome :
    (index : ℕ) (l : Str) (ls : List Str) (o : Option ℕ)
    → IsSdpLine l
    → LoopOutcome (index + 1) ls o
    → LoopOutcome index (l ∷ ls) o
good-LoopOutcome index l ls none g h = (inl g, h)
good-LoopOutcome index l ls (some n) g (k, e, h) = (
  k + 1,
  omega arith,
  record {
    before = l ∷ h.before;
    bad = h.bad;
    behind = h.behind;
    is_split = ap (λ x. l ∷ x) h.is_split;
    is_number = (let m = h.is_number in omega arith);
    good_before = (g, h.good_before);
    is_bad = h.is_bad;
    not_end = h.not_end;
  },
)

bad-LoopOutcome :
    (index : ℕ) (l : Str) (ls : List Str)
    → is_sdp_line l ≡ false
    → ¬ ((l ≡ []) × (ls ≡ []))
    → LoopOutcome index (l ∷ ls) (some (index + 1))
bad-LoopOutcome index l ls e n = (
  1,
  refl,
  record {
    before = [];
    bad = l;
    behind = ls;
    is_split = refl;
    is_number = refl;
    good_before = tt;
    is_bad = is_sdp_line-bad l e;
    not_end = n;
  },
)

first_bad_line-LoopOutcome :
    (index : ℕ) (ls : List Str) → LoopOutcome index ls (first_bad_line index ls)
unfolding first_bad_line
first_bad_line-LoopOutcome index [] = tt
first_bad_line-LoopOutcome index ([] ∷ []) = (inr (refl, refl), tt)
first_bad_line-LoopOutcome index ([] ∷ m ∷ ls) =
    bad-LoopOutcome index [] (m ∷ ls) refl (λ (p, q). cc)
first_bad_line-LoopOutcome index ((c ∷ l) ∷ ls) = elim (Bool-cases (is_sdp_line (c ∷ l))) [
  | inl e ↦ rw e (
      good-LoopOutcome index (c ∷ l) ls (first_bad_line (index + 1) ls) (is_sdp_line-good (c ∷ l) e)
        (first_bad_line-LoopOutcome (index + 1) ls))
  | inr e ↦ rw e (bad-LoopOutcome index (c ∷ l) ls e (λ (p, q). cc))
]

loop-IsOutcome : (ls : List Str) (o : Option ℕ) → LoopOutcome 0 ls o → IsOutcome ls o
loop-IsOutcome ls none h = h
loop-IsOutcome ls (some n) (k, e, h) = let q : k ≡ n = omega arith in subst (IsFirstBad ls) q h

version-has : (ls : List Str) → first_is_version ls ≡ true → HasVersion ls
version-has [] e = cc
version-has (l ∷ ls) e = (ls, ap (λ x. x ∷ ls) ((str_eq_iff l (codes "v=0")).0 e))

version-lacks : (ls : List Str) → first_is_version ls ≡ false → ¬ HasVersion ls
version-lacks ls e (rest, q) =
    let f : first_is_version (codes "v=0" ∷ rest) ≡ false =
      subst (λ x. first_is_version x ≡ false) q e in
    cc

-- A text has lines, separated by CR LF, LF or CR, and the check reports 1 if the first is not
-- `v=0`; else the number of the first line that is not of the form `x=…`, counted from 1, where an
-- empty last line is no such line; and nothing if there is no such line.
pub sdp_syntax_error_line-IsReport :
    (sdp : Str)
    → (lines : List Str) × AreLinesOf sdp lines × IsReport lines (sdp_syntax_error_line sdp)
unfolding sdp_syntax_error_line
sdp_syntax_error_line-IsReport sdp =
    let ls : List Str = split_any sdp in
    (
      ls,
      split_any-AreLinesOf sdp,
      elim (Bool-cases (first_is_version ls)) [
        | inl e ↦ inr (
          version-has ls e,
          rw e (loop-IsOutcome ls (first_bad_line 0 ls) (first_bad_line-LoopOutcome 0 ls)),
        )
        | inr e ↦ inl (version-lacks ls e, rw e refl)
      ],
    )
