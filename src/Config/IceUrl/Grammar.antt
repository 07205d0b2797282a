-- ===== src/Config/IceUrl/Grammar.antt =====
-- The form of the URL of an ICE server, apart from the code that checks it.
use webrtc_node.Base.{
  ℕ, ◌≤◌, List, [], ◌∷◌, ◌++◌, none, some, false, ltb, ◌==◌, ◌≡◌, refl, ap, ◌∙◌, subst, arith, any,
  length, map, All, Str, lower_code, Bool-cases, Option-cases, inl, inr, ◌⊎◌,
}
use webrtc_node.Config.IceUrl.{
  onto_part, split_scheme, is_line_break, is_scheme_code, split_at, part, read_number,
}

-- Texts without a code unit, and with decimal digits alone.
abbrev pub IsFreeOf : ℕ → Str → Type 0
IsFreeOf d s = All (λ c. ¬ c ≡ d) s

abbrev pub IsPort : Str → Type 0
IsPort s = All (λ c. (b'0' ≤ c) × (c ≤ b'9')) s × (read_number 0 s ≤ 65535)

-- A host that is not empty, and a port, which may be empty.
pub data Address : Str → Type 0 where
  host_only : (host : Str) → ¬ host ≡ [] → IsFreeOf b':' host → Address host
  host_port :
      (host port : Str)
      → ¬ host ≡ []
      → IsFreeOf b':' host
      → IsPort port
      → Address (host ++ b':' ∷ port)
  bracketed : (host : Str) → ¬ host ≡ [] → IsFreeOf b']' host → Address (b'[' ∷ host ++ b']' ∷ [])
  bracketed_port :
      (host port : Str)
      → ¬ host ≡ []
      → IsFreeOf b']' host
      → IsPort port
      → Address (b'[' ∷ host ++ b']' ∷ b':' ∷ port)

-- The parts of a text between the separators, none of which has one.
abbrev pub Splits : ℕ → Str → List Str → Type 0
Splits d s [] = ⊥
Splits d s (p ∷ []) = (s ≡ p) × IsFreeOf d p
Splits d s (p ∷ q ∷ ps) = (rest : Str) × (s ≡ p ++ d ∷ rest) × IsFreeOf d p × Splits d rest (q ∷ ps)

onto-Splits :
    (d c : ℕ) (s : Str) (l : List Str) → ¬ c ≡ d → Splits d s l → Splits d (c ∷ s) (onto_part c l)
onto-Splits d c s [] n h = absurd h
onto-Splits d c s (p ∷ []) n (e, f) = (ap (λ t. c ∷ t) e, (n, f))
onto-Splits d c s (p ∷ q ∷ ps) n (rest, e, f, k) = (rest, ap (λ t. c ∷ t) e, (n, f), k)

first-Splits : (d : ℕ) (s : Str) (l : List Str) → Splits d s l → Splits d (d ∷ s) ([] ∷ l)
first-Splits d s [] h = absurd h
first-Splits d s (p ∷ ps) h = (s, refl, tt, h)

pub split_at-Splits : (d : ℕ) (s : Str) → Splits d s (split_at d s)
unfolding split_at
split_at-Splits d [] = (refl, tt)
split_at-Splits d (c ∷ s) = elim (Bool-cases (c == d)) [
  | inl e ↦
      let p : d ≡ c = ground arith in
      rw e (
        subst (λ x. Splits d (x ∷ s) ([] ∷ split_at d s)) p
          (first-Splits d s (split_at d s) (split_at-Splits d s)))
  | inr e ↦ rw e (onto-Splits d c s (split_at d s) (λ q. ground arith) (split_at-Splits d s))
]

-- At most one separator: two parts, or the second is missing.
pub two_parts :
    (d : ℕ) (s : Str) (l : List Str)
    → ltb 2 (length l) ≡ false
    → Splits d s l
    → IsFreeOf d (part 0 l)
      × (((s ≡ part 0 l) × (part 1 l ≡ []))
          ⊎ ((s ≡ part 0 l ++ d ∷ part 1 l) × IsFreeOf d (part 1 l)))
two_parts d s [] n h = absurd h
two_parts d s (p ∷ []) n (e, f) = (f, inl (e, refl))
two_parts d s (p ∷ q ∷ []) n (rest, e, f, (e', f')) = (f, inr (e ∙ ap (λ t. p ++ d ∷ t) e', f'))
two_parts d s (p ∷ q ∷ r ∷ l) n h = absurd (ground arith)

-- The text before the colon, with letters of both cases, is the scheme.
pub split_scheme-splits :
    (u scheme rest : Str)
    → split_scheme u ≡ some (scheme, rest)
    → (raw : Str) × (u ≡ raw ++ b':' ∷ rest) × (map lower_code raw ≡ scheme)
unfolding split_scheme
split_scheme-splits [] scheme rest e = cc
split_scheme-splits (c ∷ s) scheme rest e = elim (Bool-cases (c == b':')) [
  | inl f ↦
      let p : c ≡ b':' = ground arith in
      elim (Bool-cases (any is_line_break s)) [
        | inl g ↦ let k : none ≡ some (scheme, rest) = rw (f, g) at e in cc
        | inr g ↦
            let k : some ([], s) ≡ some (scheme, rest) = rw (f, g) at e in
            let k0 : [] ≡ scheme = cc in let k1 : s ≡ rest = cc in ([], (λ i. p i ∷ k1 i), k0)
      ]
  | inr f ↦ elim (Bool-cases (is_scheme_code c)) [
    | inr g ↦ let k : none ≡ some (scheme, rest) = rw (f, g) at e in cc
    | inl g ↦ elim (Option-cases (split_scheme s)) [
      | inl n ↦ let k : none ≡ some (scheme, rest) = rw (f, g, n) at e in cc
      | inr ((a, t), n) ↦
          let k : some (lower_code c ∷ a, t) ≡ some (scheme, rest) = rw (f, g, n) at e in
          let k1 : t ≡ rest = cc in
          let k0 : lower_code c ∷ a ≡ scheme = cc in
          let (raw, q, m) = split_scheme-splits s a t n in
          (
            c ∷ raw,
            ap (λ x. c ∷ x) q ∙ ap (λ x. c ∷ raw ++ b':' ∷ x) k1,
            ap (λ x. lower_code c ∷ x) m ∙ k0,
          )
    ]
  ]
]
