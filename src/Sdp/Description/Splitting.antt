-- ===== src/Sdp/Description/Splitting.antt =====
-- The lines of a text, against what `sdpSyntaxErrorLine` splits it into.
use webrtc_node.Base.{
  ℕ, ◌≡◌, refl, ap, sym, ◌∙◌, subst, Str, List, [], ◌∷◌, ◌++◌, false, arith, All, Bool-cases, inl,
  inr, ◌⊎◌, ◌==◌, if◌then◌else◌,
}
use webrtc_node.Sdp.Lines.{starts_lf, onto_first}
use webrtc_node.Sdp.Description.{split_any}

-- A line break: CR LF, LF, or a CR without an LF behind it.
abbrev pub IsBreak : Str → Str → Type 0
IsBreak end rest =
    (end ≡ 13 ∷ 10 ∷ []) ⊎ ((end ≡ 10 ∷ []) ⊎ ((end ≡ 13 ∷ []) × ((s : Str) → ¬ rest ≡ 10 ∷ s)))

abbrev pub IsUnbroken : Str → Type 0
IsUnbroken s = All (λ c. (¬ c ≡ 10) × (¬ c ≡ 13)) s

-- The lines of a text.
abbrev pub AreLinesOf : Str → List Str → Type 0
AreLinesOf s [] = ⊥
AreLinesOf s (p ∷ []) = (s ≡ p) × IsUnbroken p
AreLinesOf s (p ∷ q ∷ ps) =
    (end : Str) × (rest : Str) × (s ≡ p ++ end ++ rest)
    × IsBreak end rest
    × IsUnbroken p
    × AreLinesOf rest (q ∷ ps)

break-AreLinesOf :
    (end s : Str) (l : List Str) → IsBreak end s → AreLinesOf s l → AreLinesOf (end ++ s) ([] ∷ l)
break-AreLinesOf end s [] b h = absurd h
break-AreLinesOf end s (p ∷ ps) b h = (end, s, refl, b, tt, h)

onto-AreLinesOf :
    (c : ℕ) (s : Str) (l : List Str)
    → (¬ c ≡ 10) × (¬ c ≡ 13)
    → AreLinesOf s l
    → AreLinesOf (c ∷ s) (onto_first c l)
onto-AreLinesOf c s [] n h = absurd h
onto-AreLinesOf c s (p ∷ []) n (e, u) = (ap (λ t. c ∷ t) e, (n, u))
onto-AreLinesOf c s (p ∷ q ∷ ps) n (end, rest, e, b, u, h) =
    (end, rest, ap (λ t. c ∷ t) e, b, (n, u), h)

no_lf : (s : Str) → starts_lf s ≡ false → (t : Str) → ¬ s ≡ 10 ∷ t
no_lf [] e t q = cc
no_lf (c ∷ s) e t q = let p : c ≡ 10 = cc in ground arith

heads : (c d : ℕ) (s t : Str) → c ∷ s ≡ d ∷ t → c ≡ d
heads c d s t e = cc

after_lf : (s : Str) (l : List Str) → AreLinesOf (10 ∷ s) ([] ∷ l) → AreLinesOf s l
after_lf s [] (e, u) = cc
after_lf s (q ∷ ps) (end, rest, e, inl b, u, h) =
    let k : 10 ∷ s ≡ 13 ∷ 10 ∷ rest = e ∙ ap (λ x. x ++ rest) b in
    let f = heads 10 13 s (10 ∷ rest) k in absurd (omega arith)
after_lf s (q ∷ ps) (end, rest, e, inr (inl b), u, h) =
    let k : 10 ∷ s ≡ 10 ∷ rest = e ∙ ap (λ x. x ++ rest) b in
    let f : rest ≡ s = cc in subst (λ x. AreLinesOf x (q ∷ ps)) f h
after_lf s (q ∷ ps) (end, rest, e, inr (inr (b, n)), u, h) =
    let k : 10 ∷ s ≡ 13 ∷ rest = e ∙ ap (λ x. x ++ rest) b in
    let f = heads 10 13 s rest k in absurd (omega arith)

carriage :
    (s : Str)
    → AreLinesOf s (split_any s)
    → AreLinesOf (13 ∷ s) (if starts_lf s then split_any s else [] ∷ split_any s)
unfolding split_any
carriage [] h = break-AreLinesOf (13 ∷ []) [] (split_any []) (inr (inr (refl, λ t q. cc))) h
carriage (c ∷ s) h = elim (Bool-cases (c == 10)) [
  | inr e ↦
      let f : (t : Str) → ¬ c ∷ s ≡ 10 ∷ t = no_lf (c ∷ s) e in
      rw e (break-AreLinesOf (13 ∷ []) (c ∷ s) _ (inr (inr (refl, f))) (rw e at h))
  | inl e ↦
      let q : 10 ≡ c = ground arith in
      let k : AreLinesOf (c ∷ s) ([] ∷ split_any s) = rw e at h in
      rw e (
        subst (λ x. AreLinesOf (13 ∷ x ∷ s) ([] ∷ split_any s)) q
          (break-AreLinesOf (13 ∷ 10 ∷ []) s (split_any s) (inl refl) (
            after_lf s (split_any s)
              (subst (λ x. AreLinesOf (x ∷ s) ([] ∷ split_any s)) (sym q) k))))
]

pub split_any-AreLinesOf : (s : Str) → AreLinesOf s (split_any s)
unfolding split_any
split_any-AreLinesOf [] = (refl, tt)
split_any-AreLinesOf (c ∷ s) = elim (Bool-cases (c == 10)) [
  | inl e ↦
      let q : 10 ≡ c = ground arith in
      rw e (
        subst (λ x. AreLinesOf (x ∷ s) ([] ∷ split_any s)) q
          (break-AreLinesOf (10 ∷ []) s (split_any s) (inr (inl refl)) (split_any-AreLinesOf s)))
  | inr e ↦ elim (Bool-cases (c == 13)) [
    | inr f ↦
        rw (e, f)
          (onto-AreLinesOf c s (split_any s) (λ q. ground arith, λ q. ground arith)
            (split_any-AreLinesOf s))
    | inl f ↦
        let q : 13 ≡ c = ground arith in
        rw (e, f)
          (subst (λ x. AreLinesOf (x ∷ s) (if starts_lf s then split_any s else [] ∷ split_any s)) q
            (carriage s (split_any-AreLinesOf s)))
  ]
]
