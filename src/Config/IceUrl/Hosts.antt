-- ===== src/Config/IceUrl/Hosts.antt =====
-- The addresses that `validateIceServerUrl` accepts.
use webrtc_node.Base.{
  ◌≤◌, List, [], ◌∷◌, ◌++◌, true, false, ltb, leb, ◌==◌, ◌≡◌, refl, ap, sym, ◌∙◌, subst, arith, all,
  length, All, ok, err, Str, is_digit, Bool-cases, inl, inr, ◌⊎◌, syntax_error,
}
use webrtc_node.Config.IceUrl.{
  split_at, part, read_number, check_port, check_host_port, check_suffix, after_bracket,
  check_bracketed, check_plain, check_address,
}
use webrtc_node.Config.IceUrl.Grammar.{
  IsFreeOf, IsPort, Address, host_only, host_port, bracketed, bracketed_port, Splits,
  split_at-Splits, two_parts,
}

digits : (s : Str) → all is_digit s ≡ true → All (λ c. (b'0' ≤ c) × (c ≤ b'9')) s
digits [] e = tt
digits (c ∷ s) e = ((ground arith, ground arith), digits s (ground arith))

check_port-IsPort : (s : Str) → check_port s ≡ ok tt → IsPort s
unfolding check_port
check_port-IsPort [] e = (tt, ground (arith, read_number))
check_port-IsPort (c ∷ s) e = elim (Bool-cases (all is_digit (c ∷ s))) [
  | inr f ↦ let k : err syntax_error ≡ ok tt = rw f at e in cc
  | inl f ↦ elim (Bool-cases (leb (read_number 0 (c ∷ s)) 65535)) [
    | inr g ↦ let k : err syntax_error ≡ ok tt = rw (f, g) at e in cc
    | inl g ↦ (digits (c ∷ s) f, ground arith)
  ]
]

check_host_port-inv : (h s : Str) → check_host_port h s ≡ ok tt → (¬ h ≡ []) × IsPort s
unfolding check_host_port
check_host_port-inv [] s e = cc
check_host_port-inv (c ∷ h) s e = (λ q. cc, check_port-IsPort s e)

plain-Address :
    (s : Str) (l : List Str)
    → (IsFreeOf b':' (part 0 l)
        × (((s ≡ part 0 l) × (part 1 l ≡ []))
            ⊎ ((s ≡ part 0 l ++ b':' ∷ part 1 l) × IsFreeOf b':' (part 1 l))))
    → (¬ part 0 l ≡ []) × IsPort (part 1 l)
    → Address s
plain-Address s l (f, inl (e, q)) (n, p) = subst Address (sym e) (host_only (part 0 l) n f)
plain-Address s l (f, inr (e, q)) (n, p) =
    subst Address (sym e) (host_port (part 0 l) (part 1 l) n f p)

check_plain-Address : (s : Str) → check_plain (split_at b':' s) ≡ ok tt → Address s
unfolding check_plain
check_plain-Address s e =
    let l : List Str = split_at b':' s in
    elim (Bool-cases (ltb 2 (length l))) [
      | inl f ↦ let k : err syntax_error ≡ ok tt = rw f at e in cc
      | inr f ↦
          plain-Address s l (two_parts b':' s l f (split_at-Splits b':' s))
            (check_host_port-inv (part 0 l) (part 1 l) (rw f at e))
    ]

after_bracket-append : (p rest : Str) → IsFreeOf b']' p → after_bracket (p ++ b']' ∷ rest) ≡ rest
after_bracket-append [] rest h = refl
after_bracket-append (c ∷ p) rest (n, h) = elim (Bool-cases (c == b']')) [
  | inl e ↦ absurd (n (ground arith))
  | inr e ↦ rw e (after_bracket-append p rest h)
]

check_suffix-Address :
    (h suffix : Str)
    → IsFreeOf b']' h
    → check_suffix h suffix ≡ ok tt
    → Address (b'[' ∷ h ++ b']' ∷ suffix)
unfolding check_suffix
check_suffix-Address h [] f e = let (n, p) = check_host_port-inv h [] e in bracketed h n f
check_suffix-Address h (c ∷ s) f e = elim (Bool-cases (c == b':')) [
  | inr g ↦ let k : err syntax_error ≡ ok tt = rw g at e in cc
  | inl g ↦
      let q : b':' ≡ c = ground arith in
      let (n, p) = check_host_port-inv h s (rw g at e) in
      subst (λ x. Address (b'[' ∷ h ++ b']' ∷ x ∷ s)) q (bracketed_port h s n f p)
]

check_bracketed-Address :
    (s : Str) (l : List Str)
    → Splits b']' s l
    → check_bracketed l (after_bracket s) ≡ ok tt
    → Address (b'[' ∷ s)
unfolding check_bracketed
check_bracketed-Address s [] h e = absurd h
check_bracketed-Address s (p ∷ []) h e = let k : err syntax_error ≡ ok tt = e in cc
check_bracketed-Address s ([] ∷ q ∷ l) h e =
    let f : leb (length ([] ∷ q ∷ l)) 1 ≡ false = ground arith in
    let k : err syntax_error ≡ ok tt = rw f at e in cc
check_bracketed-Address s ((c ∷ p) ∷ q ∷ l) (rest, r, f, h) e =
    let g : leb (length ((c ∷ p) ∷ q ∷ l)) 1 ≡ false = ground arith in
    let k : check_suffix (c ∷ p) (after_bracket s) ≡ ok tt = rw g at e in
    let m : after_bracket s ≡ rest = ap after_bracket r ∙ after_bracket-append (c ∷ p) rest f in
    subst (λ x. Address (b'[' ∷ x)) (sym r)
      (check_suffix-Address (c ∷ p) rest f (sym (ap (check_suffix (c ∷ p)) m) ∙ k))

pub check_address-Address : (s : Str) → check_address s ≡ ok tt → Address s
unfolding check_address
check_address-Address [] e = cc
check_address-Address (c ∷ s) e = elim (Bool-cases (c == b'[')) [
  | inl f ↦
      let q : b'[' ≡ c = ground arith in
      subst (λ x. Address (x ∷ s)) q
        (check_bracketed-Address s (split_at b']' s) (split_at-Splits b']' s) (rw f at e))
  | inr f ↦ check_plain-Address (c ∷ s) (rw f at e)
]
