-- ===== src/Wpt/Lightest.antt =====
-- The lightest shard, and what adding to its load does.
use webrtc_node.Base.{
  ℕ, zero, suc, ◌+◌, ◌≤◌, ◌<◌, List, [], ◌∷◌, ◌++◌, none, some, Bool, true, false, ltb, ◌≡◌, refl,
  sym, ap, subst, if◌then◌else◌, length, get_elem?, All, All-snoc, sum, arith, append-nil,
  append_assoc, length-append,
}
use webrtc_node.Wpt.{lightest, lightest_from, add_at}

pub All-map :
    {A : Type 0} (P Q : A → Type 0) (l : List A) → ((x : A) → P x → Q x) → All P l → All Q l
All-map P Q [] f h = tt
All-map P Q (x ∷ l) f (p, h) = (f x p, All-map P Q l f h)

pub All-at :
    {A : Type 0} (P : A → Type 0) (l : List A) (i : ℕ) (x : A)
    → All P l
    → get_elem? l i ≡ some x
    → P x
All-at P [] i x h e = cc
All-at P (y ∷ l) zero x (p, h) e = subst (λ o. elim o [ none ↦ Unit | some z ↦ P z ]) e p
All-at P (y ∷ l) (suc i) x (p, h) e = All-at P l i x h e

get-append : (l m : List ℕ) (i x : ℕ) → get_elem? l i ≡ some x → get_elem? (l ++ m) i ≡ some x
get-append [] m i x e = cc
get-append (y ∷ l) m zero x e = e
get-append (y ∷ l) m (suc i) x e = get-append l m i x e

get-next : (l m : List ℕ) (x : ℕ) → get_elem? (l ++ x ∷ m) (length l) ≡ some x
get-next [] m x = refl
get-next (y ∷ l) m x = get-next l m x

-- The index of a load that no other is below.
pub record IsLightest (l : List ℕ) (i : ℕ) : Type 0 where
  pub least : ℕ
  pub is_there : get_elem? l i ≡ some least
  pub is_least : All (λ y. least ≤ y) l

stays_there :
    (pre : List ℕ) (x target least : ℕ) (b : Bool)
    → get_elem? pre target ≡ some least
    → get_elem? (pre ++ x ∷ []) (if b then length pre else target) ≡ some (if b then x else least)
stays_there pre x target least true e = get-next pre [] x
stays_there pre x target least false e = get-append pre (x ∷ []) target least e

lightest_from-IsLightest :
    (pre l : List ℕ) (target least : ℕ)
    → get_elem? pre target ≡ some least
    → All (λ y. least ≤ y) pre
    → IsLightest (pre ++ l) (lightest_from target least (length pre) l)
unfolding lightest_from
lightest_from-IsLightest pre [] target least e h = record {
  least = least;
  is_there = get-append pre [] target least e;
  is_least = subst (All (λ y. least ≤ y)) (sym (append-nil pre)) h;
}
lightest_from-IsLightest pre (x ∷ l) target least e h =
    let i : ℕ = if ltb x least then length pre else target in
    let m : ℕ = if ltb x least then x else least in
    let k : length (pre ++ x ∷ []) ≡ length pre + 1 = length-append pre (x ∷ []) in
    let r =
      lightest_from-IsLightest (pre ++ x ∷ []) l i m
        (stays_there pre x target least (ltb x least) e)
        (All-snoc (λ y. m ≤ y) pre x
          (All-map (λ y. least ≤ y) (λ y. m ≤ y) pre (λ y a. ground arith) h) (ground arith)) in
    subst (λ n. IsLightest (pre ++ x ∷ l) (lightest_from i m n l)) k
      (subst (λ a. IsLightest a (lightest_from i m (length (pre ++ x ∷ [])) l))
        (append_assoc pre (x ∷ []) l) r)

pub lightest-IsLightest : (x : ℕ) (l : List ℕ) → IsLightest (x ∷ l) (lightest (x ∷ l))
unfolding lightest
lightest-IsLightest x l = lightest_from-IsLightest (x ∷ []) l 0 x refl ((omega arith), tt)

pub nonempty-IsLightest : (l : List ℕ) → 0 < length l → IsLightest l (lightest l)
nonempty-IsLightest [] h = absurd (omega arith)
nonempty-IsLightest (x ∷ l) h = lightest-IsLightest x l

-- What adding to a load does to the sum, to the number of loads, and to a bound on them.
pub sum-add_at : (l : List ℕ) (i w x : ℕ) → get_elem? l i ≡ some x → sum (add_at i w l) ≡ sum l + w
unfolding add_at
sum-add_at [] i w x e = cc
sum-add_at (y ∷ l) zero w x e = omega arith
sum-add_at (y ∷ l) (suc i) w x e = omega (arith, sum-add_at l i w x e)

pub length-add_at : (l : List ℕ) (i w : ℕ) → length (add_at i w l) ≡ length l
unfolding add_at
length-add_at [] i w = refl
length-add_at (y ∷ l) zero w = refl
length-add_at (y ∷ l) (suc i) w = ap suc (length-add_at l i w)

pub index-lt-length : (l : List ℕ) (i x : ℕ) → get_elem? l i ≡ some x → i < length l
index-lt-length [] i x e = cc
index-lt-length (y ∷ l) zero x e = omega arith
index-lt-length (y ∷ l) (suc i) x e = omega (arith, index-lt-length l i x e)

pub All-add_at :
    (P : ℕ → Type 0) (l : List ℕ) (i w x : ℕ)
    → get_elem? l i ≡ some x
    → All P l
    → P (x + w)
    → All P (add_at i w l)
unfolding add_at
All-add_at P [] i w x e h p = tt
All-add_at P (y ∷ l) zero w x e (q, h) p =
    (subst (λ o. elim o [ none ↦ Unit | some z ↦ P (z + w) ]) (sym e) p, h)
All-add_at P (y ∷ l) (suc i) w x e (q, h) p = (q, All-add_at P l i w x e h p)
