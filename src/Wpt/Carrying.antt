-- ===== src/Wpt/Carrying.antt =====
-- Which shard carries which group.
use mathlib.Core.List.{Perm}
use mathlib.Core.List.Perm
use webrtc_node.Base.{
  ℕ, zero, suc, ◌+◌, ◌≤◌, ◌<◌, List, [], ◌∷◌, ◌++◌, some, Bool, ◌==◌, ◌≡◌, refl, sym, ap, ◌∙◌,
  if-holds, if◌then◌else◌, length, get_elem?, arith, Str, append_assoc, append-nil, map,
}
use webrtc_node.Wpt.{
  Group, Assigned, Plan, insert, sort, start_loads, lightest, add_at, place, comes_first,
}
use webrtc_node.Wpt.Lightest.{IsLightest, nonempty-IsLightest, length-add_at}

-- The load of a shard; one that is not given is 0.
abbrev pub load_at : ℕ → List ℕ → ℕ
load_at i [] = 0
load_at zero (x ∷ l) = x
load_at (suc i) (x ∷ l) = load_at i l

-- The weights of the groups that the assignments, in the same order, give to a shard.
abbrev pub carried : ℕ → List Group → List Assigned → ℕ
carried i (g ∷ gs) (a ∷ rest) = (if a.shard == i then g.weight else 0) + carried i gs rest
carried i _ _ = 0

-- The plan assigns each of the groups, in some order, and the load of each shard is its initial one
-- with the weights of the groups assigned to it.
pub record IsCarried (groups : List Group) (initial : List ℕ) (t : Plan) : Type 0 where
  pub order : List Group
  pub is_order : Perm groups order
  pub same_keys : map Assigned.key t.assignments ≡ map Group.key order
  pub own_loads : (i : ℕ) → load_at i t.loads ≡ load_at i initial + carried i order t.assignments

load_at-add_at :
    (l : List ℕ) (i j w x : ℕ)
    → get_elem? l i ≡ some x
    → load_at j (add_at i w l) ≡ load_at j l + (if i == j then w else 0)
unfolding add_at
load_at-add_at [] i j w x e = cc
load_at-add_at (y ∷ l) zero zero w x e = refl
load_at-add_at (y ∷ l) zero (suc j) w x e = ground arith
load_at-add_at (y ∷ l) (suc i) zero w x e = ground arith
load_at-add_at (y ∷ l) (suc i) (suc j) w x e = ground (arith, load_at-add_at l i j w x e)

load_at-start_loads :
    (n : ℕ) (l : List ℕ) (i : ℕ) → length l ≤ n → load_at i (start_loads n l) ≡ load_at i l
unfolding start_loads
load_at-start_loads zero [] i h = refl
load_at-start_loads zero (x ∷ l) i h = absurd (omega arith)
load_at-start_loads (suc n) [] zero h = refl
load_at-start_loads (suc n) [] (suc i) h = load_at-start_loads n [] i (omega arith)
load_at-start_loads (suc n) (x ∷ l) zero h = refl
load_at-start_loads (suc n) (x ∷ l) (suc i) h = load_at-start_loads n l i (omega arith)

-- What the placement of groups adds to a plan.
record Adds (gs : List Group) (p t : Plan) : Type 0 where
  added : List Assigned
  at_end : t.assignments ≡ p.assignments ++ added
  same_keys : map Assigned.key added ≡ map Group.key gs
  own_loads : (i : ℕ) → load_at i t.loads ≡ load_at i p.loads + carried i gs added

place-Adds : (gs : List Group) (p : Plan) → 0 < length p.loads → Adds gs p (place gs p)
unfolding place
place-Adds [] p h = record {
  added = [];
  at_end = sym (append-nil p.assignments);
  same_keys = refl;
  own_loads = λ i. omega arith;
}
place-Adds (g ∷ gs) p h =
    let k : ℕ = lightest p.loads in
    let f : IsLightest p.loads k = nonempty-IsLightest p.loads h in
    let a : Assigned = record { key = g.key; shard = k } in
    let q : Plan = record {
      assignments = p.assignments ++ a ∷ [];
      loads = add_at k g.weight p.loads;
    } in
    let l : length q.loads ≡ length p.loads = length-add_at p.loads k g.weight in
    let r = place-Adds gs q (omega arith) in
    record {
      added = a ∷ r.added;
      at_end = r.at_end ∙ append_assoc p.assignments (a ∷ []) r.added;
      same_keys = ap (λ ks. g.key ∷ ks) r.same_keys;
      own_loads = λ i.
          let x = r.own_loads i in
          let y = load_at-add_at p.loads k i g.weight f.least f.is_there in omega arith;
    }

insert-Perm :
    (at_most : Str → Str → Bool) (g : Group) (l : List Group) → Perm (g ∷ l) (insert at_most g l)
unfolding insert
insert-Perm at_most g [] = Perm.refl (g ∷ [])
insert-Perm at_most g (h ∷ l) =
    if-holds (Perm (g ∷ h ∷ l)) (comes_first at_most g h) (Perm.refl (g ∷ h ∷ l))
      (Perm.trans (Perm.swap h g l) (Perm.cons h (insert-Perm at_most g l)))

sort-Perm : (at_most : Str → Str → Bool) (l : List Group) → Perm l (sort at_most l)
unfolding sort
sort-Perm at_most [] = Perm.nil
sort-Perm at_most (g ∷ l) =
    Perm.trans (Perm.cons g (sort-Perm at_most l)) (insert-Perm at_most g (sort at_most l))

pub place-IsCarried :
    (at_most : Str → Str → Bool) (n : ℕ) (groups : List Group) (initial : List ℕ)
    → 0 < length (start_loads n initial)
    → length initial ≤ n
    → IsCarried groups initial
        (place (sort at_most groups) (record { assignments = []; loads = start_loads n initial }))
place-IsCarried at_most n groups initial h k =
    let p : Plan = record { assignments = []; loads = start_loads n initial } in
    let r = place-Adds (sort at_most groups) p h in
    record {
      order = sort at_most groups;
      is_order = sort-Perm at_most groups;
      same_keys = ap (map Assigned.key) r.at_end ∙ r.same_keys;
      own_loads = λ i.
          r.own_loads i
          ∙ ap (λ x. x + carried i (sort at_most groups) r.added)
              (load_at-start_loads n initial i k)
          ∙ ap (λ l. load_at i initial + carried i (sort at_most groups) l) (sym r.at_end);
    }
