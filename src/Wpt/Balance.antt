-- ===== src/Wpt/Balance.antt =====
-- The shards of the web platform tests carry all groups, in balance.
use webrtc_node.Base.{
  ℕ, zero, suc, ◌+◌, ◌≤◌, ◌<◌, List, [], ◌∷◌, ◌++◌, some, Bool, true, ◌≡◌, refl, sym, ap, subst,
  ◌∙◌, if-holds, length, All, All-snoc, sum, arith, Str, length-append, map,
}
use webrtc_node.Wpt.{
  Group, Assigned, Plan, insert, sort, start_loads, lightest, add_at, place, assign_wpt_spec_groups,
  comes_first, are_valid,
}
use webrtc_node.Wpt.Carrying.{IsCarried, place-IsCarried}
use webrtc_node.Wpt.Lightest.{
  All-map, All-at, IsLightest, nonempty-IsLightest, sum-add_at, length-add_at, index-lt-length,
  All-add_at,
}

-- No load is above another by more than the bound.
abbrev pub IsSpread : ℕ → List ℕ → Type 0
IsSpread bound l = All (λ a. All (λ b. a ≤ b + bound) l) l

add_at-IsSpread :
    (bound w : ℕ) (l : List ℕ) (i : ℕ)
    → IsLightest l i
    → w ≤ bound
    → IsSpread bound l
    → IsSpread bound (add_at i w l)
add_at-IsSpread bound w l i h k s =
    let x : ℕ = h.least in
    All-add_at (λ a. All (λ b. a ≤ b + bound) (add_at i w l)) l i w x h.is_there
      (All-map (λ a. All (λ b. a ≤ b + bound) l) (λ a. All (λ b. a ≤ b + bound) (add_at i w l)) l
        (λ a q.
          All-add_at (λ b. a ≤ b + bound) l i w x h.is_there q
            (let r : a ≤ x + bound = All-at (λ b. a ≤ b + bound) l i x q h.is_there in omega arith))
        s)
      (All-add_at (λ b. x + w ≤ b + bound) l i w x h.is_there
        (All-map (λ b. x ≤ b) (λ b. x + w ≤ b + bound) l (λ b q. omega arith) h.is_least)
        (omega arith))

abbrev pub weights : List Group → List ℕ
weights = map Group.weight

-- What the placement of groups does to a plan.
record IsPlaced (bound : ℕ) (gs : List Group) (p t : Plan) : Type 0 where
  same_shards : length t.loads ≡ length p.loads
  carries : sum t.loads ≡ sum p.loads + sum (weights gs)
  all_assigned : length t.assignments ≡ length p.assignments + length gs
  in_range : All (λ (a : Assigned). a.shard < length p.loads) t.assignments
  is_spread : IsSpread bound t.loads

place-IsPlaced :
    (bound : ℕ) (gs : List Group) (p : Plan)
    → All (λ (w : ℕ). w ≤ bound) (weights gs)
    → 0 < length p.loads
    → All (λ (a : Assigned). a.shard < length p.loads) p.assignments
    → IsSpread bound p.loads
    → IsPlaced bound gs p (place gs p)
unfolding place
place-IsPlaced bound [] p w e a s = record {
  same_shards = refl;
  carries = omega arith;
  all_assigned = omega arith;
  in_range = a;
  is_spread = s;
}
place-IsPlaced bound (g ∷ gs) p (k, w) e a s =
    let i : ℕ = lightest p.loads in
    let h : IsLightest p.loads i = nonempty-IsLightest p.loads e in
    let q : Plan = record {
      assignments = p.assignments ++ record { key = g.key; shard = i } ∷ [];
      loads = add_at i g.weight p.loads;
    } in
    let l : length q.loads ≡ length p.loads = length-add_at p.loads i g.weight in
    let m = sum-add_at p.loads i g.weight h.least h.is_there in
    let n = length-append p.assignments (record { key = g.key; shard = i } ∷ []) in
    let b : All (λ (x : Assigned). x.shard < length p.loads) q.assignments =
      All-snoc (λ (x : Assigned). x.shard < length p.loads) p.assignments
        (record { key = g.key; shard = i }) a (index-lt-length p.loads i h.least h.is_there) in
    let r =
      place-IsPlaced bound gs q w (omega arith)
        (subst (λ y. All (λ (x : Assigned). x.shard < y) q.assignments) (sym l) b)
        (add_at-IsSpread bound g.weight p.loads i h k s) in
    record {
      same_shards = r.same_shards ∙ l;
      carries = (let c = r.carries in omega arith);
      all_assigned = (let c = r.all_assigned in omega arith);
      in_range =
          subst (λ y. All (λ (x : Assigned). x.shard < y) (place gs q).assignments) l r.in_range;
      is_spread = r.is_spread;
    }

-- The sort keeps the groups.
insert-weights :
    (at_most : Str → Str → Bool) (g : Group) (l : List Group)
    → (sum (weights (insert at_most g l)) ≡ g.weight + sum (weights l))
      × (length (insert at_most g l) ≡ suc (length l))
unfolding insert
insert-weights at_most g [] = (refl, refl)
insert-weights at_most g (h ∷ l) =
    let r = insert-weights at_most g l in
    if-holds
      (λ m.
        (sum (weights m) ≡ g.weight + (h.weight + sum (weights l)))
        × (length m ≡ suc (suc (length l))))
      (comes_first at_most g h) (refl, refl) (let a = r.0 in omega arith, ap suc r.1)

sort-weights :
    (at_most : Str → Str → Bool) (l : List Group)
    → (sum (weights (sort at_most l)) ≡ sum (weights l)) × (length (sort at_most l) ≡ length l)
unfolding sort
sort-weights at_most [] = (refl, refl)
sort-weights at_most (g ∷ l) =
    let a = insert-weights at_most g (sort at_most l) in
    let b = sort-weights at_most l in (a.0 ∙ ap (λ n. g.weight + n) b.0, a.1 ∙ ap suc b.1)

insert-All :
    (P : ℕ → Type 0) (at_most : Str → Str → Bool) (g : Group) (l : List Group)
    → P g.weight
    → All P (weights l)
    → All P (weights (insert at_most g l))
unfolding insert
insert-All P at_most g [] p h = (p, tt)
insert-All P at_most g (x ∷ l) p (q, h) =
    if-holds (λ m. All P (weights m)) (comes_first at_most g x) (p, (q, h))
      (q, insert-All P at_most g l p h)

sort-All :
    (P : ℕ → Type 0) (at_most : Str → Str → Bool) (l : List Group)
    → All P (weights l)
    → All P (weights (sort at_most l))
unfolding sort
sort-All P at_most [] h = tt
sort-All P at_most (g ∷ l) (p, h) =
    insert-All P at_most g (sort at_most l) p (sort-All P at_most l h)

start_loads-sum :
    (n : ℕ) (l : List ℕ)
    → length l ≤ n
    → (length (start_loads n l) ≡ n) × (sum (start_loads n l) ≡ sum l)
unfolding start_loads
start_loads-sum zero [] h = (refl, refl)
start_loads-sum zero (x ∷ l) h = absurd (omega arith)
start_loads-sum (suc n) [] h =
    let r = start_loads-sum n [] (omega arith) in (ap suc r.0, let e = r.1 in omega arith)
start_loads-sum (suc n) (x ∷ l) h =
    let r = start_loads-sum n l (omega arith) in (ap suc r.0, ap (λ m. x + m) r.1)

-- A plan for the groups: each of them has a shard, each shard has its initial load and the weights of
-- the groups that it carries, the loads add up to the initial ones and all weights, and no load is
-- above another by more than the bound.
pub record IsBalanced (bound n : ℕ) (groups : List Group) (initial : List ℕ) (t : Plan)
    : Type 0 where
  pub same_shards : length t.loads ≡ n
  pub carries : sum t.loads ≡ sum initial + sum (weights groups)
  pub all_assigned : length t.assignments ≡ length groups
  pub in_range : All (λ (a : Assigned). a.shard < n) t.assignments
  pub is_spread : IsSpread bound t.loads
  pub is_carried : IsCarried groups initial t

balanced :
    (at_most : Str → Str → Bool) (bound n : ℕ) (groups : List Group) (initial : List ℕ)
    → All (λ (w : ℕ). w ≤ bound) (weights groups)
    → IsSpread bound (start_loads n initial)
    → 0 < n
    → length initial ≤ n
    → IsBalanced bound n groups initial
        (place (sort at_most groups) (record { assignments = []; loads = start_loads n initial }))
balanced at_most bound n groups initial w s h k =
    let start : Plan = record { assignments = []; loads = start_loads n initial } in
    let l = start_loads-sum n initial k in
    let l0 = l.0 in
    let l1 = l.1 in
    let o = sort-weights at_most groups in
    let r =
      place-IsPlaced bound (sort at_most groups) start (sort-All (λ x. x ≤ bound) at_most groups w)
        (omega arith) tt s in
    record {
      same_shards = r.same_shards ∙ l0;
      carries = (let a = r.carries in let b = o.0 in omega arith);
      all_assigned = (let a = r.all_assigned in let b = o.1 in omega arith);
      in_range =
          subst
            (λ y.
              All (λ (a : Assigned). a.shard < y) (place (sort at_most groups) start).assignments)
            l0 r.in_range;
      is_spread = r.is_spread;
      is_carried = place-IsCarried at_most n groups initial (omega arith) k;
    }

-- For at least one shard, at most as many initial loads as shards, and groups with different non-
-- empty keys, assignWptSpecGroups returns a plan: it assigns each of the groups, in some order, to a
-- shard in range, the load of each shard is its initial one with the weights of the groups assigned
-- to it, the loads add up to the initial ones and all weights, and if no weight and no difference
-- of the initial loads is above a bound, no difference of the loads is above it.
pub assign_wpt_spec_groups-IsBalanced :
    (at_most : Str → Str → Bool) (bound n : ℕ) (groups : List Group) (initial : List ℕ)
    → 0 < n
    → length initial ≤ n
    → are_valid [] groups ≡ true
    → All (λ (w : ℕ). w ≤ bound) (weights groups)
    → IsSpread bound (start_loads n initial)
    → (t : Plan) × (assign_wpt_spec_groups at_most groups n initial ≡ some t)
      × IsBalanced bound n groups initial t
unfolding assign_wpt_spec_groups
assign_wpt_spec_groups-IsBalanced at_most bound n groups initial h k v w s = (
  place (sort at_most groups) (record { assignments = []; loads = start_loads n initial }),
  ground arith,
  balanced at_most bound n groups initial w s h k,
)
