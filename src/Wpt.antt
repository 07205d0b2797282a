-- ===== src/Wpt.antt =====
-- The distribution of the web platform tests over shards, scripts/wpt-sharding.js. Groups and loads are
-- of the types that the script tests for; `none` is a thrown Error.
pub mod Lightest
pub mod Carrying
pub mod Balance
use webrtc_node.Base.{
  ℕ, zero, suc, ◌+◌, List, [], ◌∷◌, ◌++◌, Option, none, some, Bool, true, false, not, ◌&&◌, ◌||◌,
  ltb, ◌==◌, if◌then◌else◌, any, length, Str, str_eq,
}
use webrtc_node.Sdp.Lines.{is_empty}

pub record Group : Type 0 where
  pub key : Str
  pub weight : ℕ

-- An entry of the Map `assignments`, whose keys are set once.
pub record Assigned : Type 0 where
  pub key : Str
  pub shard : ℕ

pub record Plan : Type 0 where
  pub assignments : List Assigned
  pub loads : List ℕ

-- Each group has a key, which no group before it has.
unfoldable pub are_valid : List Str → List Group → Bool
are_valid seen [] = true
are_valid seen (g ∷ gs) =
    let rest = are_valid (g.key ∷ seen) gs in
    not (is_empty g.key) && (not (any (str_eq g.key) seen) && rest)

-- The order of the groups: the heaviest first, then by their keys. The order of keys, for
-- `left.key.localeCompare(right.key) <= 0`, is a parameter.
abbrev pub comes_first : (Str → Str → Bool) → Group → Group → Bool
comes_first at_most l r = ltb r.weight l.weight || (l.weight == r.weight && at_most l.key r.key)

unfoldable pub insert : (Str → Str → Bool) → Group → List Group → List Group
insert at_most g [] = g ∷ []
insert at_most g (h ∷ hs) =
    let rest = insert at_most g hs in if comes_first at_most g h then g ∷ h ∷ hs else h ∷ rest

-- The stable sort of `Array.prototype.sort`.
unfoldable pub sort : (Str → Str → Bool) → List Group → List Group
unfolding insert
sort at_most [] = []
sort at_most (g ∷ gs) = insert at_most g (sort at_most gs)

-- `Array.from({ length }, (_, index) => initialLoads[index] || 0)`.
unfoldable pub start_loads : ℕ → List ℕ → List ℕ
start_loads zero l = []
start_loads (suc n) [] = 0 ∷ start_loads n []
start_loads (suc n) (x ∷ l) = x ∷ start_loads n l

-- The loop over the indices: `target` has the load `least`, and `index` is the next one.
unfoldable pub lightest_from : ℕ → ℕ → ℕ → List ℕ → ℕ
lightest_from target least index [] = target
lightest_from target least index (x ∷ l) =
    lightest_from (if ltb x least then index else target) (if ltb x least then x else least)
      (index + 1) l

unfoldable pub lightest : List ℕ → ℕ
unfolding lightest_from
lightest [] = 0
lightest (x ∷ l) = lightest_from 0 x 1 l

-- `loads[target] += weight`.
unfoldable pub add_at : ℕ → ℕ → List ℕ → List ℕ
add_at i w [] = []
add_at zero w (x ∷ l) = (x + w) ∷ l
add_at (suc i) w (x ∷ l) = x ∷ add_at i w l

-- The loop over the ordered groups.
unfoldable pub place : List Group → Plan → Plan
unfolding lightest add_at
place [] p = p
place (g ∷ gs) p = place gs (record {
  assignments = p.assignments ++ record { key = g.key; shard = lightest p.loads } ∷ [];
  loads = add_at (lightest p.loads) g.weight p.loads;
})

-- `assignWptSpecGroups`.
unfoldable pub assign_wpt_spec_groups : (Str → Str → Bool) → List Group → ℕ → List ℕ → Option Plan
unfolding are_valid sort start_loads place
assign_wpt_spec_groups at_most groups shard_count initial =
    if shard_count == 0
    then none
    else if ltb shard_count (length initial)
    then none
    else if not (are_valid [] groups)
    then none
    else some (
        place (sort at_most groups)
          (record { assignments = []; loads = start_loads shard_count initial }))
