-- ===== src/Tests/Shards.antt =====
-- Tests and instances for the shards of the web platform tests.
use webrtc_node.Base.{List, [], ◌∷◌, some, none, Bool, true, ◌≡◌, refl, codes, Str, arith}
use webrtc_node.Wpt.{Group, Plan, assign_wpt_spec_groups, are_valid, start_loads}
use webrtc_node.Wpt.Balance.{IsBalanced, IsSpread, assign_wpt_spec_groups-IsBalanced}

abbrev any_order : Str → Str → Bool
any_order a b = true

abbrev groups : List Group
groups =
    record { key = codes "a"; weight = 2 }
    ∷ record { key = codes "b"; weight = 5 }
    ∷ record { key = codes "c"; weight = 4 }
    ∷ []

assign_tests :
    (elim (assign_wpt_spec_groups any_order groups 2 (1 ∷ [])) [ none ↦ [] | some t ↦ t.loads ]
      ≡ 7 ∷ 5 ∷ [])
    × (assign_wpt_spec_groups any_order groups 1 (1 ∷ 1 ∷ []) ≡ none)
unfolding assign_wpt_spec_groups
assign_tests = (refl, refl)

groups-are_valid : are_valid [] groups ≡ true
unfolding are_valid
groups-are_valid = refl

start-IsSpread : IsSpread 5 (start_loads 2 (1 ∷ []))
unfolding start_loads
start-IsSpread = ((omega arith, (omega arith, tt)), ((omega arith, (omega arith, tt)), tt))

assign_wpt_spec_groups-IsBalanced_example :
    (t : Plan) × (assign_wpt_spec_groups any_order groups 2 (1 ∷ []) ≡ some t)
    × IsBalanced 5 2 groups (1 ∷ []) t
assign_wpt_spec_groups-IsBalanced_example =
    assign_wpt_spec_groups-IsBalanced any_order 5 2 groups (1 ∷ []) (omega arith) (omega arith)
      groups-are_valid (omega arith, (omega arith, (omega arith, tt))) start-IsSpread
