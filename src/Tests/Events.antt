-- ===== src/Tests/Events.antt =====
-- Tests and instances for event targets.
use webrtc_node.Base.{
  ℕ, ◌+◌, [], ◌∷◌, some, true, false, ◌≡◌, refl, codes, Str, ◌==◌, if◌then◌else◌,
}
use webrtc_node.Events.{
  Target, Behaviour, adds, removes, dispatch_event, listeners_of, ErrorState, report_all,
  add_event_listener, remove_event_listener,
}
use webrtc_node.Events.Dispatch.{Called, recipients, dispatch_event-Called}
use webrtc_node.Events.Listeners.{IsTidy, remove-add}
use webrtc_node.Events.Throttle.{accounted, AreSpaced, IsDated, report_all-accounted}

abbrev open_type : Str
open_type = codes "open"

abbrev fresh : Target
fresh = record { handlers = []; on = λ t. some 9; hooks = []; called = []; reported = 0 }

abbrev two : Target
two = record fresh {
  handlers =
      (open_type, record { callback = 1; once = true } ∷ record { callback = 2; once = false } ∷ [])
      ∷ [];
}

-- The first callback takes the second off and throws.
abbrev rude : ℕ → Behaviour
rude c =
    if c == 1
    then record { deeds = removes open_type 2 ∷ adds open_type (some 5) false ∷ []; fails = true }
    else record { deeds = []; fails = false }

dispatch_tests :
    ((dispatch_event rude open_type two).called ≡ 1 ∷ 2 ∷ 9 ∷ [])
    × ((dispatch_event rude open_type two).reported ≡ 1)
    × (listeners_of open_type (dispatch_event rude open_type two).handlers
        ≡ record { callback = 5; once = false } ∷ [])
unfolding dispatch_event
dispatch_tests = (refl, refl, refl)

fresh-IsTidy : IsTidy fresh
fresh-IsTidy type = tt

dispatch_event-Called_example :
    Called rude fresh (recipients rude open_type fresh) (dispatch_event rude open_type fresh)
    × IsTidy (dispatch_event rude open_type fresh)
dispatch_event-Called_example = dispatch_event-Called rude open_type fresh fresh-IsTidy

remove-add_example :
    listeners_of open_type
      (remove_event_listener open_type 7 (add_event_listener open_type (some 7) true two)).handlers
    ≡ listeners_of open_type two.handlers
remove-add_example = remove-add open_type 7 true two refl

abbrev quiet_state : ErrorState
quiet_state = record { last_logged = 0; suppressed = 0; console = [] }

throttle_test :
    report_all (5000 ∷ 5001 ∷ 5900 ∷ 6000 ∷ []) quiet_state
    ≡ record { last_logged = 6000; suppressed = 0; console = (6000, 2) ∷ (5000, 0) ∷ [] }
unfolding report_all
throttle_test = refl

quiet_state-IsDated : IsDated quiet_state × AreSpaced quiet_state.console
unfolding IsDated AreSpaced
quiet_state-IsDated = (tt, tt)

report_all-accounted_example :
    (accounted (report_all (5000 ∷ 5001 ∷ []) quiet_state).console
        + (report_all (5000 ∷ 5001 ∷ []) quiet_state).suppressed
      ≡ accounted quiet_state.console + quiet_state.suppressed + 2)
    × AreSpaced (report_all (5000 ∷ 5001 ∷ []) quiet_state).console
report_all-accounted_example =
    report_all-accounted (5000 ∷ 5001 ∷ []) quiet_state quiet_state-IsDated.0 quiet_state-IsDated.1
