-- ===== src/Events.antt =====
-- SimpleEventTarget in lib/index.js, `callListener`, and the throttled report of the exceptions that
-- listeners throw.
pub mod Dispatch
pub mod Listeners
pub mod Throttle
use webrtc_node.Base.{
  ℕ, ◌+◌, ◌-◌, List, [], ◌∷◌, ◌++◌, Option, none, some, Bool, true, false, not, ◌&&◌, ltb, ◌==◌,
  if◌then◌else◌, Str, str_eq, any, is_some,
}

-- A listener of a type: which callback it is, and whether it is called once.
pub record Listener : Type 0 where
  pub callback : ℕ
  pub once : Bool

-- The map of `kHandlers` for one target: the listeners of each type.
abbrev pub Handlers : Type 0
Handlers = List (Str × List Listener)

abbrev pub listeners_of : Str → Handlers → List Listener
listeners_of type [] = []
listeners_of type ((key, ls) ∷ rest) = if str_eq type key then ls else listeners_of type rest

abbrev pub set_listeners : Str → List Listener → Handlers → Handlers
set_listeners type new [] = (type, new) ∷ []
set_listeners type new ((key, ls) ∷ rest) =
    if str_eq type key then (key, new) ∷ rest else (key, ls) ∷ set_listeners type new rest

-- The hooks `_eventListenerAdded` and `_eventListenerRemoved` of a subclass.
pub data Hook : Type 0 where
  hook_added hook_removed : Str → Hook

-- `on` is the attribute `on<type>`, where it holds a function. `called` logs the callbacks that were
-- called, and `reported` counts the calls of `reportListenerError`.
pub record Target : Type 0 where
  pub handlers : Handlers
  pub on : Str → Option ℕ
  pub hooks : List Hook
  pub called : List ℕ
  pub reported : ℕ

abbrev pub has_callback : ℕ → Listener → Bool
has_callback c l = l.callback == c

unfoldable pub add_event_listener : Str → Option ℕ → Bool → Target → Target
add_event_listener type none once s = s
add_event_listener type (some c) once s =
    let ls = listeners_of type s.handlers in
    if any (has_callback c) ls then s else record s {
      handlers = set_listeners type (ls ++ record { callback = c; once = once } ∷ []) s.handlers;
      hooks = s.hooks ++ hook_added type ∷ [];
    }

-- `splice` at the first index with the callback.
abbrev pub remove_first : ℕ → List Listener → List Listener
remove_first c [] = []
remove_first c (l ∷ ls) = if has_callback c l then ls else l ∷ remove_first c ls

unfoldable pub remove_event_listener : Str → ℕ → Target → Target
remove_event_listener type c s =
    let ls = listeners_of type s.handlers in
    if any (has_callback c) ls
    then record s {
      handlers = set_listeners type (remove_first c ls) s.handlers;
      hooks = s.hooks ++ hook_removed type ∷ [];
    }
    else s

-- `_hasEventConsumer`.
unfoldable pub has_event_consumer : Str → Target → Bool
has_event_consumer type s = elim (listeners_of type s.handlers) [
  | [] ↦ is_some (s.on type)
  | l ∷ ls ↦ true
]

-- What a callback does to the target before it returns or throws.
pub data Deed : Type 0 where
  adds : Str → Option ℕ → Bool → Deed
  removes : Str → ℕ → Deed

pub record Behaviour : Type 0 where
  pub deeds : List Deed
  pub fails : Bool

unfoldable pub do_deeds : List Deed → Target → Target
unfolding add_event_listener remove_event_listener
do_deeds [] s = s
do_deeds (adds type c once ∷ ds) s = do_deeds ds (add_event_listener type c once s)
do_deeds (removes type c ∷ ds) s = do_deeds ds (remove_event_listener type c s)

module _ (behave : ℕ → Behaviour) where
  -- `callListener`.
  unfoldable pub call_listener : ℕ → Target → Target
  unfolding do_deeds
  call_listener c s =
      let t = do_deeds (behave c).deeds (record s { called = s.called ++ c ∷ [] }) in
      if (behave c).fails then record t { reported = t.reported + 1 } else t

  -- The loop of `dispatchEvent` over the copy of the listeners.
  unfoldable pub call_listeners : Str → List Listener → Target → Target
  unfolding call_listener remove_event_listener
  call_listeners type [] s = s
  call_listeners type (l ∷ ls) s =
      let t = if l.once then remove_event_listener type l.callback s else s in
      call_listeners type ls (call_listener l.callback t)

  -- `dispatchEvent` with an event; the callbacks do not dispatch further ones.
  unfoldable pub dispatch_event : Str → Target → Target
  unfolding call_listeners call_listener
  dispatch_event type s =
      let t = call_listeners type (listeners_of type s.handlers) s in
      elim (s.on type) [ none ↦ t | some c ↦ call_listener c t ]

-- `kListenerErrorState`, and the console's lines: when each was written, and the number of dropped
-- errors that it names.
pub record ErrorState : Type 0 where
  pub last_logged : ℕ
  pub suppressed : ℕ
  pub console : List (ℕ × ℕ)

-- `reportListenerError` at the time `now`, where the process has no listener for the event.
unfoldable pub report_listener_error : ℕ → ErrorState → ErrorState
report_listener_error now s =
    let count = s.suppressed + 1 in
    if ltb now (s.last_logged + 1000)
    then record s { suppressed = count }
    else record s { last_logged = now; suppressed = 0; console = (now, count - 1) ∷ s.console }

unfoldable pub report_all : List ℕ → ErrorState → ErrorState
unfolding report_listener_error
report_all [] s = s
report_all (now ∷ later_times) s = report_all later_times (report_listener_error now s)
