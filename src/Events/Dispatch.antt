-- ===== src/Events/Dispatch.antt =====
-- What `dispatchEvent` calls, and what it leaves of the lists.
use webrtc_node.Base.{
  ℕ, ◌+◌, List, [], ◌∷◌, ◌++◌, Option, none, some, Bool, ◌≡◌, refl, sym, ap, arith, ◌∙◌, Str, map,
  Bool-cases, Option-cases, inl, inr, if◌then◌else◌, append_assoc, append-nil,
}
use webrtc_node.Events.{
  Listener, Target, Deed, adds, removes, Behaviour, do_deeds, call_listener, call_listeners,
  dispatch_event, listeners_of, add_event_listener, remove_event_listener,
}
use webrtc_node.Events.Listeners.{IsTidy, add_event_listener-IsTidy, remove_event_listener-IsTidy}

add_event_listener-called :
    (key : Str) (c : Option ℕ) (once : Bool) (s : Target)
    → ((add_event_listener key c once s).called ≡ s.called)
      × ((add_event_listener key c once s).reported ≡ s.reported)
unfolding add_event_listener
add_event_listener-called key none once s = (refl, refl)
add_event_listener-called key (some c) once s = ground arith

remove_event_listener-called :
    (key : Str) (c : ℕ) (s : Target)
    → ((remove_event_listener key c s).called ≡ s.called)
      × ((remove_event_listener key c s).reported ≡ s.reported)
unfolding remove_event_listener
remove_event_listener-called key c s = ground arith

do_deeds-called :
    (ds : List Deed) (s : Target)
    → ((do_deeds ds s).called ≡ s.called) × ((do_deeds ds s).reported ≡ s.reported)
unfolding do_deeds
do_deeds-called [] s = (refl, refl)
do_deeds-called (adds type c once ∷ ds) s =
    let (a, b) = do_deeds-called ds (add_event_listener type c once s) in
    let (x, y) = add_event_listener-called type c once s in (a ∙ x, b ∙ y)
do_deeds-called (removes type c ∷ ds) s =
    let (a, b) = do_deeds-called ds (remove_event_listener type c s) in
    let (x, y) = remove_event_listener-called type c s in (a ∙ x, b ∙ y)

do_deeds-IsTidy : (ds : List Deed) (s : Target) → IsTidy s → IsTidy (do_deeds ds s)
unfolding do_deeds
do_deeds-IsTidy [] s h = h
do_deeds-IsTidy (adds type c once ∷ ds) s h =
    do_deeds-IsTidy ds (add_event_listener type c once s)
      (add_event_listener-IsTidy type c once s h)
do_deeds-IsTidy (removes type c ∷ ds) s h =
    do_deeds-IsTidy ds (remove_event_listener type c s) (remove_event_listener-IsTidy type c s h)

module _ (behave : ℕ → Behaviour) where
  -- The number of the callbacks that throw.
  unfoldable pub failures : List ℕ → ℕ
  failures [] = 0
  failures (c ∷ cs) = (if (behave c).fails then 1 else 0) + failures cs

  failures-append : (xs ys : List ℕ) → failures (xs ++ ys) ≡ failures xs + failures ys
  unfolding failures
  failures-append [] ys = omega arith
  failures-append (x ∷ xs) ys = omega (arith, failures-append xs ys)

  -- The callbacks `cs` have been called, and the exceptions of those that threw reported.
  abbrev pub Called : Target → List ℕ → Target → Type 0
  Called s cs t = (t.called ≡ s.called ++ cs) × (t.reported ≡ s.reported + failures cs)

  call_listener-Called : (c : ℕ) (s : Target) → Called s (c ∷ []) (call_listener behave c s)
  unfolding call_listener failures
  call_listener-Called c s =
      let s' : Target = record s { called = s.called ++ c ∷ [] } in
      let (a, b) = do_deeds-called (behave c).deeds s' in
      elim (Bool-cases (behave c).fails) [
        | inl e ↦ rw e (a, ap (λ n. n + 1) b)
        | inr e ↦ rw e (a, omega (arith, b))
      ]

  call_listener-IsTidy : (c : ℕ) (s : Target) → IsTidy s → IsTidy (call_listener behave c s)
  unfolding call_listener
  call_listener-IsTidy c s h =
      let s' : Target = record s { called = s.called ++ c ∷ [] } in
      let k : IsTidy (do_deeds (behave c).deeds s') = do_deeds-IsTidy (behave c).deeds s' h in
      elim (Bool-cases (behave c).fails) [ inl e ↦ rw e k | inr e ↦ rw e k ]

  Called-trans :
      (s t u : Target) (xs ys : List ℕ) → Called s xs t → Called t ys u → Called s (xs ++ ys) u
  Called-trans s t u xs ys (a, b) (c, d) = (
    c ∙ ap (λ l. l ++ ys) a ∙ append_assoc s.called xs ys,
    omega (arith, b, d, failures-append xs ys),
  )

  abbrev before : Str → Listener → Target → Target
  before type l s = if l.once then remove_event_listener type l.callback s else s

  before-Called : (type : Str) (l : Listener) (s : Target) → Called s [] (before type l s)
  unfolding failures
  before-Called type l s =
      let (a, b) = remove_event_listener-called type l.callback s in
      elim (Bool-cases l.once) [
        | inl e ↦ rw e (a ∙ sym (append-nil s.called), omega (arith, b))
        | inr e ↦ rw e (sym (append-nil s.called), omega arith)
      ]

  before-IsTidy : (type : Str) (l : Listener) (s : Target) → IsTidy s → IsTidy (before type l s)
  before-IsTidy type l s h = elim (Bool-cases l.once) [
    | inl e ↦ rw e (remove_event_listener-IsTidy type l.callback s h)
    | inr e ↦ rw e h
  ]

  call_listeners-Called :
      (type : Str) (ls : List Listener) (s : Target)
      → IsTidy s
      → Called s (map (λ l. l.callback) ls) (call_listeners behave type ls s)
        × IsTidy (call_listeners behave type ls s)
  unfolding call_listeners failures
  call_listeners-Called type [] s h = ((sym (append-nil s.called), omega arith), h)
  call_listeners-Called type (l ∷ ls) s h =
      let t : Target = before type l s in
      let u : Target = call_listener behave l.callback t in
      let k : IsTidy u = call_listener-IsTidy l.callback t (before-IsTidy type l s h) in
      let (r, q) = call_listeners-Called type ls u k in
      let first : Called s (l.callback ∷ []) u =
        Called-trans s t u [] (l.callback ∷ []) (before-Called type l s)
          (call_listener-Called l.callback t) in
      let v : Target = call_listeners behave type ls u in
      (Called-trans s u v (l.callback ∷ []) (map (λ k. k.callback) ls) first r, q)

  -- The callbacks that an event is for.
  unfoldable pub recipients : Str → Target → List ℕ
  recipients type s =
      map (λ l. l.callback) (listeners_of type s.handlers)
      ++ elim (s.on type) [ none ↦ [] | some c ↦ c ∷ [] ]

  -- Whatever the callbacks do to the lists, and whichever of them throw, an event calls each
  -- listener that its type had at the start, once and in order, and then the handler that the
  -- attribute held; each exception is reported. If no list had a callback twice, none has one twice
  -- after it.
  pub dispatch_event-Called :
      (type : Str) (s : Target)
      → IsTidy s
      → Called s (recipients type s) (dispatch_event behave type s)
        × IsTidy (dispatch_event behave type s)
  unfolding dispatch_event recipients
  dispatch_event-Called type s h =
      let t : Target = call_listeners behave type (listeners_of type s.handlers) s in
      let (r, q) = call_listeners-Called type (listeners_of type s.handlers) s h in
      elim (Option-cases (s.on type)) [
        | inl e ↦
            rw (e, dispatch_event)
              (rw (append-nil (map (λ l. l.callback) (listeners_of type s.handlers))) r, q)
        | inr (c, e) ↦
            rw (e, dispatch_event)
              (
                Called-trans s t (call_listener behave c t)
                    (map (λ l. l.callback) (listeners_of type s.handlers)) (c ∷ []) r
                    (call_listener-Called c t),
                call_listener-IsTidy c t q,
              )
      ]
