-- ===== src/Events/Listeners.antt =====
-- The lists of listeners of SimpleEventTarget.
use webrtc_node.Base.{
  ℕ, List, [], ◌∷◌, ◌++◌, Option, none, some, Bool, true, false, ◌≡◌, refl, ap, arith, Str, str_eq,
  str_eq_refl, str_eq_iff, subst, sym, any, Bool-cases, inl, inr,
}
use webrtc_node.Events.{
  Listener, Handlers, listeners_of, set_listeners, Target, has_callback, add_event_listener,
  remove_event_listener, remove_first,
}

listeners_of-set_listeners :
    (type : Str) (ls : List Listener) (m : Handlers)
    → listeners_of type (set_listeners type ls m) ≡ ls
listeners_of-set_listeners type ls [] = rw (str_eq_refl type) refl
listeners_of-set_listeners type ls ((key, ks) ∷ m) = elim (Bool-cases (str_eq type key)) [
  | inl e ↦ rw (e, e) refl
  | inr e ↦ rw (e, e) (listeners_of-set_listeners type ls m)
]

remove_first-added :
    (c : ℕ) (l : Listener) (ls : List Listener)
    → any (has_callback c) ls ≡ false
    → has_callback c l ≡ true
    → remove_first c (ls ++ l ∷ []) ≡ ls
remove_first-added c l [] h e = rw e refl
remove_first-added c l (k ∷ ls) h e = elim (Bool-cases (has_callback c k)) [
  | inl f ↦ ground arith
  | inr f ↦ rw f (ap (λ t. k ∷ t) (remove_first-added c l ls (ground arith) e))
]

any-added :
    (c : ℕ) (l : Listener) (ls : List Listener)
    → has_callback c l ≡ true
    → any (has_callback c) (ls ++ l ∷ []) ≡ true
any-added c l [] e = rw e refl
any-added c l (k ∷ ls) e = elim (Bool-cases (has_callback c k)) [
  | inl f ↦ rw f refl
  | inr f ↦ rw f (any-added c l ls e)
]

none_added :
    (c : ℕ) (l : Listener) (ls : List Listener)
    → any (has_callback c) ls ≡ false
    → has_callback c l ≡ false
    → any (has_callback c) (ls ++ l ∷ []) ≡ false
none_added c l [] h e = rw e refl
none_added c l (k ∷ ls) h e = elim (Bool-cases (has_callback c k)) [
  | inl f ↦ ground arith
  | inr f ↦ rw f (none_added c l ls (ground arith) e)
]

-- Adding a listener whose callback the type does not have and removing it again gives back the
-- type's listeners.
pub remove-add :
    (type : Str) (c : ℕ) (once : Bool) (s : Target)
    → any (has_callback c) (listeners_of type s.handlers) ≡ false
    → listeners_of type
        (remove_event_listener type c (add_event_listener type (some c) once s)).handlers
      ≡ listeners_of type s.handlers
unfolding remove_event_listener add_event_listener
remove-add type c once s h =
    let l : Listener = record { callback = c; once = once } in
    let e : has_callback c l ≡ true = ground arith in
    let ls : List Listener = listeners_of type s.handlers in
    rw
      (
        h,
        listeners_of-set_listeners type (ls ++ l ∷ []) s.handlers,
        any-added c l ls e,
        remove_first-added c l ls h e,
      )
      (listeners_of-set_listeners type ls (set_listeners type (ls ++ l ∷ []) s.handlers))

-- No callback stands twice among the listeners.
abbrev pub AreDistinct : List Listener → Type 0
AreDistinct [] = Unit
AreDistinct (l ∷ ls) = (any (has_callback l.callback) ls ≡ false) × AreDistinct ls

AreDistinct-snoc :
    (ls : List Listener) (l : Listener)
    → AreDistinct ls
    → any (has_callback l.callback) ls ≡ false
    → AreDistinct (ls ++ l ∷ [])
AreDistinct-snoc [] l d e = (refl, tt)
AreDistinct-snoc (k ∷ ls) l (n, d) e =
    (none_added k.callback l ls n (ground arith), AreDistinct-snoc ls l d (ground arith))

none_removed :
    (c d : ℕ) (ls : List Listener)
    → any (has_callback d) ls ≡ false
    → any (has_callback d) (remove_first c ls) ≡ false
none_removed c d [] h = refl
none_removed c d (k ∷ ls) h = elim (Bool-cases (has_callback c k)) [
  | inl f ↦ rw f (ground arith)
  | inr f ↦ rw f (ground (arith, none_removed c d ls))
]

remove_first-AreDistinct :
    (c : ℕ) (ls : List Listener) → AreDistinct ls → AreDistinct (remove_first c ls)
remove_first-AreDistinct c [] d = tt
remove_first-AreDistinct c (k ∷ ls) (n, d) = elim (Bool-cases (has_callback c k)) [
  | inl f ↦ rw f d
  | inr f ↦ rw f (none_removed c k.callback ls n, remove_first-AreDistinct c ls d)
]

listeners_of-other :
    (type key : Str) (ls : List Listener) (m : Handlers)
    → str_eq type key ≡ false
    → listeners_of type (set_listeners key ls m) ≡ listeners_of type m
listeners_of-other type key ls [] h = rw h refl
listeners_of-other type key ls ((k, ks) ∷ m) h = elim (Bool-cases (str_eq key k)) [
  | inl e ↦
      let p : key ≡ k = (str_eq_iff key k).0 e in
      let q : str_eq type k ≡ false = subst (λ t. str_eq type t ≡ false) p h in rw (e, q) refl
  | inr e ↦ rw e (elim (Bool-cases (str_eq type k)) [
    | inl f ↦ rw f refl
    | inr f ↦ rw f (listeners_of-other type key ls m h)
  ])
]

-- What `set_listeners` puts in place is distinct, if what it was and what is new are.
set_listeners-AreDistinct :
    (type key : Str) (ls : List Listener) (m : Handlers)
    → AreDistinct ls
    → AreDistinct (listeners_of type m)
    → AreDistinct (listeners_of type (set_listeners key ls m))
set_listeners-AreDistinct type key ls m d k = elim (Bool-cases (str_eq type key)) [
  | inl e ↦
      rw ((str_eq_iff type key).0 e)
        (subst AreDistinct (sym (listeners_of-set_listeners key ls m)) d)
  | inr e ↦ subst AreDistinct (sym (listeners_of-other type key ls m e)) k
]

-- Every type's list is without a callback that stands twice.
abbrev pub IsTidy : Target → Type 0
IsTidy s = (type : Str) → AreDistinct (listeners_of type s.handlers)

pub add_event_listener-IsTidy :
    (key : Str) (c : Option ℕ) (once : Bool) (s : Target)
    → IsTidy s
    → IsTidy (add_event_listener key c once s)
unfolding add_event_listener
add_event_listener-IsTidy key none once s h = h
add_event_listener-IsTidy key (some c) once s h =
    elim (Bool-cases (any (has_callback c) (listeners_of key s.handlers))) [
      | inl e ↦ rw e h
      | inr e ↦ rw e (λ type.
          set_listeners-AreDistinct type key _ s.handlers
            (AreDistinct-snoc (listeners_of key s.handlers) _ (h key) e) (h type))
    ]

pub remove_event_listener-IsTidy :
    (key : Str) (c : ℕ) (s : Target) → IsTidy s → IsTidy (remove_event_listener key c s)
unfolding remove_event_listener
remove_event_listener-IsTidy key c s h =
    elim (Bool-cases (any (has_callback c) (listeners_of key s.handlers))) [
      | inl e ↦ rw e (λ type.
          set_listeners-AreDistinct type key _ s.handlers
            (remove_first-AreDistinct c (listeners_of key s.handlers) (h key)) (h type))
      | inr e ↦ rw e h
    ]
