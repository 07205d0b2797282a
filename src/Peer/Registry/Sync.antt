-- ===== src/Peer/Registry/Sync.antt =====
-- Open channels are registered under the identifiers that they have: what the search for an
-- identifier and the registration do to that.
use webrtc_node.Base.{
  ℕ, zero, suc, ◌+◌, List, [], ◌∷◌, Option, none, some, Bool, true, false, not, ◌≡◌, refl, sym, ap,
  subst, arith, ◌==◌, Bool-cases, Option-cases, inl, inr, ◌∙◌, ltb, if-split,
}
use webrtc_node.Peer.Registry.{
  Chan, Registry, update, effective_id, holds, unregister, is_taken, take_id, register, is_held,
  refresh_ids, is_id_in_use, next_available_id, after_refresh,
}

-- A channel that is not closed and has an identifier is registered under it.
abbrev pub IsSynced : Registry → Type 0
IsSynced s =
    (c id : ℕ)
    → (s.channel c).is_shut ≡ false
    → effective_id (s.channel c) ≡ some id
    → (s.channel c).registered ≡ some id

register-same :
    (c id : ℕ) (s : Registry) → (s.channel c).registered ≡ some id → register c (some id) s ≡ s
unfolding register
register-same c id s e = let f : (id == id) ≡ true = ground arith in rw (e, f) refl

refresh_ids-same : (cs : List ℕ) (b : Bool) (s : Registry) → IsSynced s → (refresh_ids cs b s).1 ≡ s
unfolding refresh_ids
refresh_ids-same [] b s h = refl
refresh_ids-same (c ∷ cs) b s h = elim (Bool-cases (s.channel c).is_shut) [
  | inl e ↦ rw e (refresh_ids-same cs b s h)
  | inr e ↦ rw e (elim (Option-cases (effective_id (s.channel c))) [
    | inl f ↦ rw (f, refresh_ids) (refresh_ids-same cs true s h)
    | inr (id, f) ↦
        rw (f, refresh_ids)
          (ap (λ t. (refresh_ids cs b t).1) (register-same c id s (h c id e f))
            ∙ refresh_ids-same cs b s h)
  ])
]

abbrev pub with_refresh : Bool → Registry → Registry
with_refresh b s = record s { refresh_needed = b }

is_id_in_use-same :
    (id : ℕ) (s : Registry) → IsSynced s → (b : Bool) × ((is_id_in_use id s).1 ≡ with_refresh b s)
unfolding is_id_in_use
is_id_in_use-same id s h =
    if-split Same (is_held id s) (λ f. (s.refresh_needed, refl))
      (λ f.
        if-split Same (not s.refresh_needed) {y = after_refresh id s}
          (λ g. (s.refresh_needed, refl))
          (λ g. (
            (refresh_ids s.order false s).0,
            ap (with_refresh (refresh_ids s.order false s).0) (refresh_ids-same s.order false s h),
          )))
  where
    Same : Bool × Registry → Type 0
    Same r = (b : Bool) × (r.1 ≡ with_refresh b s)

-- The search changes nothing but whether a refresh is needed.
pub next_available_id-same :
    (fuel id : ℕ) (s : Registry)
    → IsSynced s
    → (b : Bool) × ((next_available_id fuel id s).1 ≡ with_refresh b s)
unfolding next_available_id
next_available_id-same zero id s h = (s.refresh_needed, refl)
next_available_id-same (suc fuel) id s h =
    let (b, e) = is_id_in_use-same id s h in
    let k : IsSynced (is_id_in_use id s).1 = subst IsSynced (sym e) h in
    if-split Same (ltb 65534 id) (λ f. (s.refresh_needed, refl))
      (λ f.
        if-split Same (is_id_in_use id s).0
          (λ g.
            let (b', e') = next_available_id-same fuel (id + 2) (is_id_in_use id s).1 k in
            (b', e' ∙ ap (with_refresh b') e))
          (λ g. (b, e)))
  where
    Same : Option ℕ × Registry → Type 0
    Same r = (b : Bool) × (r.1 ≡ with_refresh b s)

-- The channel has got the identifier, and is registered under it; the others are as before.
pub record Gets (c id : ℕ) (s t : Registry) : Type 0 where
  pub others : (d : ℕ) → (d == c) ≡ false → t.channel d ≡ s.channel d
  pub own : t.channel c ≡ record (s.channel c) { assigned_id = some id; registered = some id }

abbrev pub with_id : ℕ → ℕ → Registry → Registry
with_id c id s = record s {
  channel = update c (record (s.channel c) { assigned_id = some id }) s.channel;
}

unregister-not_taken :
    (c id : ℕ) (s : Registry) → is_held id s ≡ false → is_taken c id (unregister c s) ≡ false
unfolding unregister is_held
unregister-not_taken c id s h = elim (Option-cases (s.channel c).registered) [
  | inl e ↦ rw (e, unregister) (ground arith)
  | inr (j, e) ↦ rw (e, unregister) (ground arith)
]

pub unregister-channel :
    (c : ℕ) (s : Registry)
    → ((d : ℕ) → (d == c) ≡ false → (unregister c s).channel d ≡ s.channel d)
      × ((unregister c s).channel c ≡ record (s.channel c) { registered = none })
unfolding unregister
unregister-channel c s = elim (Option-cases (s.channel c).registered) [
  | inl e ↦ rw (e, unregister) ((λ d f. refl), ap (λ r. record (s.channel c) { registered = r }) e)
  | inr (j, e) ↦ rw (e, unregister) ((λ d f. ground arith), ground arith)
]

take_id-channel :
    (c id : ℕ) (s : Registry)
    → ((d : ℕ) → (d == c) ≡ false → (take_id c id s).channel d ≡ s.channel d)
      × ((take_id c id s).channel c ≡ record (s.channel c) { registered = some id })
take_id-channel c id s = ((λ d f. ground arith), ground arith)

holds-some : (id : ℕ) (r : Option ℕ) → holds id r ≡ true → r ≡ some id
holds-some id none e = cc
holds-some id (some j) e = ground arith

-- An identifier that no open channel holds is given to the channel.
register-channel :
    (c id : ℕ) (s : Registry)
    → is_held id s ≡ false
    → ((d : ℕ) → (d == c) ≡ false → (register c (some id) s).channel d ≡ s.channel d)
      × ((register c (some id) s).channel c ≡ record (s.channel c) { registered = some id })
unfolding register
register-channel c id s h = elim (Bool-cases (holds id (s.channel c).registered)) [
  | inl e ↦ rw e (
    (λ d f. refl),
    ap (λ r. record (s.channel c) { registered = r }) (holds-some id (s.channel c).registered e),
  )
  | inr e ↦
      let t : Registry = unregister c s in
      let (o, w) = unregister-channel c s in
      let (o', w') = take_id-channel c id t in
      rw (e, unregister-not_taken c id s h)
        ((λ d f. o' d f ∙ o d f), w' ∙ ap (λ (x : Chan). record x { registered = some id }) w)
]

is_held-with_id : (c id j : ℕ) (s : Registry) → is_held j (with_id c id s) ≡ is_held j s
unfolding is_held
is_held-with_id c id j s = ground arith

pub register-Gets :
    (c id : ℕ) (s : Registry)
    → is_held id s ≡ false
    → Gets c id s (register c (some id) (with_id c id s))
register-Gets c id s h =
    let (o, w) = register-channel c id (with_id c id s) (is_held-with_id c id id s ∙ h) in
    let w0 : (with_id c id s).channel c ≡ record (s.channel c) { assigned_id = some id } =
      ground arith in
    record {
      others =
          λ d f. o d f ∙ (let e : (with_id c id s).channel d ≡ s.channel d = ground arith in e);
      own = w ∙ ap (λ (x : Chan). record x { registered = some id }) w0;
    }
