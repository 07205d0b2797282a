-- ===== src/Peer/Registry/Uniqueness.antt =====
-- The map of identifiers and the channels of the registry agree.
use webrtc_node.Base.{
  ℕ, zero, suc, ◌+◌, List, [], ◌∷◌, Option, none, some, Bool, true, false, not, ◌≡◌, refl, sym,
  arith, ◌==◌, if◌then◌else◌, Bool-cases, Option-cases, inl, inr, ◌∙◌, ◌||◌, is_some, subst, ltb,
  if-holds, keep, ◌++◌,
}
use webrtc_node.Peer.Registry.{
  Chan, Registry, update, effective_id, holds, unregister, is_taken, take_id, register, is_held,
  refresh_ids, is_id_in_use, next_available_id, assign_id, assign_ids, assign_data_channel_ids,
  assign_round, fail_channel, log_call, Call, gives_id, repairs, fails,
}

-- What the map says of an identifier, the channel confirms; and a channel that is not closed is the
-- one that the map has for its identifier.
pub record IsSound (s : Registry) : Type 0 where
  pub confirmed : (id c : ℕ) → s.used id ≡ some c → (s.channel c).registered ≡ some id
  pub found :
      (id c : ℕ)
      → (s.channel c).registered ≡ some id
      → (s.channel c).is_shut ≡ false
      → s.used id ≡ some c

unregister-IsSound : (c : ℕ) (s : Registry) → IsSound s → IsSound (unregister c s)
unfolding unregister
unregister-IsSound c s h = elim (Option-cases (s.channel c).registered) [
  | inl e ↦ rw (e, unregister) h
  | inr (id, e) ↦
      rw (e, unregister)
        (record {
          confirmed = λ j d u. ground (arith, h.confirmed j d, h.confirmed j c);
          found = λ j d u v. ground (arith, h.found j d, h.found id c);
        })
]

take_id-IsSound :
    (c id : ℕ) (s : Registry)
    → (s.channel c).registered ≡ none
    → is_taken c id s ≡ false
    → IsSound s
    → IsSound (take_id c id s)
take_id-IsSound c id s n f h = record {
  confirmed = λ j d u. ground (arith, h.confirmed j d, h.confirmed j c);
  found = λ j d u v. ground (arith, h.found j d);
}

unregister_clears : (c : ℕ) (s : Registry) → ((unregister c s).channel c).registered ≡ none
unfolding unregister
unregister_clears c s = elim (Option-cases (s.channel c).registered) [
  | inl e ↦ rw (e, unregister) e
  | inr (id, e) ↦ rw (e, unregister) (ground arith)
]

pub register-IsSound :
    (c : ℕ) (id : Option ℕ) (s : Registry) → IsSound s → IsSound (register c id s)
unfolding register
register-IsSound c none s h = h
register-IsSound c (some id) s h = elim (Bool-cases (holds id (s.channel c).registered)) [
  | inl e ↦ rw e h
  | inr e ↦ rw e (
      let t : Registry = unregister c s in
      let k : IsSound t = unregister-IsSound c s h in
      elim (Bool-cases (is_taken c id t)) [
        | inl f ↦ rw f k
        | inr f ↦ rw f (take_id-IsSound c id t (unregister_clears c s) f k)
      ])
]

-- A registry with the same map, in which each channel has the same identifier and is closed or not
-- as before, or is closed now.
abbrev Agrees : Registry → Registry → Type 0
Agrees s t =
    (t.used ≡ s.used)
    × ((c : ℕ) → (t.channel c).registered ≡ (s.channel c).registered)
    × ((c : ℕ) → (t.channel c).is_shut ≡ false → (s.channel c).is_shut ≡ false)

Agrees-IsSound : (s t : Registry) → Agrees s t → IsSound s → IsSound t
Agrees-IsSound s t (u, r, o) h = record {
  confirmed = λ id c e. r c ∙ h.confirmed id c (subst (λ f. f id ≡ some c) u e);
  found = λ id c e f. subst (λ g. g id ≡ some c) (sym u) (h.found id c (sym (r c) ∙ e) (o c f));
}

refresh_ids-IsSound :
    (cs : List ℕ) (b : Bool) (s : Registry) → IsSound s → IsSound (refresh_ids cs b s).1
unfolding refresh_ids
refresh_ids-IsSound [] b s h = h
refresh_ids-IsSound (c ∷ cs) b s h = elim (Bool-cases (s.channel c).is_shut) [
  | inl e ↦ rw e (refresh_ids-IsSound cs b s h)
  | inr e ↦ rw e (elim (Option-cases (effective_id (s.channel c))) [
    | inl f ↦ rw (f, refresh_ids) (refresh_ids-IsSound cs true s h)
    | inr (id, f) ↦
        rw (f, refresh_ids)
          (refresh_ids-IsSound cs b (register c (some id) s) (register-IsSound c (some id) s h))
  ])
]

is_id_in_use-IsSound : (id : ℕ) (s : Registry) → IsSound s → IsSound (is_id_in_use id s).1
unfolding is_id_in_use
is_id_in_use-IsSound id s h =
    if-holds (λ (r : Bool × Registry). IsSound r.1) (is_held id s) h
      (if-holds (λ (r : Bool × Registry). IsSound r.1) (not s.refresh_needed) h
        (Agrees-IsSound (refresh_ids s.order false s).1 _ (refl, (λ c. refl), (λ c x. x))
          (refresh_ids-IsSound s.order false s h)))

next_available_id-IsSound :
    (fuel id : ℕ) (s : Registry) → IsSound s → IsSound (next_available_id fuel id s).1
unfolding next_available_id
next_available_id-IsSound zero id s h = h
next_available_id-IsSound (suc fuel) id s h =
    let t : Registry = (is_id_in_use id s).1 in
    let k : IsSound t = is_id_in_use-IsSound id s h in
    elim (Bool-cases (ltb 65534 id)) [
      | inl e ↦ rw e h
      | inr e ↦ rw e (elim (Bool-cases (is_id_in_use id s).0) [
        | inl f ↦ rw f (next_available_id-IsSound fuel (id + 2) t k)
        | inr f ↦ rw f k
      ])
    ]

log_call-IsSound : (c : Call) (s : Registry) → IsSound s → IsSound (log_call c s)
log_call-IsSound c s h = Agrees-IsSound s (log_call c s) (refl, (λ d. refl), (λ d e. e)) h

assign_id-IsSound : (c id : ℕ) (s : Registry) → IsSound s → IsSound (assign_id c id s)
unfolding assign_id
assign_id-IsSound c id s h =
    let s' : Registry = record s {
      channel = update c (record (s.channel c) { assigned_id = some id }) s.channel;
    } in
    let t : Registry = register c (some id) s' in
    let k : IsSound t =
      register-IsSound c (some id) s'
        (Agrees-IsSound s s' (refl, (λ d. ground arith), (λ d e. ground arith)) h) in
    let u : Registry = if (t.channel c).peer_lacks_id then log_call (gives_id c id) t else t in
    let l : IsSound u =
      if-holds IsSound (t.channel c).peer_lacks_id (log_call-IsSound (gives_id c id) t k) k in
    if-holds IsSound (is_some (effective_id (s.channel c))) h
      (if-holds IsSound u.has_paired_peer (log_call-IsSound repairs u l) l)

fail_channel-IsSound : (c : ℕ) (s : Registry) → IsSound s → IsSound (fail_channel c s)
unfolding fail_channel
fail_channel-IsSound c s h = unregister-IsSound c _ (
    Agrees-IsSound s
      (record s {
        channel = update c (record (s.channel c) { is_shut = true }) s.channel;
        order = keep (λ j. not (j == c)) s.order;
        calls = s.calls ++ fails c ∷ [];
      })
      (refl, (λ d. ground arith), (λ d e. ground arith)) h)

assign_round-IsSound : (p c : ℕ) (s : Registry) → IsSound s → IsSound (assign_round p c s)
unfolding assign_round
assign_round-IsSound p c s h =
    let t : Registry = (next_available_id 32768 p s).1 in
    let k : IsSound t = next_available_id-IsSound 32768 p s h in
    let d : Chan = s.channel c in
    if-holds IsSound (d.negotiated || is_some (effective_id d) || d.is_shut) h
      (go (next_available_id 32768 p s).0 t k)
  where
    go :
        (found : Option ℕ) (t : Registry)
        → IsSound t
        → IsSound (elim found [ none ↦ fail_channel c t | some id ↦ assign_id c id t ])
    go none t k = fail_channel-IsSound c t k
    go (some id) t k = assign_id-IsSound c id t k

assign_ids-IsSound : (p : ℕ) (cs : List ℕ) (s : Registry) → IsSound s → IsSound (assign_ids p cs s)
unfolding assign_ids
assign_ids-IsSound p [] s h = h
assign_ids-IsSound p (c ∷ cs) s h =
    assign_ids-IsSound p cs (assign_round p c s) (assign_round-IsSound p c s h)

pub assign_data_channel_ids-IsSound :
    (parity : Option ℕ) (s : Registry) → IsSound s → IsSound (assign_data_channel_ids parity s)
unfolding assign_data_channel_ids
assign_data_channel_ids-IsSound none s h = h
assign_data_channel_ids-IsSound (some p) s h = assign_ids-IsSound p s.order s h
