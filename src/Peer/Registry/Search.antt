-- ===== src/Peer/Registry/Search.antt =====
-- The search for a free identifier (`_nextAvailableDataChannelId`).
use webrtc_node.Base.{
  ℕ, zero, suc, ◌+◌, ◌*◌, ◌≤◌, ◌<◌, Option, none, some, Bool, true, false, ◌≡◌, arith, ltb,
  if◌then◌else◌, ap, sym, subst, not, if-split,
}
use webrtc_node.Peer.Registry.{Registry, is_held, is_id_in_use, next_available_id, after_refresh}

is_id_in_use-held :
    (id : ℕ) (s : Registry)
    → (is_id_in_use id s).0 ≡ false
    → is_held id (is_id_in_use id s).1 ≡ false
unfolding is_id_in_use is_held
is_id_in_use-held id s =
    if-split Free (is_held id s) (λ f e. cc)
      (λ f. if-split Free (not s.refresh_needed) {y = after_refresh id s} (λ g e. f) (λ g e. e))
  where
    Free : Bool × Registry → Type 0
    Free r = r.0 ≡ false → is_held id r.1 ≡ false

-- An identifier that the search finds is at most 65534, is an even number of steps from the first
-- that was tried, so that it has the parity asked for, and is held by no open channel then.
pub next_available_id-free :
    (fuel id k : ℕ) (s : Registry)
    → (next_available_id fuel id s).0 ≡ some k
    → ((n : ℕ) × (k ≡ id + 2 * n))
      × (k ≤ 65534)
      × (is_held k (next_available_id fuel id s).1 ≡ false)
unfolding next_available_id
next_available_id-free zero id k s = λ e. cc
next_available_id-free (suc fuel) id k s =
    let t : Registry = (is_id_in_use id s).1 in
    if-split Found (ltb 65534 id) (λ f e. cc)
      (λ f.
        if-split Found (is_id_in_use id s).0
          (λ g e.
            let ((n, p), q, h) = next_available_id-free fuel (id + 2) k t e in
            ((n + 1, omega (arith, p)), q, h))
          (λ g e.
            let p : id ≡ k = cc in
            (
              (0, omega (arith, p)),
              ground arith,
              subst (λ j. is_held j t ≡ false) p (is_id_in_use-held id s g),
            )))
  where
    Found : Option ℕ × Registry → Type 0
    Found r = r.0 ≡ some k → ((n : ℕ) × (k ≡ id + 2 * n)) × (k ≤ 65534) × (is_held k r.1 ≡ false)

-- Without a refresh, the test is whether an open channel has the identifier, and changes nothing.
is_id_in_use-plain :
    (id : ℕ) (s : Registry) → s.refresh_needed ≡ false → is_id_in_use id s ≡ (is_held id s, s)
unfolding is_id_in_use
is_id_in_use-plain id s r =
    if-split (λ r. r ≡ (is_held id s, s)) (is_held id s) (λ f. ap (λ b. (b, s)) (sym f))
      (λ f.
        if-split (λ r. r ≡ (is_held id s, s)) (not s.refresh_needed) {y = after_refresh id s}
          (λ g. ap (λ b. (b, s)) (sym f)) (λ g. cc))

-- A failing search has gone on behind an identifier that is held.
passed :
    (id : ℕ) (s : Registry) (rest : Option ℕ × Registry)
    → (if is_held id s then rest else (some id, s)).0 ≡ none
    → (is_held id s ≡ true) × (rest.0 ≡ none)
passed id s rest =
    if-split (λ (r : Option ℕ × Registry). r.0 ≡ none → (is_held id s ≡ true) × (rest.0 ≡ none))
      (is_held id s) (λ h e. (h, e)) (λ h e. cc)

in_steps :
    (id n : ℕ) (s : Registry)
    → is_held id s ≡ true
    → ((m : ℕ) → id + 2 + 2 * m ≤ 65534 → is_held (id + 2 + 2 * m) s ≡ true)
    → id + 2 * n ≤ 65534
    → is_held (id + 2 * n) s ≡ true
in_steps id zero s h k l = subst (λ j. is_held j s ≡ true) (omega arith) h
in_steps id (suc n) s h k l = subst (λ j. is_held j s ≡ true) (omega arith) (k n (omega arith))

-- Where no refresh is needed and the fuel reaches beyond 65534, as 32768 rounds do: the search fails
-- only if each identifier that it tries is held by an open channel.
pub next_available_id-none :
    (fuel id n : ℕ) (s : Registry)
    → s.refresh_needed ≡ false
    → 65534 < id + 2 * fuel
    → (next_available_id fuel id s).0 ≡ none
    → id + 2 * n ≤ 65534
    → is_held (id + 2 * n) s ≡ true
unfolding next_available_id
next_available_id-none zero id n s r f e l = absurd (omega arith)
next_available_id-none (suc fuel) id n s r f e l =
    let g : ltb 65534 id ≡ false = ground arith in
    let (h, k) = passed id s _ (rw (g, is_id_in_use-plain id s r) at e) in
    in_steps id n s h (λ m p. next_available_id-none fuel (id + 2) m s r (omega arith) k p) l
