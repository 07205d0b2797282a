-- ===== src/Peer/Registry/Assignment.antt =====
-- The assignment of identifiers by the DTLS role (`_assignDataChannelIdsFromDtlsRole`).
use webrtc_node.Base.{
  ℕ, List, [], ◌∷◌, Option, none, some, Bool, true, false, ◌||◌, ◌≡◌, refl, sym, subst, Bool-cases,
  Option-cases, inl, inr, is_some, All, if-split,
}
use webrtc_node.Peer.Registry.{
  Chan, Registry, effective_id, is_held, next_available_id, assign_id, assign_ids,
  assign_data_channel_ids, assign_round, fail_channel,
}
use webrtc_node.Peer.Registry.Uniqueness.{IsSound, assign_data_channel_ids-IsSound}
use webrtc_node.Peer.Registry.Search.{next_available_id-free}
use webrtc_node.Peer.Registry.Sync.{IsSynced, Gets, with_refresh, next_available_id-same}
use webrtc_node.Peer.Registry.Moving.{
  IsInRange, IsMoved, IsServed, IsMoved-refl, IsMoved-trans, IsMoved-IsServed, got, Gets-IsSynced,
  Gets-IsMoved, assign_id-Gets, fail_channel-IsSynced, fail_channel-IsMoved, fail_channel-shut,
}

-- What a round does for a channel.
record IsRound (p c : ℕ) (s t : Registry) : Type 0 where
  is_synced : IsSynced t
  is_moved : IsMoved p s t
  is_served : IsServed (t.channel c)

skipped : (x : Chan) → (x.negotiated || is_some (effective_id x) || x.is_shut) ≡ true → IsServed x
skipped x e = elim (Bool-cases x.negotiated) [
  | inl n ↦ inl n
  | inr n ↦ elim (Bool-cases x.is_shut) [
    | inl o ↦ inr (inl o)
    | inr o ↦ elim (Option-cases (effective_id x)) [
      | inr k ↦ inr (inr k)
      | inl k ↦ let f : false ≡ true = rw (n, o, k) at e in cc
    ]
  ]
]

lacking :
    (x : Chan)
    → (x.negotiated || is_some (effective_id x) || x.is_shut) ≡ false
    → effective_id x ≡ none
lacking x e = elim (Option-cases (effective_id x)) [
  | inl k ↦ k
  | inr (id, k) ↦ elim (Bool-cases x.negotiated) [
    | inl n ↦ let f : true ≡ false = rw n at e in cc
    | inr n ↦ let f : true ≡ false = rw (n, k) at e in cc
  ]
]

failed-IsRound :
    (p c : ℕ) (b : Bool) (s : Registry)
    → IsSynced s
    → IsRound p c s (fail_channel c (with_refresh b s))
failed-IsRound p c b s h =
    let t : Registry = with_refresh b s in
    let m = fail_channel-IsMoved p c t in
    record {
      is_synced = fail_channel-IsSynced c t h;
      is_moved = record {
        keeps = m.keeps;
        gives = m.gives;
        stays_shut = m.stays_shut;
        same_negotiated = m.same_negotiated;
      };
      is_served = inr (inl (fail_channel-shut c t));
    }

given-IsRound :
    (p c id : ℕ) (b : Bool) (s : Registry)
    → IsSynced s
    → effective_id (s.channel c) ≡ none
    → IsInRange p id
    → is_held id (with_refresh b s) ≡ false
    → IsRound p c s (assign_id c id (with_refresh b s))
given-IsRound p c id b s h n r f =
    let t : Registry = with_refresh b s in
    let u : Registry = assign_id c id t in
    let g : Gets c id t u = assign_id-Gets c id t n f in
    let m = Gets-IsMoved p c id t u g n r in
    record {
      is_synced = Gets-IsSynced p c id t u g n h;
      is_moved = record {
        keeps = m.keeps;
        gives = m.gives;
        stays_shut = m.stays_shut;
        same_negotiated = m.same_negotiated;
      };
      is_served = inr (inr (id, got p c id t u g n c refl g.own));
    }

found-IsRound :
    (p c : ℕ) (s : Registry) (found : Option ℕ) (t : Registry)
    → IsSynced s
    → effective_id (s.channel c) ≡ none
    → (b : Bool) × (t ≡ with_refresh b s)
    → ((k : ℕ) → found ≡ some k → IsInRange p k × (is_held k t ≡ false))
    → IsRound p c s (elim found [ none ↦ fail_channel c t | some id ↦ assign_id c id t ])
found-IsRound p c s none t h n (b, q) f =
    subst (λ u. IsRound p c s (fail_channel c u)) (sym q) (failed-IsRound p c b s h)
found-IsRound p c s (some id) t h n (b, q) f =
    let (r, k) = f id refl in
    subst (λ u. IsRound p c s (assign_id c id u)) (sym q)
      (given-IsRound p c id b s h n r (subst (λ u. is_held id u ≡ false) q k))

assign_round-IsRound : (p c : ℕ) (s : Registry) → IsSynced s → IsRound p c s (assign_round p c s)
unfolding assign_round
assign_round-IsRound p c s h =
    let x : Chan = s.channel c in
    if-split (IsRound p c s) (x.negotiated || is_some (effective_id x) || x.is_shut)
      (λ e. record { is_synced = h; is_moved = IsMoved-refl p s; is_served = skipped x e })
      (λ e.
        found-IsRound p c s (next_available_id 32768 p s).0 (next_available_id 32768 p s).1 h
          (lacking x e) (next_available_id-same 32768 p s h)
          (λ k f. let (n, l, o) = next_available_id-free 32768 p k s f in ((n, l), o)))

-- What the rounds do.
record AreRounds (p : ℕ) (cs : List ℕ) (s t : Registry) : Type 0 where
  is_synced : IsSynced t
  is_moved : IsMoved p s t
  are_served : All (λ c. IsServed (t.channel c)) cs

assign_ids-AreRounds :
    (p : ℕ) (cs : List ℕ) (s : Registry) → IsSynced s → AreRounds p cs s (assign_ids p cs s)
unfolding assign_ids
assign_ids-AreRounds p [] s h = record {
  is_synced = h;
  is_moved = IsMoved-refl p s;
  are_served = tt;
}
assign_ids-AreRounds p (c ∷ cs) s h =
    let t : Registry = assign_round p c s in
    let r : IsRound p c s t = assign_round-IsRound p c s h in
    let k : AreRounds p cs t (assign_ids p cs t) = assign_ids-AreRounds p cs t r.is_synced in
    record {
      is_synced = k.is_synced;
      is_moved = IsMoved-trans p s t (assign_ids p cs t) r.is_moved k.is_moved;
      are_served =
          (IsMoved-IsServed p c t (assign_ids p cs t) k.is_moved r.is_served, k.are_served);
    }

-- No two different channels that are open have the same identifier.
abbrev pub AreUnique : Registry → Type 0
AreUnique t =
    (c d id : ℕ)
    → (t.channel c).is_shut ≡ false
    → (t.channel d).is_shut ≡ false
    → effective_id (t.channel c) ≡ some id
    → effective_id (t.channel d) ≡ some id
    → c ≡ d

synced-AreUnique : (t : Registry) → IsSound t → IsSynced t → AreUnique t
synced-AreUnique t h k c d id o o' e e' =
    let x = h.found id c (k c id o e) o in let y = h.found id d (k d id o' e') o' in cc

-- From a registry whose map and channels agree, and in which open channels are registered under the
-- identifiers that they have, the assignment by the DTLS role, for a parity p, leads to one such: in
-- it no two different open channels have the same identifier; the identifiers that channels had are
-- kept, each new one is p and a multiple of 2, and at most 65534; and each channel of the peer is
-- negotiated, or closed, or has an identifier.
pub assign_data_channel_ids_unique :
    (p : ℕ) (s : Registry)
    → IsSound s
    → IsSynced s
    → IsSound (assign_data_channel_ids (some p) s)
      × IsSynced (assign_data_channel_ids (some p) s)
      × AreUnique (assign_data_channel_ids (some p) s)
      × IsMoved p s (assign_data_channel_ids (some p) s)
      × All (λ c. IsServed ((assign_data_channel_ids (some p) s).channel c)) s.order
unfolding assign_data_channel_ids
assign_data_channel_ids_unique p s h k =
    let t : Registry = assign_ids p s.order s in
    let a : IsSound t = assign_data_channel_ids-IsSound (some p) s h in
    let r : AreRounds p s.order s t = assign_ids-AreRounds p s.order s k in
    (a, r.is_synced, synced-AreUnique t a r.is_synced, r.is_moved, r.are_served)
