-- ===== src/Peer/Registry/Moving.antt =====
-- What giving an identifier to a channel, and failing a channel, do to the channels.
use webrtc_node.Base.{
  ℕ, ◌+◌, ◌*◌, ◌≤◌, [], ◌∷◌, Option, none, some, true, false, ◌≡◌, refl, sym, ap, subst, arith,
  ◌==◌, Bool-cases, inl, inr, ◌⊎◌, ◌∙◌, or_else, if-holds, not, keep, ◌++◌, if◌then◌else◌,
}
use webrtc_node.Peer.Registry.{
  Chan, Registry, Call, effective_id, unregister, is_held, assign_id, fail_channel, log_call,
  update, register, gives_id, repairs, fails,
}
use webrtc_node.Peer.Registry.Sync.{IsSynced, Gets, register-Gets, unregister-channel, with_id}

-- An identifier of the parity, up to the last one.
abbrev pub IsInRange : ℕ → ℕ → Type 0
IsInRange p id = ((n : ℕ) × (id ≡ p + 2 * n)) × (id ≤ 65534)

-- Identifiers are kept, and those that are new are of the parity and in range; a channel that is
-- closed stays so.
pub record IsMoved (p : ℕ) (s t : Registry) : Type 0 where
  pub keeps :
      (d id : ℕ) → effective_id (s.channel d) ≡ some id → effective_id (t.channel d) ≡ some id
  pub gives :
      (d id : ℕ)
      → effective_id (t.channel d) ≡ some id
      → (effective_id (s.channel d) ≡ some id) ⊎ IsInRange p id
  pub stays_shut : (d : ℕ) → (s.channel d).is_shut ≡ true → (t.channel d).is_shut ≡ true
  pub same_negotiated : (d : ℕ) → (t.channel d).negotiated ≡ (s.channel d).negotiated

-- A channel that is negotiated, closed, or has an identifier.
abbrev pub IsServed : Chan → Type 0
IsServed x = (x.negotiated ≡ true) ⊎ ((x.is_shut ≡ true) ⊎ ((id : ℕ) × (effective_id x ≡ some id)))

pub IsMoved-refl : (p : ℕ) (s : Registry) → IsMoved p s s
IsMoved-refl p s = record {
  keeps = λ d id e. e;
  gives = λ d id e. inl e;
  stays_shut = λ d e. e;
  same_negotiated = λ d. refl;
}

pub IsMoved-trans : (p : ℕ) (s t u : Registry) → IsMoved p s t → IsMoved p t u → IsMoved p s u
IsMoved-trans p s t u h k = record {
  keeps = λ d id e. k.keeps d id (h.keeps d id e);
  gives = λ d id e. elim (k.gives d id e) [ inl f ↦ h.gives d id f | inr r ↦ inr r ];
  stays_shut = λ d e. k.stays_shut d (h.stays_shut d e);
  same_negotiated = λ d. k.same_negotiated d ∙ h.same_negotiated d;
}

pub IsMoved-IsServed :
    (p c : ℕ) (s t : Registry) → IsMoved p s t → IsServed (s.channel c) → IsServed (t.channel c)
IsMoved-IsServed p c s t h (inl e) = inl (h.same_negotiated c ∙ e)
IsMoved-IsServed p c s t h (inr (inl e)) = inr (inl (h.stays_shut c e))
IsMoved-IsServed p c s t h (inr (inr (id, e))) = inr (inr (id, h.keeps c id e))

or_else-none : (a b : Option ℕ) (id : ℕ) → or_else a b ≡ none → or_else a (some id) ≡ some id
or_else-none none b id e = refl
or_else-none (some j) b id e = cc

-- A channel is as before, or the one that has got the identifier.
Gets-cases :
    (c id : ℕ) (s t : Registry)
    → Gets c id s t
    → (d : ℕ)
    → (t.channel d ≡ s.channel d)
      ⊎ ((d ≡ c)
          × (t.channel d ≡ record (s.channel d) { assigned_id = some id; registered = some id }))
Gets-cases c id s t g d = elim (Bool-cases (d == c)) [
  | inl e ↦
      let p : d ≡ c = ground arith in
      inr (
        p,
        subst
            (λ j.
              t.channel j ≡ record (s.channel j) { assigned_id = some id; registered = some id })
            (sym p) g.own,
      )
  | inr e ↦ inl (g.others d e)
]

module _ (p c id : ℕ) (s t : Registry) (g : Gets c id s t)
    (lacks : effective_id (s.channel c) ≡ none) where
  pub got :
      (d : ℕ)
      → d ≡ c
      → t.channel d ≡ record (s.channel d) { assigned_id = some id; registered = some id }
      → effective_id (t.channel d) ≡ some id
  got d q e =
      ap effective_id e
      ∙ or_else-none (s.channel d).native_id (s.channel d).assigned_id id
          (ap (λ j. effective_id (s.channel j)) q ∙ lacks)

  pub Gets-IsSynced : IsSynced s → IsSynced t
  Gets-IsSynced h d j o e = elim (Gets-cases c id s t g d) [
    | inl f ↦
        ap Chan.registered f ∙ h d j (sym (ap Chan.is_shut f) ∙ o) (sym (ap effective_id f) ∙ e)
    | inr (q, f) ↦ ap Chan.registered f ∙ (sym (got d q f) ∙ e)
  ]

  pub Gets-IsMoved : IsInRange p id → IsMoved p s t
  Gets-IsMoved r = record {
    keeps = λ d j e. elim (Gets-cases c id s t g d) [
      | inl f ↦ ap effective_id f ∙ e
      | inr (q, f) ↦
          let n : effective_id (s.channel d) ≡ none =
            ap (λ k. effective_id (s.channel k)) q ∙ lacks in
          cc
    ];
    gives = λ d j e. elim (Gets-cases c id s t g d) [
      | inl f ↦ inl (sym (ap effective_id f) ∙ e)
      | inr (q, f) ↦
          let same : some id ≡ some j = sym (got d q f) ∙ e in
          let k : id ≡ j = cc in inr (subst (IsInRange p) k r)
    ];
    stays_shut = λ d e. elim (Gets-cases c id s t g d) [
      | inl f ↦ ap Chan.is_shut f ∙ e
      | inr (q, f) ↦ ap Chan.is_shut f ∙ e
    ];
    same_negotiated = λ d. elim (Gets-cases c id s t g d) [
      | inl f ↦ ap Chan.negotiated f
      | inr (q, f) ↦ ap Chan.negotiated f
    ];
  }

log_call-Gets : (c id : ℕ) (x : Call) (s t : Registry) → Gets c id s t → Gets c id s (log_call x t)
log_call-Gets c id x s t g = record { others = g.others; own = g.own }

pub assign_id-Gets :
    (c id : ℕ) (s : Registry)
    → effective_id (s.channel c) ≡ none
    → is_held id s ≡ false
    → Gets c id s (assign_id c id s)
unfolding assign_id
assign_id-Gets c id s e h =
    let t : Registry = register c (some id) (with_id c id s) in
    let g : Gets c id s t = register-Gets c id s h in
    let u : Registry = if (t.channel c).peer_lacks_id then log_call (gives_id c id) t else t in
    let k : Gets c id s u =
      if-holds (Gets c id s) (t.channel c).peer_lacks_id (log_call-Gets c id (gives_id c id) s t g)
        g in
    rw e (if-holds (Gets c id s) u.has_paired_peer (log_call-Gets c id repairs s u k) k)

-- A channel that fails is closed, and the others are as before.
fail_channel-cases :
    (c : ℕ) (s : Registry) (d : ℕ)
    → ((fail_channel c s).channel d ≡ s.channel d)
      ⊎ ((d ≡ c)
          × ((fail_channel c s).channel d
              ≡ record (s.channel d) { is_shut = true; registered = none }))
unfolding fail_channel
fail_channel-cases c s d =
    let s' : Registry = record s {
      channel = update c (record (s.channel c) { is_shut = true }) s.channel;
      order = keep (λ j. not (j == c)) s.order;
      calls = s.calls ++ fails c ∷ [];
    } in
    let (o, w) = unregister-channel c s' in
    elim (Bool-cases (d == c)) [
      | inr e ↦ let f : s'.channel d ≡ s.channel d = ground arith in inl (o d e ∙ f)
      | inl e ↦
          let q : d ≡ c = ground arith in
          let f : s'.channel c ≡ record (s.channel c) { is_shut = true } = ground arith in
          inr (
            q,
            subst
                (λ j.
                  (unregister c s').channel j
                  ≡ record (s.channel j) { is_shut = true; registered = none })
                (sym q) (w ∙ ap (λ (x : Chan). record x { registered = none }) f),
          )
    ]

pub fail_channel-IsSynced : (c : ℕ) (s : Registry) → IsSynced s → IsSynced (fail_channel c s)
fail_channel-IsSynced c s h d j o e = elim (fail_channel-cases c s d) [
  | inl f ↦ ap Chan.registered f ∙ h d j (sym (ap Chan.is_shut f) ∙ o) (sym (ap effective_id f) ∙ e)
  | inr (q, f) ↦ let k : true ≡ false = sym (ap Chan.is_shut f) ∙ o in cc
]

pub fail_channel-IsMoved : (p c : ℕ) (s : Registry) → IsMoved p s (fail_channel c s)
fail_channel-IsMoved p c s = record {
  keeps = λ d j e. elim (fail_channel-cases c s d) [
    | inl f ↦ ap effective_id f ∙ e
    | inr (q, f) ↦ ap effective_id f ∙ e
  ];
  gives = λ d j e. elim (fail_channel-cases c s d) [
    | inl f ↦ inl (sym (ap effective_id f) ∙ e)
    | inr (q, f) ↦ inl (sym (ap effective_id f) ∙ e)
  ];
  stays_shut = λ d e. elim (fail_channel-cases c s d) [
    | inl f ↦ ap Chan.is_shut f ∙ e
    | inr (q, f) ↦ ap Chan.is_shut f
  ];
  same_negotiated = λ d. elim (fail_channel-cases c s d) [
    | inl f ↦ ap Chan.negotiated f
    | inr (q, f) ↦ ap Chan.negotiated f
  ];
}

pub fail_channel-shut : (c : ℕ) (s : Registry) → ((fail_channel c s).channel c).is_shut ≡ true
unfolding fail_channel
fail_channel-shut c s =
    let s' : Registry = record s {
      channel = update c (record (s.channel c) { is_shut = true }) s.channel;
      order = keep (λ j. not (j == c)) s.order;
      calls = s.calls ++ fails c ∷ [];
    } in
    let f : s'.channel c ≡ record (s.channel c) { is_shut = true } = ground arith in
    ap Chan.is_shut (unregister-channel c s').1 ∙ ap Chan.is_shut f
