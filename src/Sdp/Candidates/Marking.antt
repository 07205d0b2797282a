-- ===== src/Sdp/Candidates/Marking.antt =====
-- The sections that a candidate names, and what `selectCandidateSections` marks.
use webrtc_node.Base.{
  ℕ, zero, suc, ◌+◌, ◌<◌, Str, str_eq_iff, str_eq_refl, List, [], ◌∷◌, Option, none, some, ◌≡◌,
  refl, ap, map, Bool, true, false, arith, Bool-cases, inl, inr, Num, integer, pos,
}
use webrtc_node.Sdp.Sections.{Section}
use webrtc_node.Sdp.Candidates.{Candidate, mark_first, mark_index, opt_eq}

-- The i-th section, with this mid and ufrag, is one that a candidate names: by its sdpMid, or else by
-- its sdpMLineIndex, or else by its usernameFragment, or else it names all sections.
abbrev pub Names : Option Str → Option Num → Option Str → ℕ → (mid ice_ufrag : Option Str) → Type 0
Names (some name) n u i mid ice_ufrag = mid ≡ some name
Names none (some n) u i mid ice_ufrag = n ≡ integer (pos i)
Names none none (some u) i mid ice_ufrag = ice_ufrag ≡ some u
Names none none none i mid ice_ufrag = Unit

abbrev pub IsNamed : Candidate → ℕ → Section → Type 0
IsNamed c i s = Names c.sdp_mid c.sdp_m_line_index c.username_fragment i s.mid s.ice_ufrag

-- The ufrag of a section agrees with the usernameFragment, if there is one.
abbrev pub Agrees : Option Str → Option Str → Type 0
Agrees none ice_ufrag = Unit
Agrees (some u) ice_ufrag = ice_ufrag ≡ some u

-- What the marks of the sections say.
abbrev pub Sees : Candidate → ℕ → List Bool → List Section → Type 0
Sees c i [] [] = Unit
Sees c i (b ∷ bs) (s ∷ ss) =
    (b ≡ true → IsNamed c i s)
    × (c.sdp_mid ≡ none → IsNamed c i s → b ≡ true)
    × Sees c (i + 1) bs ss
Sees c i _ _ = ⊥

pub opt_eq-equal : (a : Option Str) (s : Str) → opt_eq a (some s) ≡ true → a ≡ some s
opt_eq-equal none s e = cc
opt_eq-equal (some t) s e = ap some ((str_eq_iff t s).0 e)

mid-unmarked :
    (x mid : Str) (n : Option Num) (u : Option Str) (i : ℕ) (ss : List Section)
    → Sees
        (record { candidate = x; sdp_mid = some mid; sdp_m_line_index = n; username_fragment = u })
        i
        (map (λ _. false) ss)
        ss
mid-unmarked x mid n u i [] = tt
mid-unmarked x mid n u i (s ∷ ss) = (λ f. cc, λ k f. cc, mid-unmarked x mid n u (i + 1) ss)

pub mid-Sees :
    (x mid : Str) (n : Option Num) (u : Option Str) (i : ℕ) (ss : List Section)
    → Sees
        (record { candidate = x; sdp_mid = some mid; sdp_m_line_index = n; username_fragment = u })
        i
        (mark_first (λ s. opt_eq s.mid (some mid)) ss)
        ss
unfolding mark_first
mid-Sees x mid n u i [] = tt
mid-Sees x mid n u i (s ∷ ss) = elim (Bool-cases (opt_eq s.mid (some mid))) [
  | inl e ↦ rw e (λ _. opt_eq-equal s.mid mid e, λ k f. cc, mid-unmarked x mid n u (i + 1) ss)
  | inr e ↦ rw e (λ f. cc, λ k f. cc, mid-Sees x mid n u (i + 1) ss)
]

index-unmarked :
    (x : Str) (n : ℕ) (u : Option Str) (i : ℕ) (ss : List Section)
    → n < i
    → Sees
        (record {
          candidate = x;
          sdp_mid = none;
          sdp_m_line_index = some (integer (pos n));
          username_fragment = u;
        })
        i
        (map (λ _. false) ss)
        ss
index-unmarked x n u i [] h = tt
index-unmarked x n u i (s ∷ ss) h = (
  λ f. cc,
  λ k f. let p : n ≡ i = cc in absurd (omega arith),
  index-unmarked x n u (i + 1) ss (omega arith),
)

pub index-Sees :
    (x : Str) (n : ℕ) (u : Option Str) (i j : ℕ) (ss : List Section)
    → n ≡ i + j
    → Sees
        (record {
          candidate = x;
          sdp_mid = none;
          sdp_m_line_index = some (integer (pos n));
          username_fragment = u;
        })
        i
        (mark_index j ss)
        ss
unfolding mark_index
index-Sees x n u i j [] h = tt
index-Sees x n u i zero (s ∷ ss) h =
    let p : n ≡ i = omega arith in
    (λ _. ap (λ k. integer (pos k)) p, λ k f. refl, index-unmarked x n u (i + 1) ss (omega arith))
index-Sees x n u i (suc j) (s ∷ ss) h = (
  λ f. cc,
  λ k f. let p : n ≡ i = cc in absurd (omega arith),
  index-Sees x n u (i + 1) j ss (omega arith),
)

pub ufrag-Sees :
    (x u : Str) (i : ℕ) (ss : List Section)
    → Sees
        (record {
          candidate = x;
          sdp_mid = none;
          sdp_m_line_index = none;
          username_fragment = some u;
        })
        i
        (map (λ s. opt_eq s.ice_ufrag (some u)) ss)
        ss
ufrag-Sees x u i [] = tt
ufrag-Sees x u i (s ∷ ss) =
    (opt_eq-equal s.ice_ufrag u, λ k p. rw p (str_eq_refl u), ufrag-Sees x u (i + 1) ss)

pub all-Sees :
    (x : Str) (i : ℕ) (ss : List Section)
    → Sees
        (record {
          candidate = x;
          sdp_mid = none;
          sdp_m_line_index = none;
          username_fragment = none;
        })
        i
        (map (λ _. true) ss)
        ss
all-Sees x i [] = tt
all-Sees x i (s ∷ ss) = (λ _. tt, λ k p. refl, all-Sees x (i + 1) ss)
