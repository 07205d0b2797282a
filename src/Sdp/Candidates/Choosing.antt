-- ===== src/Sdp/Candidates/Choosing.antt =====
-- A successful choice of sections marks what the candidate names (`selectCandidateSections`).
use webrtc_node.Base.{
  ℕ, zero, suc, ◌+◌, Str, List, [], ◌∷◌, Option, none, some, ◌≡◌, refl, map, Bool, true, false, any,
  length, leb, arith, Bool-cases, inl, inr, if◌then◌else◌, ok, err, operation_error, Num, integer,
  pos, >>=-eq-ok, subst, ◌⊎◌,
}
use webrtc_node.Sdp.Sections.{Section}
use webrtc_node.Sdp.Candidates.{
  Candidate, choose_sections, select_candidate_sections, mark_first, mark_index, any_marked,
  is_true, opt_eq,
}
use webrtc_node.Sdp.Candidates.Marking.{
  Agrees, Sees, mid-Sees, index-Sees, ufrag-Sees, all-Sees, opt_eq-equal,
}

abbrev any_section : Section → Bool
any_section s = true

any-marked :
    (p : Section → Bool) (ss : List Section)
    → any is_true (mark_first p ss) ≡ true
    → any_marked any_section ss (mark_first p ss) ≡ true
unfolding mark_first
any-marked p [] e = e
any-marked p (s ∷ ss) e = elim (Bool-cases (p s)) [
  | inl f ↦ rw f refl
  | inr f ↦ rw f (any-marked p ss (rw f at e))
]

any-mapped :
    (p : Section → Bool) (ss : List Section)
    → any is_true (map p ss) ≡ true
    → any_marked any_section ss (map p ss) ≡ true
any-mapped p [] e = e
any-mapped p (s ∷ ss) e = elim (Bool-cases (p s)) [
  | inl f ↦ rw f refl
  | inr f ↦ rw f (any-mapped p ss (rw f at e))
]

any-indexed :
    (i : ℕ) (ss : List Section)
    → leb (i + 1) (length ss) ≡ true
    → any_marked any_section ss (mark_index i ss) ≡ true
unfolding mark_index
any-indexed i [] e = absurd (ground arith)
any-indexed zero (s ∷ ss) e = refl
any-indexed (suc i) (s ∷ ss) e = any-indexed i ss (ground arith)

guarded :
    (b : Bool) (v w : List Bool)
    → (if b then ok v else err operation_error) ≡ ok w
    → (b ≡ true) × (v ≡ w)
guarded true v w e = (refl, cc)
guarded false v w e = cc

-- A successful choice marks what the candidate names, and something if there are sections.
pub chosen :
    (x : Str) (m : Option Str) (n : Option Num) (u : Option Str) (s : Section) (ss : List Section)
    (w : List Bool)
    → choose_sections
        (s ∷ ss)
        (record { candidate = x; sdp_mid = m; sdp_m_line_index = n; username_fragment = u })
      ≡ ok w
    → Sees
        (record { candidate = x; sdp_mid = m; sdp_m_line_index = n; username_fragment = u })
        0
        w
        (s ∷ ss)
      × (any_marked any_section (s ∷ ss) w ≡ true)
unfolding choose_sections
chosen x (some mid) n u s ss w e =
    let p : Section → Bool = λ t. opt_eq t.mid (some mid) in
    let c : Candidate = record {
      candidate = x;
      sdp_mid = some mid;
      sdp_m_line_index = n;
      username_fragment = u;
    } in
    let (f, q) = guarded (any is_true (mark_first p (s ∷ ss))) _ w e in
    subst (λ v. Sees c 0 v (s ∷ ss) × (any_marked any_section (s ∷ ss) v ≡ true)) q
      (mid-Sees x mid n u 0 (s ∷ ss), any-marked p (s ∷ ss) f)
chosen x none (some (integer (pos i))) u s ss w e =
    let c : Candidate = record {
      candidate = x;
      sdp_mid = none;
      sdp_m_line_index = some (integer (pos i));
      username_fragment = u;
    } in
    let (f, q) = guarded (leb (i + 1) (length (s ∷ ss))) (mark_index i (s ∷ ss)) w e in
    subst (λ v. Sees c 0 v (s ∷ ss) × (any_marked any_section (s ∷ ss) v ≡ true)) q
      (index-Sees x i u 0 i (s ∷ ss) (omega arith), any-indexed i (s ∷ ss) f)
chosen x none (some n) u s ss w e = cc
chosen x none none (some u) s ss w e =
    let p : Section → Bool = λ t. opt_eq t.ice_ufrag (some u) in
    let c : Candidate = record {
      candidate = x;
      sdp_mid = none;
      sdp_m_line_index = none;
      username_fragment = some u;
    } in
    let (f, q) = guarded (any is_true (map p (s ∷ ss))) _ w e in
    subst (λ v. Sees c 0 v (s ∷ ss) × (any_marked any_section (s ∷ ss) v ≡ true)) q
      (ufrag-Sees x u 0 (s ∷ ss), any-mapped p (s ∷ ss) f)
chosen x none none none s ss w e =
    let c : Candidate = record {
      candidate = x;
      sdp_mid = none;
      sdp_m_line_index = none;
      username_fragment = none;
    } in
    let q : map (λ _. true) (s ∷ ss) ≡ w = cc in
    subst (λ v. Sees c 0 v (s ∷ ss) × (any_marked any_section (s ∷ ss) v ≡ true)) q
      (all-Sees x 0 (s ∷ ss), refl)

-- Marks of sections: they say what the candidate names, and if there are sections, one that is
-- marked has the ufrag of the candidate, if it has one.
pub record Selects (c : Candidate) (w : List Bool) (ss : List Section) : Type 0 where
  pub sees : Sees c 0 w ss
  pub selects_some :
      (ss ≡ [])
      ⊎ ((q : Section → Bool) × ((s : Section)
            → q s ≡ true
            → Agrees c.username_fragment s.ice_ufrag)
          × (any_marked q ss w ≡ true))

pub selected-Selects :
    (c : Candidate) (ss : List Section) (w : List Bool)
    → select_candidate_sections ss c ≡ ok w
    → Selects c w ss
unfolding select_candidate_sections
selected-Selects c [] w e =
    let q : [] ≡ w = cc in
    subst (λ v. Selects c v []) q (record { sees = tt; selects_some = inl refl })
selected-Selects c (s ∷ ss) w e =
    let (v, f, g) = >>=-eq-ok (choose_sections (s ∷ ss) c) _ e in
    let (h, k) = chosen c.candidate c.sdp_mid c.sdp_m_line_index c.username_fragment s ss v f in
    go c.username_fragment v refl h k g
  where
    go :
        (u : Option Str) (v : List Bool)
        → c.username_fragment ≡ u
        → Sees c 0 v (s ∷ ss)
        → any_marked any_section (s ∷ ss) v ≡ true
        → elim u [
          | none ↦ ok v
          | some u' ↦
              if any_marked (λ t. opt_eq t.ice_ufrag (some u')) (s ∷ ss) v
              then ok v
              else err operation_error
        ]
          ≡ ok w
        → Selects c w (s ∷ ss)
    go none v p h k g =
        let q : v ≡ w = cc in
        subst (λ x. Selects c x (s ∷ ss)) q
          (record { sees = h; selects_some = inr (any_section, λ t _. rw p tt, k) })
    go (some u) v p h k g =
        let (f, q) = guarded (any_marked (λ t. opt_eq t.ice_ufrag (some u)) (s ∷ ss) v) v w g in
        subst (λ x. Selects c x (s ∷ ss)) q
          (record {
            sees = h;
            selects_some =
                inr
                  (λ t. opt_eq t.ice_ufrag (some u), λ t y. rw p (opt_eq-equal t.ice_ufrag u y), f);
          })
