-- ===== src/Peer/Descriptions/Coherence.antt =====
-- The description that a side shows, along the changes of its descriptions.
use webrtc_node.Base.{
  List, [], ◌∷◌, Option, none, some, true, false, ◌≡◌, refl, sym, arith, or_else, ◌⊎◌, inl, inr,
  ◌↔◌,
}
use webrtc_node.Sdp.Description.{offer, pranswer, Description}
use webrtc_node.Peer.Descriptions.{
  Side, set_pending, commit, roll_back, refresh, has_type, Signaling, stable,
  description_signaling_state,
}

-- A side shows its pending description, or its current one if none is pending.
abbrev pub IsCoherent : Side → Type 0
IsCoherent s = s.shown ≡ or_else s.pending s.current

-- The changes that a peer makes to a side.
pub data Change : Type 0 where
  sets_pending commits refreshes : Option Description → Change
  rolls_back : Change

unfoldable pub apply : Change → Side → Side
unfolding set_pending commit refresh roll_back
apply (sets_pending d) s = set_pending d s
apply (commits d) s = commit d s
apply (refreshes d) s = refresh d s
apply rolls_back s = roll_back s

unfoldable pub apply_all : List Change → Side → Side
unfolding apply
apply_all [] s = s
apply_all (c ∷ cs) s = apply_all cs (apply c s)

-- A refresh has the type of the pending description, where there is one.
abbrev pub Fits : Change → Side → Type 0
Fits (refreshes (some d)) s = (s.pending ≡ none) ⊎ (has_type d.type s.pending ≡ true)
Fits _ s = Unit

unfoldable pub AllFit : List Change → Side → Type 0
unfolding apply
AllFit [] s = Unit
AllFit (c ∷ cs) s = Fits c s × AllFit cs (apply c s)

apply-IsCoherent : (c : Change) (s : Side) → Fits c s → IsCoherent s → IsCoherent (apply c s)
unfolding apply set_pending commit refresh roll_back
apply-IsCoherent (sets_pending d) s f h = refl
apply-IsCoherent (commits d) s f h = refl
apply-IsCoherent (refreshes none) s f h = h
apply-IsCoherent (refreshes (some d)) s (inl e) h = rw e refl
apply-IsCoherent (refreshes (some d)) s (inr e) h = rw e refl
apply-IsCoherent rolls_back s f h = refl

-- Along any changes of a coherent side whose refreshes have the type of the description that is
-- pending, if one is: the side stays coherent.
pub apply_all-IsCoherent :
    (cs : List Change) (s : Side) → AllFit cs s → IsCoherent s → IsCoherent (apply_all cs s)
unfolding apply_all AllFit
apply_all-IsCoherent [] s f h = h
apply_all-IsCoherent (c ∷ cs) s (f, fs) h =
    apply_all-IsCoherent cs (apply c s) fs (apply-IsCoherent c s f h)

-- A description that is set as pending and rolled back leaves a coherent side without a pending one
-- as it was, and one that is set and committed is the current and the shown one.
pub set_pending-undo :
    (d : Description) (s : Side)
    → s.pending ≡ none
    → IsCoherent s
    → (roll_back (set_pending (some d) s) ≡ s)
      × (commit none (set_pending (some d) s)
          ≡ record { current = some d; pending = none; shown = some d })
unfolding set_pending commit roll_back
set_pending-undo d s e h =
    let k : s.shown ≡ s.current = rw e at h in
    ((λ i. record { current = s.current; pending = sym e i; shown = sym k i }), refl)

-- For a peer that is not closed, the state that its descriptions give is stable exactly if neither
-- side's pending description is an offer or a provisional answer.
pub description_signaling_state-stable :
    (s : Signaling)
    → s.peer_closed ≡ false
    → (description_signaling_state s ≡ stable) ↔ (
        (has_type offer s.local_side.pending ≡ false)
        × (has_type offer s.remote_side.pending ≡ false)
        × (has_type pranswer s.local_side.pending ≡ false)
        × (has_type pranswer s.remote_side.pending ≡ false))
unfolding description_signaling_state
description_signaling_state-stable s h = ground arith
