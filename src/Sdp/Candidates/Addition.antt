-- ===== src/Sdp/Candidates/Addition.antt =====
-- What a description is after a candidate was added (`appendRemoteCandidateToDescription`).
use webrtc_node.Base.{
  ℕ, ◌+◌, Str, codes, str_eq, str_eq_iff, List, [], ◌∷◌, ◌++◌, none, ◌≡◌, refl, sym, subst, Bool,
  true, false, arith, Bool-cases, inl, inr, ◌⊎◌, ok,
}
use webrtc_node.Sdp.Lines.Laws.{NoLf}
use webrtc_node.Sdp.Sections.{Section, Sdp, parse_sdp_media_sections}
use webrtc_node.Sdp.Description.{Description}
use webrtc_node.Sdp.Candidates.{
  Candidate, any_marked, push_line, push_marked, has_line, candidate_line, append_remote_candidate,
}
use webrtc_node.Sdp.Candidates.Stripping.{is_skipped}
use webrtc_node.Sdp.Candidates.Appending.{parse-append_lem}
use webrtc_node.Sdp.Candidates.Marking.{IsNamed, Agrees, Sees}
use webrtc_node.Sdp.Candidates.Choosing.{Selects, selected-Selects}

-- The line of a candidate; the empty candidate tells that there are no more.
abbrev pub IsLineOf : Str → Str → Type 0
IsLineOf [] line = line ≡ codes "a=end-of-candidates"
IsLineOf (c ∷ s) line = line ≡ codes "a=" ++ c ∷ s

abbrev pub IsAmong : Str → List Str → Type 0
IsAmong line [] = ⊥
IsAmong line (l ∷ ls) = (l ≡ line) ⊎ IsAmong line ls

-- The sections, of which the first has the index i, are as before, or named by the candidate and
-- longer by the line, which was not among theirs.
abbrev pub AreGrown : Candidate → Str → ℕ → List Section → List Section → Type 0
AreGrown c line i [] [] = Unit
AreGrown c line i (s ∷ ss) (t ∷ ts) =
    ((t ≡ s)
      ⊎ (IsNamed c i s
          × (¬ IsAmong line s.lines)
          × (t ≡ record s { lines = s.lines ++ line ∷ [] })))
    × AreGrown c line (i + 1) ss ts
AreGrown c line i _ _ = ⊥

-- One of the sections that the candidate names has the line, and the ufrag of the candidate.
abbrev pub IsReached : Candidate → Str → ℕ → List Section → Type 0
IsReached c line i [] = ⊥
IsReached c line i (t ∷ ts) =
    (IsNamed c i t × Agrees c.username_fragment t.ice_ufrag × IsAmong line t.lines)
    ⊎ IsReached c line (i + 1) ts

-- All of the sections that the candidate names have the line.
abbrev pub AreReached : Candidate → Str → ℕ → List Section → Type 0
AreReached c line i [] = Unit
AreReached c line i (t ∷ ts) = (IsNamed c i t → IsAmong line t.lines) × AreReached c line (i + 1) ts

-- The second text is the first with the line of a candidate.
pub record IsExtended (c : Candidate) (line : Str) (old new : Sdp) : Type 0 where
  pub same_session : new.session_lines ≡ old.session_lines
  pub are_grown : AreGrown c line 0 old.media_sections new.media_sections
  pub is_reached : (old.media_sections ≡ []) ⊎ IsReached c line 0 new.media_sections
  pub all_reached : c.sdp_mid ≡ none → AreReached c line 0 new.media_sections

candidate_line-IsLineOf : (s : Str) → IsLineOf s (candidate_line s)
candidate_line-IsLineOf [] = refl
candidate_line-IsLineOf (c ∷ s) = refl

among : (line : Str) (ls : List Str) → has_line line ls ≡ true → IsAmong line ls
among line [] e = cc
among line (l ∷ ls) e = elim (Bool-cases (str_eq line l)) [
  | inl f ↦ inl (sym ((str_eq_iff line l).0 f))
  | inr f ↦ inr (among line ls (ground arith))
]

not-IsAmong : (line : Str) (ls : List Str) → has_line line ls ≡ false → ¬ IsAmong line ls
not-IsAmong line [] e k = k
not-IsAmong line (l ∷ ls) e (inl p) =
    let f : str_eq line l ≡ true = (str_eq_iff line l).1 (sym p) in
    let g : true ≡ false = rw f at e in cc
not-IsAmong line (l ∷ ls) e (inr k) = not-IsAmong line ls (ground arith) k

at_end : (line : Str) (ls : List Str) → IsAmong line (ls ++ line ∷ [])
at_end line [] = inl refl
at_end line (l ∷ ls) = inr (at_end line ls)

pushed : (line : Str) (s : Section) → IsAmong line (push_line line s).lines
pushed line s = elim (Bool-cases (has_line line s.lines)) [
  | inl e ↦ rw e (among line s.lines e)
  | inr e ↦ rw e (at_end line s.lines)
]

push-Grown :
    (line : Str) (s : Section)
    → (push_line line s ≡ s)
      ⊎ ((¬ IsAmong line s.lines) × (push_line line s ≡ record s { lines = s.lines ++ line ∷ [] }))
push-Grown line s = elim (Bool-cases (has_line line s.lines)) [
  | inl e ↦ inl (rw e refl)
  | inr e ↦ inr (not-IsAmong line s.lines e, rw e refl)
]

push_marked-AreGrown :
    (c : Candidate) (line : Str) (i : ℕ) (w : List Bool) (ss : List Section)
    → Sees c i w ss
    → AreGrown c line i ss (push_marked line w ss)
unfolding push_marked
push_marked-AreGrown c line i [] [] h = tt
push_marked-AreGrown c line i [] (s ∷ ss) h = absurd h
push_marked-AreGrown c line i (b ∷ w) [] h = absurd h
push_marked-AreGrown c line i (false ∷ w) (s ∷ ss) (f, g, h) =
    (inl refl, push_marked-AreGrown c line (i + 1) w ss h)
push_marked-AreGrown c line i (true ∷ w) (s ∷ ss) (f, g, h) = (
  elim (push-Grown line s) [ inl p ↦ inl p | inr (n, p) ↦ inr (f refl, n, p) ],
  push_marked-AreGrown c line (i + 1) w ss h,
)

push_marked-IsReached :
    (c : Candidate) (line : Str) (q : Section → Bool)
    → ((s : Section) → q s ≡ true → Agrees c.username_fragment s.ice_ufrag)
    → (i : ℕ) (w : List Bool) (ss : List Section) → Sees c i w ss
    → any_marked q ss w ≡ true
    → IsReached c line i (push_marked line w ss)
unfolding push_marked
push_marked-IsReached c line q k i [] [] h e = cc
push_marked-IsReached c line q k i [] (s ∷ ss) h e = absurd h
push_marked-IsReached c line q k i (b ∷ w) [] h e = absurd h
push_marked-IsReached c line q k i (false ∷ w) (s ∷ ss) (f, g, h) e =
    inr (push_marked-IsReached c line q k (i + 1) w ss h e)
push_marked-IsReached c line q k i (true ∷ w) (s ∷ ss) (f, g, h) e = elim (Bool-cases (q s)) [
  | inl p ↦ inl (f refl, k s p, pushed line s)
  | inr p ↦ inr (push_marked-IsReached c line q k (i + 1) w ss h (rw p at e))
]

push_marked-AreReached :
    (c : Candidate) (line : Str)
    → c.sdp_mid ≡ none
    → (i : ℕ) (w : List Bool) (ss : List Section) → Sees c i w ss
    → AreReached c line i (push_marked line w ss)
unfolding push_marked
push_marked-AreReached c line m i [] [] h = tt
push_marked-AreReached c line m i [] (s ∷ ss) h = absurd h
push_marked-AreReached c line m i (b ∷ w) [] h = absurd h
push_marked-AreReached c line m i (false ∷ w) (s ∷ ss) (f, g, h) =
    (λ k. let p : false ≡ true = g m k in cc, push_marked-AreReached c line m (i + 1) w ss h)
push_marked-AreReached c line m i (true ∷ w) (s ∷ ss) (f, g, h) =
    (λ k. pushed line s, push_marked-AreReached c line m (i + 1) w ss h)

push_marked-IsExtended :
    (c : Candidate) (line : Str) (old : Sdp) (w : List Bool)
    → Selects c w old.media_sections
    → IsExtended c line old (record old { media_sections = push_marked line w old.media_sections })
push_marked-IsExtended c line old w h = record {
  same_session = refl;
  are_grown = push_marked-AreGrown c line 0 w old.media_sections h.sees;
  is_reached = elim h.selects_some [
    | inl e ↦ inl e
    | inr (q, k, p) ↦ inr (push_marked-IsReached c line q k 0 w old.media_sections h.sees p)
  ];
  all_reached = λ m. push_marked-AreReached c line m 0 w old.media_sections h.sees;
}

-- When adding a candidate of one line to a description that has media succeeds, the result is read
-- with the same session lines and sections, but that sections that the candidate names by its sdpMid,
-- else its sdpMLineIndex, else its usernameFragment, have the candidate's line at their end, if it
-- was not among their lines. If there are sections, one of those named has the line, and the
-- ufrag of the candidate if it has one; without an sdpMid all of those named have the line.
pub parse-append :
    (d : Description) (c : Candidate) (d' : Description)
    → is_skipped d.sdp ≡ false
    → NoLf c.candidate
    → append_remote_candidate d c ≡ ok d'
    → (line : Str) × IsLineOf c.candidate line
      × IsExtended c line (parse_sdp_media_sections d.sdp) (parse_sdp_media_sections d'.sdp)
parse-append d c d' h n e =
    let (marks, s, p) = parse-append_lem d c d' h n e in
    let line : Str = candidate_line c.candidate in
    let old : Sdp = parse_sdp_media_sections d.sdp in
    (
      line,
      candidate_line-IsLineOf c.candidate,
      subst (IsExtended c line old) (sym p)
          (push_marked-IsExtended c line old marks (selected-Selects c old.media_sections marks s)),
    )
