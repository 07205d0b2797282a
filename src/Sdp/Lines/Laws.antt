-- ===== src/Sdp/Lines/Laws.antt =====
-- Splitting and joining lines.
use webrtc_node.Base.{Str, List, [], ◌∷◌, ◌++◌, ◌≡◌, ◌≢◌, refl, ap, not, arith, All, keep, false}
use webrtc_node.Sdp.Lines.{crlf, is_empty, split_lines, split_sdp_lines, join_lines}

abbrev pub NoLf : Str → Type 0
NoLf = All (λ c. c ≢ 10)

-- A line as `split_sdp_lines` gives it.
abbrev pub IsLine : Str → Type 0
IsLine line = (is_empty line ≡ false) × NoLf line

split_lines-NoLf : (s : Str) → All NoLf (split_lines s)
unfolding split_lines
split_lines-NoLf [] = (tt, tt)
split_lines-NoLf (c ∷ s) = ground (arith, split_lines-NoLf s)

keep-IsLine : (ls : List Str) → All NoLf ls → All IsLine (keep (λ line. not (is_empty line)) ls)
keep-IsLine [] h = tt
keep-IsLine ([] ∷ ls) h = keep-IsLine ls h.1
keep-IsLine ((c ∷ l) ∷ ls) h = ((refl, h.0), keep-IsLine ls h.1)

pub split_sdp_lines-IsLine : (s : Str) → All IsLine (split_sdp_lines s)
unfolding split_sdp_lines
split_sdp_lines-IsLine s = keep-IsLine (split_lines s) (split_lines-NoLf s)

-- A terminated line comes off whole.
split_lines-crlf :
    (line rest : Str) → NoLf line → split_lines (line ++ (crlf ++ rest)) ≡ line ∷ split_lines rest
unfolding split_lines
split_lines-crlf [] rest h = refl
split_lines-crlf (c ∷ []) rest h = ground arith
split_lines-crlf (c ∷ d ∷ line) rest h = ground (arith, split_lines-crlf (d ∷ line) rest h.1)

-- Joining lines and splitting the text again gives the lines back.
pub split_sdp_lines-join_lines :
    (ls : List Str) → All IsLine ls → split_sdp_lines (join_lines ls) ≡ ls
unfolding split_sdp_lines join_lines
split_sdp_lines-join_lines [] h = refl
split_sdp_lines-join_lines ([] ∷ ls) ((e, _), _) = cc
split_sdp_lines-join_lines ((c ∷ l) ∷ []) ((_, h), _) = rw (split_lines-crlf (c ∷ l) [] h) refl
split_sdp_lines-join_lines ((c ∷ l) ∷ m ∷ ls) ((_, h), k) =
    rw (split_lines-crlf (c ∷ l) (join_lines (m ∷ ls)) h)
      (ap (λ t. (c ∷ l) ∷ t) (split_sdp_lines-join_lines (m ∷ ls) k))
