-- ===== src/Sdp/Lines.antt =====
-- `splitSdpLines` of lib/index.js, and the joining of lines in `serializeSdp`.
pub mod Laws
use webrtc_node.Base.{
  Str, List, [], ◌∷◌, ◌++◌, Bool, true, false, not, ◌&&◌, ◌==◌, if◌then◌else◌, keep, ℕ,
}

abbrev pub crlf : Str
crlf = 13 ∷ 10 ∷ []

abbrev pub is_empty : Str → Bool
is_empty [] = true
is_empty (c ∷ s) = false

abbrev pub starts_lf : Str → Bool
starts_lf [] = false
starts_lf (c ∷ s) = c == 10

-- The next code unit goes to the front of the first line.
abbrev pub onto_first : ℕ → List Str → List Str
onto_first c [] = (c ∷ []) ∷ []
onto_first c (line ∷ lines) = (c ∷ line) ∷ lines

-- `split(/\r?\n/)`.
pub split_lines : Str → List Str
split_lines [] = [] ∷ []
split_lines (c ∷ s) =
    let rest = split_lines s in
    if c == 10 then [] ∷ rest else if c == 13 && starts_lf s then rest else onto_first c rest

unfoldable pub split_sdp_lines : Str → List Str
unfolding split_lines
split_sdp_lines sdp = keep (λ line. not (is_empty line)) (split_lines sdp)

-- `lines.join("\r\n")` and a last "\r\n".
unfoldable pub join_lines : List Str → Str
join_lines [] = crlf
join_lines (line ∷ []) = line ++ crlf
join_lines (line ∷ next ∷ lines) = line ++ (crlf ++ join_lines (next ∷ lines))
