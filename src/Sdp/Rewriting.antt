-- ===== src/Sdp/Rewriting.antt =====
-- The credentials of an ICE restart: randomIceCredential and rewriteIceCredentials.
use webrtc_node.Base.{
  ℕ, ◌%◌, List, [], ◌∷◌, ◌++◌, none, some, Bool, true, false, not, ◌&&◌, ◌||◌, ◌==◌, if◌then◌else◌,
  get_elem?, codes, Str, starts_with,
}
use webrtc_node.Sdp.Sections.{IceParameters}

abbrev pub ice_credential_chars : Str
ice_credential_chars = codes "ABCDEFGHIJKLMNOPQRSTUVWXYZabcdefghijklmnopqrstuvwxyz0123456789+/"

-- The text that the random bytes give.
unfoldable pub random_ice_credential : List ℕ → Str
random_ice_credential [] = []
random_ice_credential (b ∷ bytes) =
    let rest = random_ice_credential bytes in
    elim (get_elem? ice_credential_chars (b % 64)) [ none ↦ rest | some c ↦ c ∷ rest ]

-- The line terminators, at which `^` and `$` match with the flag `m`, and which `.` does not match.
abbrev pub is_line_end : ℕ → Bool
is_line_end c = c == 10 || c == 13 || c == 8232 || c == 8233

-- Whether a line starts with the text; the first argument tells whether a line starts here.
unfoldable pub has_line_with : Str → Bool → Str → Bool
has_line_with prefix starts [] = false
has_line_with prefix starts (c ∷ s) =
    let rest = has_line_with prefix (is_line_end c) s in
    (starts && starts_with prefix (c ∷ s)) || rest

-- The lines that start with the prefix are replaced; `starts` tells whether a line starts here, and
-- `drops` whether what stands here is replaced.
unfoldable pub replace_lines : Str → Str → Bool → Bool → Str → Str
replace_lines prefix value starts drops [] = []
replace_lines prefix value starts drops (c ∷ s) =
    let hit = starts && starts_with prefix (c ∷ s) in
    let rest =
      replace_lines prefix value (is_line_end c) (not (is_line_end c) && (drops || hit)) s in
    if is_line_end c
    then c ∷ rest
    else if drops
    then rest
    else if hit
    then prefix ++ (value ++ rest)
    else c ∷ rest

-- `rewriteIceCredentials`; the credentials have no `$`, which a replacement would read.
unfoldable pub rewrite_ice_credentials : IceParameters → Str → Str
unfolding has_line_with replace_lines
rewrite_ice_credentials credentials sdp =
    if not (has_line_with (codes "a=ice-ufrag:") true sdp)
      || not (has_line_with (codes "a=ice-pwd:") true sdp)
    then sdp
    else replace_lines (codes "a=ice-pwd:") credentials.password true false
        (replace_lines (codes "a=ice-ufrag:") credentials.username_fragment true false sdp)
