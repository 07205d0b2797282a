-- ===== src/Config/IceUrl.antt =====
-- `validateIceServerUrl`.
pub mod Grammar
pub mod Hosts
pub mod Validity
use webrtc_node.Base.{
  ℕ, zero, suc, ◌+◌, ◌*◌, ◌-◌, List, [], ◌∷◌, Option, none, some, Bool, true, false, not, ◌&&◌,
  ◌||◌, ltb, leb, ◌==◌, if◌then◌else◌, is_some, any, all, length, map, Result, err, syntax_error,
  ◌>>◌, throw_if, Str, str_eq, codes, strip_prefix, lower_code, is_digit, is_letter,
}

-- `/^([a-z][a-z0-9+.-]*):(.*)$/i`: the scheme in lower case, and the rest. A line break ends `.*`.
abbrev pub is_scheme_code : ℕ → Bool
is_scheme_code c = is_letter c || is_digit c || c == b'+' || c == b'.' || c == b'-'

abbrev pub is_line_break : ℕ → Bool
is_line_break c = c == 10 || c == 13 || c == 8232 || c == 8233

unfoldable pub split_scheme : Str → Option (Str × Str)
split_scheme [] = none
split_scheme (c ∷ s) =
    let rest = split_scheme s in
    if c == b':'
    then if any is_line_break s then none else some ([], s)
    else if is_scheme_code c
    then elim rest [ none ↦ none | some (scheme, tail) ↦ some (lower_code c ∷ scheme, tail) ]
    else none

abbrev pub starts_letter : Str → Bool
starts_letter [] = false
starts_letter (c ∷ s) = is_letter c

abbrev pub match_scheme : Str → Option (Str × Str)
match_scheme s = if starts_letter s then split_scheme s else none

abbrev pub starts_slashes : Str → Bool
starts_slashes s = is_some (strip_prefix (codes "//") s)

-- `/[/\\#@]/`.
abbrev pub is_forbidden : ℕ → Bool
is_forbidden c = c == b'/' || c == 92 || c == b'#' || c == b'@'

abbrev onto_part : ℕ → List Str → List Str
onto_part c [] = (c ∷ []) ∷ []
onto_part c (p ∷ ps) = (c ∷ p) ∷ ps

-- `s.split(separator)` for a separator of one code unit.
unfoldable pub split_at : ℕ → Str → List Str
split_at d [] = [] ∷ []
split_at d (c ∷ s) = if c == d then [] ∷ split_at d s else onto_part c (split_at d s)

abbrev pub part : ℕ → List Str → Str
part i [] = []
part zero (p ∷ ps) = p
part (suc i) (p ∷ ps) = part i ps

abbrev pub is_nil : Str → Bool
is_nil [] = true
is_nil (c ∷ s) = false

abbrev pub lower : Str → Str
lower s = map lower_code s

-- The value of decimal digits.
unfoldable pub read_number : ℕ → Str → ℕ
read_number n [] = n
read_number n (c ∷ s) = read_number (n * 10 + (c - b'0')) s

unfoldable pub check_port : Str → Result (Unit {0})
unfolding read_number
check_port port =
    throw_if (not (is_nil port) && not (all is_digit port && leb (read_number 0 port) 65535))
      syntax_error

unfoldable pub check_host_port : Str → Str → Result (Unit {0})
unfolding check_port
check_host_port host port = do throw_if (is_nil host) syntax_error; check_port port

-- What stands behind the bracket of an address: nothing, or a colon and the port.
unfoldable pub check_suffix : Str → Str → Result (Unit {0})
unfolding check_host_port
check_suffix host [] = check_host_port host []
check_suffix host (c ∷ port) = if c == b':' then check_host_port host port else err syntax_error

-- What follows the first bracket that closes.
abbrev pub after_bracket : Str → Str
after_bracket [] = []
after_bracket (c ∷ s) = if c == b']' then s else after_bracket s

unfoldable pub check_bracketed : List Str → Str → Result (Unit {0})
unfolding check_suffix
check_bracketed parts suffix =
    if leb (length parts) 1 || is_nil (part 0 parts)
    then err syntax_error
    else check_suffix (part 0 parts) suffix

unfoldable pub check_plain : List Str → Result (Unit {0})
unfolding check_host_port
check_plain parts =
    if ltb 2 (length parts) then err syntax_error else check_host_port (part 0 parts) (part 1 parts)

-- The host and port: a bracketed address, or at most one colon.
unfoldable pub check_address : Str → Result (Unit {0})
unfolding split_at check_bracketed check_plain
check_address [] = err syntax_error
check_address (c ∷ s) =
    if c == b'['
    then check_bracketed (split_at b']' s) (after_bracket s)
    else check_plain (split_at b':' (c ∷ s))

abbrev pub is_stun : Str → Bool
is_stun scheme = str_eq scheme (codes "stun") || str_eq scheme (codes "stuns")

abbrev pub is_turn : Str → Bool
is_turn scheme = str_eq scheme (codes "turn") || str_eq scheme (codes "turns")

abbrev pub is_transport : Str → Bool
is_transport query =
    str_eq (lower query) (codes "transport=udp") || str_eq (lower query) (codes "transport=tcp")

unfoldable pub validate_ice_server_url : Str → Result (Unit {0})
unfolding split_scheme split_at check_address
validate_ice_server_url url = elim (match_scheme url) [
  | none ↦ err syntax_error
  | some (scheme, rest) ↦ do
    throw_if (not (is_stun scheme || is_turn scheme)) syntax_error
    throw_if (is_nil rest || starts_slashes rest || any is_forbidden rest) syntax_error
    let parts = split_at b'?' rest
    throw_if (ltb 2 (length parts) || is_nil (part 0 parts)) syntax_error
    throw_if (is_stun scheme && not (is_nil (part 1 parts))) syntax_error
    throw_if (is_turn scheme && not (is_nil (part 1 parts)) && not (is_transport (part 1 parts)))
        syntax_error
    check_address (part 0 parts)
]
