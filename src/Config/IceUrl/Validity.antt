-- ===== src/Config/IceUrl/Validity.antt =====
-- The URLs of ICE servers that `validateIceServerUrl` accepts.
use webrtc_node.Base.{
  List, [], ◌∷◌, ◌++◌, none, some, Bool, true, false, not, ◌&&◌, ◌||◌, ltb, ◌≡◌, refl, sym, ◌∙◌,
  arith, any, length, map, All, ok, err, Str, str_eq, str_eq_iff, codes, lower_code, Bool-cases,
  inl, inr, ◌⊎◌, syntax_error, throw_if-eq-ok, Option, throw_if, ◌>>◌,
}
use webrtc_node.Config.IceUrl.{
  match_scheme, starts_letter, is_forbidden, split_at, part, is_nil, check_address, is_stun,
  is_turn, is_transport, starts_slashes, validate_ice_server_url, lower,
}
use webrtc_node.Config.IceUrl.Grammar.{
  IsFreeOf, Address, split_at-Splits, two_parts, split_scheme-splits,
}
use webrtc_node.Config.IceUrl.Hosts.{check_address-Address}

-- A scheme, with letters of both cases.
abbrev pub IsStun : Str → Type 0
IsStun raw = (map lower_code raw ≡ codes "stun") ⊎ (map lower_code raw ≡ codes "stuns")

abbrev pub IsTurn : Str → Type 0
IsTurn raw = (map lower_code raw ≡ codes "turn") ⊎ (map lower_code raw ≡ codes "turns")

abbrev pub IsTransport : Str → Type 0
IsTransport query =
    (query ≡ [])
    ⊎ ((map lower_code query ≡ codes "transport=udp")
        ⊎ (map lower_code query ≡ codes "transport=tcp"))

-- A URL of an ICE server: its scheme, a colon, an address, and a question mark and a query, or no
-- query. A STUN server has no query, and that of a TURN server is its transport.
pub record IsUrl (u : Str) : Type 0 where
  pub scheme : Str
  pub rest : Str
  pub address : Str
  pub query : Str
  pub is_split : u ≡ scheme ++ b':' ∷ rest
  pub is_known : IsStun scheme ⊎ IsTurn scheme
  pub is_plain : All (λ c. (¬ c ≡ b'/') × (¬ c ≡ 92) × (¬ c ≡ b'#') × (¬ c ≡ b'@')) rest
  pub has_query :
      ((rest ≡ address) × (query ≡ [])) ⊎ ((rest ≡ address ++ b'?' ∷ query) × IsFreeOf b'?' query)
  pub query_free : IsFreeOf b'?' address
  pub stun_query : IsStun scheme → query ≡ []
  pub turn_query : IsTurn scheme → IsTransport query
  pub is_address : Address address

or-cases : (a b : Bool) → (a || b) ≡ true → (a ≡ true) ⊎ (b ≡ true)
or-cases true b e = inl refl
or-cases false b e = inr e

one_of :
    (raw scheme s t : Str)
    → map lower_code raw ≡ scheme
    → (str_eq scheme s || str_eq scheme t) ≡ true
    → (map lower_code raw ≡ s) ⊎ (map lower_code raw ≡ t)
one_of raw scheme s t m e = elim (or-cases (str_eq scheme s) (str_eq scheme t) e) [
  | inl f ↦ inl (m ∙ (str_eq_iff scheme s).0 f)
  | inr f ↦ inr (m ∙ (str_eq_iff scheme t).0 f)
]

is_one_of :
    (raw scheme s t : Str)
    → map lower_code raw ≡ scheme
    → (map lower_code raw ≡ s) ⊎ (map lower_code raw ≡ t)
    → (str_eq scheme s || str_eq scheme t) ≡ true
is_one_of raw scheme s t m (inl p) =
    let f : str_eq scheme s ≡ true = (str_eq_iff scheme s).1 (sym m ∙ p) in rw f refl
is_one_of raw scheme s t m (inr p) =
    let f : str_eq scheme t ≡ true = (str_eq_iff scheme t).1 (sym m ∙ p) in ground arith

nil : (s : Str) → is_nil s ≡ true → s ≡ []
nil [] e = refl
nil (c ∷ s) e = cc

plain_codes :
    (s : Str)
    → any is_forbidden s ≡ false
    → All (λ c. (¬ c ≡ b'/') × (¬ c ≡ 92) × (¬ c ≡ b'#') × (¬ c ≡ b'@')) s
plain_codes [] e = tt
plain_codes (c ∷ s) e = (
  (λ p. ground arith, λ p. ground arith, λ p. ground arith, λ p. ground arith),
  plain_codes s (ground arith),
)

matched :
    (u scheme rest : Str)
    → match_scheme u ≡ some (scheme, rest)
    → (raw : Str) × (u ≡ raw ++ b':' ∷ rest) × (map lower_code raw ≡ scheme)
matched u scheme rest e = elim (Bool-cases (starts_letter u)) [
  | inl f ↦ split_scheme-splits u scheme rest (rw f at e)
  | inr f ↦ let k : none ≡ some (scheme, rest) = rw f at e in cc
]

no_query : (b : Bool) (q : Str) → b ≡ true → (b && not (is_nil q)) ≡ false → q ≡ []
no_query b [] k e = refl
no_query b (c ∷ q) k e = let f : true ≡ false = rw k at e in cc

query-IsTransport :
    (b : Bool) (q : Str)
    → b ≡ true
    → (b && not (is_nil q) && not (is_transport q)) ≡ false
    → IsTransport q
query-IsTransport b [] k e = inl refl
query-IsTransport b (c ∷ q) k e =
    let f : is_transport (c ∷ q) ≡ true = ground arith in
    inr (one_of (c ∷ q) (lower (c ∷ q)) (codes "transport=udp") (codes "transport=tcp") refl f)

known :
    (raw scheme : Str)
    → map lower_code raw ≡ scheme
    → not (is_stun scheme || is_turn scheme) ≡ false
    → IsStun raw ⊎ IsTurn raw
known raw scheme m e = elim (or-cases (is_stun scheme) (is_turn scheme) (ground arith)) [
  | inl f ↦ inl (one_of raw scheme (codes "stun") (codes "stuns") m f)
  | inr f ↦ inr (one_of raw scheme (codes "turn") (codes "turns") m f)
]

-- What the checks of a matched URL say.
checked-IsUrl :
    (u raw scheme rest : Str)
    → u ≡ raw ++ b':' ∷ rest
    → map lower_code raw ≡ scheme
    → not (is_stun scheme || is_turn scheme) ≡ false
    → any is_forbidden rest ≡ false
    → ltb 2 (length (split_at b'?' rest)) ≡ false
    → (is_stun scheme && not (is_nil (part 1 (split_at b'?' rest)))) ≡ false
    → (is_turn scheme
        && not (is_nil (part 1 (split_at b'?' rest)))
        && not (is_transport (part 1 (split_at b'?' rest))))
      ≡ false
    → check_address (part 0 (split_at b'?' rest)) ≡ ok tt
    → IsUrl u
checked-IsUrl u raw scheme rest q m k1 k2 k3 k4 k5 k6 =
    let l : List Str = split_at b'?' rest in
    let (f, both) = two_parts b'?' rest l k3 (split_at-Splits b'?' rest) in
    record {
      scheme = raw;
      rest = rest;
      address = part 0 l;
      query = part 1 l;
      is_split = q;
      is_known = known raw scheme m k1;
      is_plain = plain_codes rest k2;
      has_query = both;
      query_free = f;
      stun_query = λ s.
          no_query (is_stun scheme) (part 1 l)
            (is_one_of raw scheme (codes "stun") (codes "stuns") m s) k4;
      turn_query = λ t.
          query-IsTransport (is_turn scheme) (part 1 l)
            (is_one_of raw scheme (codes "turn") (codes "turns") m t) k5;
      is_address = check_address-Address (part 0 l) k6;
    }

last_false : (a b c : Bool) → (a || b || c) ≡ false → c ≡ false
last_false a b c e = ground arith

first_false : (a b : Bool) → (a || b) ≡ false → a ≡ false
first_false true b e = cc
first_false false b e = refl

pub validate_ice_server_url-IsUrl : (u : Str) → validate_ice_server_url u ≡ ok tt → IsUrl u
unfolding validate_ice_server_url
validate_ice_server_url-IsUrl u e = go (match_scheme u) refl e
  where
    go :
        (o : Option (Str × Str))
        → match_scheme u ≡ o
        → elim o [
          | none ↦ err syntax_error
          | some (scheme, rest) ↦ do
            throw_if (not (is_stun scheme || is_turn scheme)) syntax_error
            throw_if (is_nil rest || starts_slashes rest || any is_forbidden rest) syntax_error
            let parts = split_at b'?' rest
            throw_if (ltb 2 (length parts) || is_nil (part 0 parts)) syntax_error
            throw_if (is_stun scheme && not (is_nil (part 1 parts))) syntax_error
            throw_if
                (is_turn scheme && not (is_nil (part 1 parts)) && not (is_transport (part 1 parts)))
                syntax_error
            check_address (part 0 parts)
        ]
          ≡ ok tt
        → IsUrl u
    go none n e = cc
    go (some (scheme, rest)) n e =
        let (raw, q, m) = matched u scheme rest n in
        let l : List Str = split_at b'?' rest in
        let (a1, e1) = throw_if-eq-ok (not (is_stun scheme || is_turn scheme)) _ e in
        let (a2, e2) =
          throw_if-eq-ok (is_nil rest || starts_slashes rest || any is_forbidden rest) _ e1 in
        let (a3, e3) = throw_if-eq-ok (ltb 2 (length l) || is_nil (part 0 l)) _ e2 in
        let (a4, e4) = throw_if-eq-ok (is_stun scheme && not (is_nil (part 1 l))) _ e3 in
        let (a5, e5) =
          throw_if-eq-ok
            (is_turn scheme && not (is_nil (part 1 l)) && not (is_transport (part 1 l))) _ e4 in
        let b2 : any is_forbidden rest ≡ false =
          last_false (is_nil rest) (starts_slashes rest) (any is_forbidden rest) a2 in
        let b3 : ltb 2 (length l) ≡ false = first_false (ltb 2 (length l)) (is_nil (part 0 l)) a3 in
        checked-IsUrl u raw scheme rest q m a1 b2 b3 a4 a5 e5
