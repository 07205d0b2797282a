-- ===== src/Config/Servers/Usability.antt =====
-- The ICE servers that are accepted (`normalizeIceServers`).
use webrtc_node.Base.{
  ℕ, ◌≤◌, List, [], ◌∷◌, ◌++◌, Option, none, some, Bool, true, false, ◌||◌, ltb, leb, ◌==◌, ◌≡◌,
  refl, ap, sym, subst, arith, if◌then◌else◌, is_some, any, length, map, All, ok, err, type_error,
  invalid_access, ◌∙◌, throw_if-eq-ok, >>=-eq-ok, Str, codes, lower_code, Bool-cases, inl, inr,
}
use webrtc_node.Channel.Data.{byte_length}
use webrtc_node.Sdp.Description.{strip_prefix_i}
use webrtc_node.Config.IceUrl.{validate_ice_server_url}
use webrtc_node.Config.IceUrl.Validity.{IsTurn, IsUrl, validate_ice_server_url-IsUrl}
use webrtc_node.Config.Servers.{
  ServerInput, IceServer, is_turn_url, validate_urls, check_credentials, check_server_urls,
  normalize_ice_server, normalize_servers,
}

-- The text before a colon is the scheme of TURN.
abbrev pub IsTurnText : Str → Type 0
IsTurnText u = (raw : Str) × (rest : Str) × (u ≡ raw ++ b':' ∷ rest) × IsTurn raw

-- A user name of at most 509 bytes, and a credential that is not empty.
abbrev pub HasCredentials : Option Str → Option Str → Type 0
HasCredentials username credential =
    (name : Str) × (cred : Str) × (username ≡ some name)
    × (credential ≡ some cred)
    × (¬ cred ≡ [])
    × (byte_length name ≤ 509)

-- What a server that was accepted has.
pub record IsUsable (s : IceServer) : Type 0 where
  pub some_url : ¬ s.urls ≡ []
  pub are_urls : All IsUrl s.urls
  pub has_credentials : All (λ u. IsTurnText u → HasCredentials s.username s.credential) s.urls

-- The servers are the objects that were given.
abbrev pub AreTaken : List (Option ServerInput) → List IceServer → Type 0
AreTaken [] [] = Unit
AreTaken (i ∷ is) (s ∷ ss) =
    (i ≡ some (record { urls = some s.urls; username = s.username; credential = s.credential }))
    × AreTaken is ss
AreTaken _ _ = ⊥

validate_urls-All : (us : List Str) → validate_urls us ≡ ok tt → All IsUrl us
unfolding validate_urls
validate_urls-All [] e = tt
validate_urls-All (u ∷ us) e =
    let (x, f, g) = >>=-eq-ok (validate_ice_server_url u) _ e in
    (validate_ice_server_url-IsUrl u f, validate_urls-All us g)

strip_scheme :
    (raw rest : Str)
    → strip_prefix_i (map lower_code raw ++ b':' ∷ []) (raw ++ b':' ∷ rest) ≡ some rest
strip_scheme [] rest = refl
strip_scheme (c ∷ raw) rest =
    let f : (lower_code c == lower_code c) ≡ true = same (lower_code c) in
    rw f (strip_scheme raw rest)
  where
    same : (n : ℕ) → (n == n) ≡ true
    same n = ground arith

IsTurnText-is_turn_url : (u : Str) → IsTurnText u → is_turn_url u ≡ true
IsTurnText-is_turn_url u (raw, rest, e, k) = subst (λ t. is_turn_url t ≡ true) (sym e) (go k)
  where
    after :
        (p : Str)
        → map lower_code raw ≡ p
        → is_some (strip_prefix_i (p ++ b':' ∷ []) (raw ++ b':' ∷ rest)) ≡ true
    after p m =
        subst (λ q. is_some (strip_prefix_i (q ++ b':' ∷ []) (raw ++ b':' ∷ rest)) ≡ true) m
          (ap is_some (strip_scheme raw rest))

    right : (a b : Bool) → b ≡ true → (a || b) ≡ true
    right a b e = ground arith

    left : (a b : Bool) → a ≡ true → (a || b) ≡ true
    left a b e = ground arith

    go : IsTurn raw → is_turn_url (raw ++ b':' ∷ rest) ≡ true
    go (inl m) = left _ _ (after (codes "turn") m)
    go (inr m) = right _ _ (after (codes "turns") m)

check_credentials-has :
    (username credential : Option Str)
    → check_credentials username credential ≡ ok tt
    → HasCredentials username credential
unfolding check_credentials
check_credentials-has none credential e = cc
check_credentials-has (some name) none e = cc
check_credentials-has (some name) (some []) e = cc
check_credentials-has (some name) (some (c ∷ s)) e =
    elim (Bool-cases (ltb 509 (byte_length name))) [
      | inl f ↦ let k : err invalid_access ≡ ok tt = rw f at e in cc
      | inr f ↦ (name, c ∷ s, refl, refl, (λ q. cc), ground arith)
    ]

turn-All :
    (P : Type 0) (us : List Str) → (any is_turn_url us ≡ true → P) → All (λ u. IsTurnText u → P) us
turn-All P [] f = tt
turn-All P (u ∷ us) f = (
  λ k. let g : is_turn_url u ≡ true = IsTurnText-is_turn_url u k in f (rw g refl),
  turn-All P us (λ e. f (rw e (ground arith))),
)

some_urls : (us : List Str) → leb (length us) 0 ≡ false → ¬ us ≡ []
some_urls [] e = cc
some_urls (u ∷ us) e = λ q. cc

check_server_urls-IsUsable :
    (username credential : Option Str) (urls : List Str) (s : IceServer)
    → check_server_urls username credential urls ≡ ok s
    → IsUsable s × (record { urls = urls; username = username; credential = credential } ≡ s)
check_server_urls-IsUsable username credential urls s e =
    let (a, e1) = throw_if-eq-ok (leb (length urls) 0) _ e in
    let (x, b, e2) = >>=-eq-ok (validate_urls urls) _ e1 in
    let (y, c, e3) =
      >>=-eq-ok (if any is_turn_url urls then check_credentials username credential else ok tt) _
        e2 in
    let p : record { urls = urls; username = username; credential = credential } ≡ s = cc in
    (
      subst IsUsable p (record {
        some_url = some_urls urls a;
        are_urls = validate_urls-All urls b;
        has_credentials =
            turn-All (HasCredentials username credential) urls
              (λ t. check_credentials-has username credential (rw t at c));
      }),
      p,
    )

abbrev server_input : Option (List Str) → Option Str → Option Str → ServerInput
server_input urls username credential = record {
  urls = urls;
  username = username;
  credential = credential;
}

normalize_ice_server-IsUsable :
    (i : Option ServerInput) (s : IceServer)
    → normalize_ice_server i ≡ ok s
    → IsUsable s
      × (i ≡ some (record { urls = some s.urls; username = s.username; credential = s.credential }))
unfolding normalize_ice_server
normalize_ice_server-IsUsable none s e = cc
normalize_ice_server-IsUsable (some i) s e = go i.urls refl e
  where
    go :
        (urls : Option (List Str))
        → i.urls ≡ urls
        → elim urls [
          | none ↦ err type_error
          | some us ↦ check_server_urls i.username i.credential us
        ]
          ≡ ok s
        → IsUsable s
          × (some i
              ≡ some
                  (record { urls = some s.urls; username = s.username; credential = s.credential }))
    go none q e = cc
    go (some us) q e =
        let (h, p) = check_server_urls-IsUsable i.username i.credential us s e in
        let f : record { urls = some us; username = i.username; credential = i.credential }
            ≡ record { urls = some s.urls; username = s.username; credential = s.credential } =
          ap (λ (t : IceServer). server_input (some t.urls) t.username t.credential) p in
        let g : i ≡ record { urls = some us; username = i.username; credential = i.credential } =
          ap (λ us'. server_input us' i.username i.credential) q in
        (h, ap some (g ∙ f))

-- The servers that are accepted are those that were given. Each has a URL, and all of its URLs are
-- of the form of `IsUrl`: a scheme that is known, an address with a host and a port of at most
-- 65535, and a query only where the scheme takes one. If one of them has a TURN scheme, there are a
-- user name of at most 509 bytes and a credential that is not empty.
pub normalize_servers-IsUsable :
    (is : List (Option ServerInput)) (ss : List IceServer)
    → normalize_servers is ≡ ok ss
    → All IsUsable ss × AreTaken is ss
unfolding normalize_servers
normalize_servers-IsUsable [] ss e =
    let p : [] ≡ ss = cc in
    subst (λ (l : List IceServer). All IsUsable l × AreTaken [] l) p (tt, tt)
normalize_servers-IsUsable (i ∷ is) ss e =
    let (s, f, e1) = >>=-eq-ok (normalize_ice_server i) _ e in
    let (rest, g, e2) = >>=-eq-ok (normalize_servers is) _ e1 in
    let (k, l) = normalize_servers-IsUsable is rest g in
    let (h, m) = normalize_ice_server-IsUsable i s f in
    let p : s ∷ rest ≡ ss = cc in
    subst (λ (l : List IceServer). All IsUsable l × AreTaken (i ∷ is) l) p ((h, k), (m, l))
