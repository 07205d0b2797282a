-- ===== src/Sdp/Parsing.antt =====
-- `parseCandidate`, the comparison of candidates and of ICE credentials.
use webrtc_node.Base.{
  ℕ, suc, List, [], ◌∷◌, Option, none, some, Bool, true, false, not, ◌&&◌, ◌||◌, ltb, ◌≡◌, refl,
  arith, if◌then◌else◌, is_some, find, length, get_elem?, map, Str, str_eq, str_eq_iff, codes,
  strip_prefix, lower_code, or_else, Bool-cases, inl, inr, ap, String, ◌==◌,
}
use webrtc_node.Sdp.Sections.{first_ice_parameters, IceParameters}
use webrtc_node.Sdp.Candidates.{words, index_of, opt_eq}

-- The members that the candidate's text gives. A number is kept as the text that `Number` converts.
pub record CandidateParts : Type 0 where
  pub foundation : Option Str
  pub component : Option Str
  pub priority : Option Str
  pub address : Option Str
  pub protocol : Option Str
  pub port : Option Str
  pub type : Option Str
  pub tcp_type : Option Str
  pub related_address : Option Str
  pub related_port : Option Str

abbrev pub no_parts : CandidateParts
no_parts = record {
  foundation = none;
  component = none;
  priority = none;
  address = none;
  protocol = none;
  port = none;
  type = none;
  tcp_type = none;
  related_address = none;
  related_port = none;
}

-- `parts[i] || null`.
abbrev pub truthy_part : Option Str → Option Str
truthy_part none = none
truthy_part (some []) = none
truthy_part (some (c ∷ s)) = some (c ∷ s)

abbrev pub part_at : List Str → ℕ → Option Str
part_at parts i = truthy_part (get_elem? parts i)

-- The part behind the first one that is the given word.
unfoldable pub part_after : String → List Str → Option Str
unfolding index_of
part_after word parts = elim (index_of (codes word) parts) [
  | none ↦ none
  | some i ↦ part_at parts (suc i)
]

abbrev pub component_of : Option Str → Option Str
component_of none = none
component_of (some p) =
    if str_eq p (codes "1")
    then some (codes "rtp")
    else if str_eq p (codes "2")
    then some (codes "rtcp")
    else none

-- `toLowerCase`, of the letters A to Z.
abbrev pub lower_part : Option Str → Option Str
lower_part none = none
lower_part (some p) = some (map lower_code p)

abbrev pub parts_of : List Str → CandidateParts
parts_of parts = record {
  foundation = part_at parts 0;
  component = component_of (get_elem? parts 1);
  protocol = lower_part (part_at parts 2);
  priority = get_elem? parts 3;
  address = part_at parts 4;
  port = get_elem? parts 5;
  type = part_after "typ" parts;
  tcp_type = part_after "tcptype" parts;
  related_address = part_after "raddr" parts;
  related_port = part_after "rport" parts;
}

-- `parseCandidate`.
unfoldable pub parse_candidate : Str → CandidateParts
unfolding words part_after
parse_candidate candidate = elim (strip_prefix (codes "candidate:") candidate) [
  | none ↦ no_parts
  | some rest ↦ if ltb (length (words rest)) 8 then no_parts else parts_of (words rest)
]

-- A port: null, NaN, or a number.
pub data Port : Type 0 where
  no_port not_a_number : Port
  port_number : ℕ → Port

-- What `sameCandidateEndpoint` compares, of what a candidate is parsed into.
pub record Endpoint : Type 0 where
  pub component : Option Str
  pub protocol : Option Str
  pub address : Option Str
  pub port : Port

-- `left.port === right.port && left.port !== null`.
abbrev pub same_port : Port → Port → Bool
same_port (port_number p) (port_number q) = p == q
same_port _ _ = false

-- `sameCandidateEndpoint`.
unfoldable pub same_candidate_endpoint : Option Endpoint → Option Endpoint → Bool
same_candidate_endpoint none right = false
same_candidate_endpoint (some l) none = false
same_candidate_endpoint (some l) (some r) =
    opt_eq l.component r.component
    && (opt_eq l.protocol r.protocol
        && (opt_eq l.address r.address && (same_port l.port r.port && is_some l.address)))

-- `selectKnownCandidateByEndpoint`.
unfoldable pub select_known_candidate : List Endpoint → Option Endpoint → Option Endpoint
unfolding same_candidate_endpoint
select_known_candidate known selected =
    or_else (find (λ c. same_candidate_endpoint (some c) selected) known) selected

abbrev differ : Option IceParameters → Option IceParameters → Bool
differ none r = false
differ (some l) none = false
differ (some l) (some r) =
    not (str_eq l.username_fragment r.username_fragment) || not (str_eq l.password r.password)

-- `hasDifferentIceCredentials`.
unfoldable pub has_different_ice_credentials : Str → Str → Bool
unfolding first_ice_parameters
has_different_ice_credentials left right =
    differ (first_ice_parameters left) (first_ice_parameters right)

opt_eq_lem : (a b : Option Str) → opt_eq a b ≡ true → a ≡ b
opt_eq_lem none none e = refl
opt_eq_lem none (some b) e = cc
opt_eq_lem (some a) none e = cc
opt_eq_lem (some a) (some b) e = ap some ((str_eq_iff a b).0 e)

same_port_lem : (p q : Port) → same_port p q ≡ true → (p ≡ q) × ((n : ℕ) × (p ≡ port_number n))
same_port_lem (port_number p) (port_number q) e =
    let k : p ≡ q = ground arith in (ap port_number k, (p, refl))
same_port_lem (port_number p) no_port e = cc
same_port_lem (port_number p) not_a_number e = cc
same_port_lem no_port q e = cc
same_port_lem not_a_number q e = cc

both : (a b : Bool) → (a && b) ≡ true → (a ≡ true) × (b ≡ true)
both true b e = (refl, e)
both false b e = cc

-- Endpoints that are found to be the same are equal, and their address and port are known.
same_candidate_endpoint_equal :
    (l r : Endpoint)
    → same_candidate_endpoint (some l) (some r) ≡ true
    → (l ≡ r) × (is_some l.address ≡ true) × ((n : ℕ) × (l.port ≡ port_number n))
unfolding same_candidate_endpoint
same_candidate_endpoint_equal l r e =
    let (c, e1) = both _ _ e in
    let (p, e2) = both _ _ e1 in
    let (a, e3) = both _ _ e2 in
    let (q, k) = both _ _ e3 in
    let (same, known) = same_port_lem l.port r.port q in
    let c' = opt_eq_lem l.component r.component c in
    let p' = opt_eq_lem l.protocol r.protocol p in
    let a' = opt_eq_lem l.address r.address a in
    ((λ i. record { component = c' i; protocol = p' i; address = a' i; port = same i }), k, known)

-- The candidate that stands for a selected one is equal to it in what is compared, whether a known one
-- is found or not.
select_known_candidate_same :
    (known : List Endpoint) (s : Endpoint) → select_known_candidate known (some s) ≡ some s
unfolding select_known_candidate
select_known_candidate_same [] s = refl
select_known_candidate_same (k ∷ ks) s =
    elim (Bool-cases (same_candidate_endpoint (some k) (some s))) [
      | inl e ↦ rw e (ap some (same_candidate_endpoint_equal k s e).0)
      | inr e ↦ rw e (select_known_candidate_same ks s)
    ]
