-- ===== src/Config/Init.antt =====
-- `enforceRange`, `toUnsignedLong` and `normalizeDataChannelInit`.
use webrtc_node.Base.{
  ℕ, ◌+◌, ◌-◌, ◌%◌, ◌<◌, [], Option, none, some, Bool, true, false, not, ◌&&◌, ltb, ◌≡◌, refl,
  arith, ap, if◌then◌else◌, is_some, Num, nan, infinite, integer, fraction, ℤ, pos, negsuc, Result,
  ok, err, type_error, ◌>>=◌, ◌>>◌, throw_if, Str, >>=-eq-ok, throw_if-eq-ok, subst,
}

-- `enforceRange`; the value is what `Number(value)` gives.
unfoldable pub enforce_range : ℕ → Num → Result ℕ
enforce_range limit (integer (pos n)) = if ltb limit n then err type_error else ok n
enforce_range limit _ = err type_error

abbrev word_modulo : ℕ
word_modulo = 4294967296

-- `((integer % modulo) + modulo) % modulo`, where `%` of JavaScript keeps the sign.
abbrev wrap_word : ℤ → ℕ
wrap_word (pos n) = (n % word_modulo + word_modulo) % word_modulo
wrap_word (negsuc n) = (word_modulo - (n + 1) % word_modulo) % word_modulo

-- `toUnsignedLong`; `none` is a BigInt.
unfoldable pub to_unsigned_long : Option Num → Result ℕ
to_unsigned_long none = err type_error
to_unsigned_long (some nan) = ok 0
to_unsigned_long (some (infinite b)) = ok 0
to_unsigned_long (some (integer z)) = ok (wrap_word z)
to_unsigned_long (some (fraction z)) = ok (wrap_word z)

-- The members of the argument of `createDataChannel`, converted: `none` is a missing one.
pub record DataChannelInit : Type 0 where
  pub ordered : Option Bool
  pub max_packet_life_time : Option Num
  pub max_retransmits : Option Num
  pub protocol : Option Str
  pub negotiated : Option Bool
  pub id : Option Num

pub record DataChannelOptions : Type 0 where
  pub ordered : Bool
  pub max_packet_life_time : Option ℕ
  pub max_retransmits : Option ℕ
  pub protocol : Str
  pub negotiated : Bool
  pub id : Option ℕ

abbrev pub enforce_optional : ℕ → Option Num → Result (Option ℕ)
enforce_optional limit none = ok none
enforce_optional limit (some n) = do x ← enforce_range limit n; ok (some x)

abbrev pub with_default {ℓ} : {A : Type ℓ} → A → Option A → A
with_default d none = d
with_default d (some x) = x

abbrev pub above : ℕ → Option ℕ → Bool
above limit none = false
above limit (some n) = ltb limit n

-- The options that `normalizeDataChannelInit` returns.
abbrev pub options_of : DataChannelInit → Bool → Option ℕ → Option ℕ → Option ℕ → DataChannelOptions
options_of init negotiated life_time retransmits id = record {
  ordered = with_default true init.ordered;
  max_packet_life_time = life_time;
  max_retransmits = retransmits;
  protocol = with_default [] init.protocol;
  negotiated = negotiated;
  id = if negotiated then id else none;
}

-- `normalizeDataChannelInit`.
unfoldable pub normalize_data_channel_init : DataChannelInit → Result DataChannelOptions
unfolding enforce_range
normalize_data_channel_init init = do
  life_time ← enforce_optional 65535 init.max_packet_life_time
  retransmits ← enforce_optional 65535 init.max_retransmits
  throw_if (is_some life_time && is_some retransmits) type_error
  id ← enforce_optional 65535 init.id
  let negotiated = with_default false init.negotiated
  throw_if (negotiated && not (is_some id)) type_error
  throw_if (negotiated && above 65534 id) type_error
  ok (options_of init negotiated life_time retransmits id)

enforce_optional-above :
    (limit : ℕ) (n : Option Num) (o : Option ℕ)
    → enforce_optional limit n ≡ ok o
    → above limit o ≡ false
unfolding enforce_range
enforce_optional-above limit none o e = ground arith
enforce_optional-above limit (some (integer (pos n))) o e = ground arith
enforce_optional-above limit (some (integer (negsuc n))) o e = cc
enforce_optional-above limit (some (fraction n)) o e = cc
enforce_optional-above limit (some nan) o e = cc
enforce_optional-above limit (some (infinite b)) o e = cc

-- What the options of a data channel must be.
pub record IsValid (o : DataChannelOptions) : Type 0 where
  pub life_time_fits : above 65535 o.max_packet_life_time ≡ false
  pub retransmits_fit : above 65535 o.max_retransmits ≡ false
  pub only_one : (is_some o.max_packet_life_time && is_some o.max_retransmits) ≡ false
  pub id_fits : above 65534 o.id ≡ false
  pub has_id : is_some o.id ≡ o.negotiated

id_kept :
    (negotiated : Bool) (id : Option ℕ)
    → (negotiated && not (is_some id)) ≡ false
    → (negotiated && above 65534 id) ≡ false
    → (above 65534 (if negotiated then id else none) ≡ false)
      × (is_some (if negotiated then id else none) ≡ negotiated)
id_kept true (some n) h k = (k, refl)
id_kept true none h k = cc
id_kept false id h k = (refl, refl)

options-IsValid :
    (init : DataChannelInit) (negotiated : Bool) (life_time retransmits id : Option ℕ)
    (o : DataChannelOptions)
    → above 65535 life_time ≡ false
    → above 65535 retransmits ≡ false
    → (is_some life_time && is_some retransmits) ≡ false
    → (negotiated && not (is_some id)) ≡ false
    → (negotiated && above 65534 id) ≡ false
    → ok (options_of init negotiated life_time retransmits id) ≡ ok o
    → IsValid o
options-IsValid init negotiated life_time retransmits id o l r x y z e =
    let (fits, has) = id_kept negotiated id y z in
    let p : options_of init negotiated life_time retransmits id ≡ o = cc in
    subst IsValid p (record {
      life_time_fits = l;
      retransmits_fit = r;
      only_one = x;
      id_fits = fits;
      has_id = has;
    })

-- Options that are accepted are in range, do not limit both the life time and the retransmits of a
-- packet, and have an identifier, at most 65534, exactly if the channel is negotiated.
pub normalize_data_channel_init-IsValid :
    (init : DataChannelInit) (o : DataChannelOptions)
    → normalize_data_channel_init init ≡ ok o
    → IsValid o
unfolding normalize_data_channel_init
normalize_data_channel_init-IsValid init o e =
    let (life_time, l, e1) = >>=-eq-ok (enforce_optional 65535 init.max_packet_life_time) _ e in
    let (retransmits, r, e2) = >>=-eq-ok (enforce_optional 65535 init.max_retransmits) _ e1 in
    let (x, e3) = throw_if-eq-ok (is_some life_time && is_some retransmits) _ e2 in
    let (id, i, e4) = >>=-eq-ok (enforce_optional 65535 init.id) _ e3 in
    let negotiated : Bool = with_default false init.negotiated in
    let (y, e5) = throw_if-eq-ok (negotiated && not (is_some id)) _ e4 in
    let (z, e6) = throw_if-eq-ok (negotiated && above 65534 id) _ e5 in
    options-IsValid init negotiated life_time retransmits id o
      (enforce_optional-above 65535 init.max_packet_life_time life_time l)
      (enforce_optional-above 65535 init.max_retransmits retransmits r) x y z e6

-- The result of the conversion is below 2 ^ 32 and is congruent to the integral part: a natural number
-- is reduced modulo 2 ^ 32, and a negative one is what is missing to a multiple of it.
pub to_unsigned_long-wraps :
    (n : ℕ)
    → (to_unsigned_long (some (integer (pos n))) ≡ ok (n % 4294967296))
      × ((m : ℕ) × (to_unsigned_long (some (integer (negsuc n))) ≡ ok m)
          × (m < 4294967296)
          × ((m + (n + 1)) % 4294967296 ≡ 0))
unfolding to_unsigned_long
to_unsigned_long-wraps n = (
  ap ok (omega arith),
  ((word_modulo - (n + 1) % word_modulo) % word_modulo, refl, omega arith, omega arith),
)
