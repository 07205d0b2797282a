-- ===== src/Base/Results.antt =====
-- Exceptions as values. An exception keeps its class and name, not the text of its message.
use Prim.Native.Nat.{ℕ}
use mathlib.Core.Path.{◌≡◌, refl}
use mathlib.Core.Bool.{Bool, true, false}

-- `type_error` is a TypeError, `plain_error` an Error, `sdp_syntax` an RTCError with its line; the
-- others are DOMExceptions by that name.
pub data Fault : Type 0 where
  type_error plain_error syntax_error invalid_access invalid_state : Fault
  invalid_modification operation_error not_supported : Fault
  sdp_syntax : ℕ → Fault

-- What a call leads to: an exception, or a value.
pub data Result {ℓ} (V : Type ℓ) : Type ℓ where
  err : Fault → Result V
  ok : V → Result V

infixl 5 ◌>>=◌ ◌>>◌
-- `if (test) throw fault`.
abbrev pub throw_if : Bool → Fault → Result (Unit {0})
throw_if false fault = ok tt
throw_if true fault = err fault

abbrev pub ◌>>=◌ {ℓ κ} : {V : Type ℓ} {W : Type κ} → Result V → (V → Result W) → Result W
err fault >>= next = err fault
ok v >>= next = next v

abbrev pub ◌>>◌ {κ} : {W : Type κ} → Result (Unit {0}) → Result W → Result W
err fault >> next = err fault
ok done >> next = next

module _ {ℓ κ} {V : Type ℓ} {W : Type κ} where
  -- A chain that returns has passed its first call.
  pub >>=-eq-ok :
      (call : Result V) (next : V → Result W) {w : W}
      → (call >>= next) ≡ ok w
      → (v : V) × (call ≡ ok v) × (next v ≡ ok w)
  >>=-eq-ok (err fault) next e = cc
  >>=-eq-ok (ok v) next e = (v, refl, e)

pub throw_if-eq-ok {κ} :
    {W : Type κ} (test : Bool) (fault : Fault) {next : Result W} {w : W}
    → (throw_if test fault >> next) ≡ ok w
    → (test ≡ false) × (next ≡ ok w)
throw_if-eq-ok true fault e = cc
throw_if-eq-ok false fault e = (refl, e)
