-- ===== src/Prelude/Raise.antt =====
-- Code that may raise: a value, or the exception that ends the call.
use mathlib.Core.Path.{◌≡◌, refl}
use mathlib.Core.Bool.{Bool, true, false}

infixl 5 ◌>>=◌ ◌>>◌
-- The exception classes that the modelled code raises.
pub data Error : Type 0 where
  value_error sizing_error liquidation_guard_error transition_error : Error
  lookup_error key_error assertion_error adapter_error : Error
  timeout_error source_freshness_expired unknown_result_error setup_error : Error
  not_found_error api_error kill_switch_trigger attribute_error type_error pending_error : Error
  native_close_error provider_fill_error : Error

-- What a call ends with.
pub data Result {ℓ} (V : Type ℓ) : Type ℓ where
  err : Error → Result V
  ok : V → Result V

-- `if c: raise e`
abbrev pub raise_if : Bool → Error → Result (Unit {0})
raise_if false e = ok tt
raise_if true e = err e

-- An exception skips what follows.
abbrev pub ◌>>=◌ {κ ℓ} : {V : Type κ} {W : Type ℓ} → Result V → (V → Result W) → Result W
err raised >>= next = err raised
ok value >>= next = next value

abbrev pub ◌>>◌ {κ} : {W : Type κ} → Result (Unit {0}) → Result W → Result W
check >> next = check >>= λ passed. next

-- A block that returned has passed its first call.
pub >>=-eq-ok {κ ℓ} :
    {V : Type κ} {W : Type ℓ} (call : Result V) (next : V → Result W) {w : W}
    → (call >>= next) ≡ ok w
    → (v : V) × (call ≡ ok v) × (next v ≡ ok w)
>>=-eq-ok (err raised) next returned = cc
>>=-eq-ok (ok value) next returned = (value, refl, returned)

-- A block that returned has passed its first test.
pub raise_if-eq-ok {ℓ} :
    {W : Type ℓ} (b : Bool) (e : Error) (next : Unit {0} → Result W) {w : W}
    → (raise_if b e >>= next) ≡ ok w
    → (b ≡ false) × (next tt ≡ ok w)
raise_if-eq-ok true e next returned = cc
raise_if-eq-ok false e next returned = (refl, returned)

pub ok_injective {ℓ} : {V : Type ℓ} {v w : V} → ok v ≡ ok w → v ≡ w
ok_injective returned = cc
