-- ===== src/Rca/Result.antt =====
-- What the structural inference of src/core/rca raises: `ValueError`, whose message is left out.
use raglogs.Base.{◌≡◌, refl, Bool, true, false}

-- The value that a call returns, or the error.
pub data Result {ℓ} (T : Type ℓ) : Type ℓ where
  value_error : Result T
  ok : T → Result T

-- `if not holds: raise ValueError(…)`
abbrev pub require : Bool → Result (Unit {0})
require false = value_error
require true = ok tt

infixl 5 ◌>>◌
-- A check, and the code behind it.
abbrev pub ◌>>◌ {ℓ} : {T : Type ℓ} → Result (Unit {0}) → Result T → Result T
value_error >> rest = value_error
ok done >> rest = rest

infixl 5 ◌>>=◌
-- A call, and the code that uses its value.
abbrev pub ◌>>=◌ {ℓ κ} : {S : Type ℓ} {T : Type κ} → Result S → (S → Result T) → Result T
value_error >>= rest = value_error
ok s >>= rest = rest s

-- A computation that returns had a first call that returned.
pub >>=-eq-ok {ℓ κ} :
    {S : Type ℓ} {T : Type κ} (call : Result S) (rest : S → Result T) {t : T}
    → ◌≡◌ {A = Result T} (call >>= rest) (ok t)
    → (s : S) × (call ≡ ok s) × (rest s ≡ ok t)
>>=-eq-ok value_error rest e = cc
>>=-eq-ok (ok s) rest e = (s, refl, e)

-- A computation that returns had passed its check.
pub require-then :
    {T : Type 0} (holds : Bool) (rest : Result T) {t : T}
    → (require holds >> rest) ≡ ok t
    → (holds ≡ true) × (rest ≡ ok t)
require-then false rest e = absurd (cc)
require-then true rest e = (refl, e)

pub ok-injective : {T : Type 0} {s t : T} → ok s ≡ ok t → s ≡ t
ok-injective e = cc
