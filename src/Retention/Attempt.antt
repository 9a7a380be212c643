-- ===== src/Retention/Attempt.antt =====
-- What the calls of src/core/retention raise or return.
use raglogs.Base.{◌≡◌, refl}

-- The value of a call; or the exception, without its message; `out_of_fuel` is the model's own, for
-- a loop that has not ended within its fuel.
pub data Attempt {ℓ} (T : Type ℓ) : Type ℓ where
  value_error : Attempt T
  overflow_error : Attempt T
  out_of_fuel : Attempt T
  done : T → Attempt T

infixl 5 ◌>>=◌
-- A call, and the code that uses its value.
abbrev pub ◌>>=◌ {ℓ κ} : {S : Type ℓ} {T : Type κ} → Attempt S → (S → Attempt T) → Attempt T
value_error >>= rest = value_error
overflow_error >>= rest = overflow_error
out_of_fuel >>= rest = out_of_fuel
done s >>= rest = rest s

-- A computation that returns had a first call that returned.
pub >>=-eq-done {ℓ κ} :
    {S : Type ℓ} {T : Type κ} (call : Attempt S) (rest : S → Attempt T) {t : T}
    → ◌≡◌ {A = Attempt T} (call >>= rest) (done t)
    → (s : S) × (call ≡ done s) × (rest s ≡ done t)
>>=-eq-done value_error rest e = cc
>>=-eq-done overflow_error rest e = cc
>>=-eq-done out_of_fuel rest e = cc
>>=-eq-done (done s) rest e = (s, refl, e)
