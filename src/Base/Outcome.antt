-- ===== src/Base/Outcome.antt =====
-- A call that may throw. Every exception the state managers raise has its own constructor.
use mathlib.Core.Path.{◌≡◌, ap}

pub data Thrown : Type 0 where
  token_buy_not_found burn_not_found send_not_found refund_not_found : Thrown
  purchase_not_found bad_capacity out_of_fuel : Thrown
  account_too_small layout_drift out_of_range value_too_large : Thrown
  division_by_zero not_sol_curve coin_graduated : Thrown

-- What the call leaves: the exception, or the value.
pub data Result {ℓ} (Value : Type ℓ) : Type ℓ where
  err : (e : Thrown) → Result Value
  ok : (value : Value) → Result Value

-- The rest of a body runs on the value; an exception goes past it.
abbrev pub and_then {ℓ κ} :
    {Value : Type ℓ} {Next : Type κ} → (Value → Result Next) → Result Value → Result Next
and_then rest (err e) = err e
and_then rest (ok value) = rest value

infixl 5 ◌>>=◌ ◌>>◌
abbrev pub ◌>>=◌ {ℓ κ} :
    {Value : Type ℓ} {Next : Type κ} → Result Value → (Value → Result Next) → Result Next
call >>= rest = and_then rest call

abbrev pub ◌>>◌ {ℓ κ} : {Value : Type ℓ} {Next : Type κ} → Result Value → Result Next → Result Next
call >> last = and_then (λ _. last) call

pub >>=-ok {ℓ κ} :
    {Value : Type ℓ} {Next : Type κ} (call : Result Value) (rest : Value → Result Next)
    (value : Value)
    → call ≡ ok value
    → (call >>= rest) ≡ rest value
>>=-ok call rest value e = ap (and_then rest) e

pub ok_injective {ℓ} : {Value : Type ℓ} {v w : Value} → ok v ≡ ok w → v ≡ w
ok_injective e = cc
