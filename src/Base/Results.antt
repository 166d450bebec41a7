-- ===== src/Base/Results.antt =====
-- Go's pair of a value and an error. An error is told apart by the sentinel that `errors.Is` finds
-- in its chain: `%w` keeps the sentinel, so wrapping is not written, and messages are not modelled.
use mathlib.Core.Path.{◌≡◌, refl}
use mathlib.Core.Logic.{◌⊎◌, inl, inr}

-- The sentinels of pkg/session, pkg/openid/client and net/http, and every other error.
pub data Error : Type 0 where
  cookie_not_found expired_access_token invalid_state : Error
  no_session_data no_access_token session_inactive : Error
  key_not_found unexpected acquire_lock : Error
  openid_client openid_server : Error
  invalid_security_level invalid_locale invalid_login_parameter : Error
  no_cookie context_done other : Error

-- The pair `(value, err)`, of which Go's callers read the value only when `err` is nil.
pub data Result {ℓ} (Value : Type ℓ) : Type ℓ where
  err : Error → Result Value
  ok : Value → Result Value

-- `if err != nil { return err }` between two calls.
infixl 5 ◌>>=◌
abbrev pub ◌>>=◌ {ℓ κ} :
    {Value : Type ℓ} {Next : Type κ} → Result Value → (Value → Result Next) → Result Next
err failure >>= _ = err failure
ok value >>= next = next value

-- `fmt.Errorf("%w: %+v", ErrX, err)`: the chain of the new error is that of `ErrX`.
abbrev pub replace_error {ℓ} : {A : Type ℓ} → Error → Result A → Result A
replace_error e (ok a) = ok a
replace_error e (err _) = err e

pub Result-cases {ℓ} :
    {A : Type ℓ} (r : Result A) → ((a : A) × (r ≡ ok a)) ⊎ ((e : Error) × (r ≡ err e))
Result-cases (ok a) = inl (a, refl)
Result-cases (err e) = inr (e, refl)
