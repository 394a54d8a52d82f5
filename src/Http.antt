-- ===== src/Http.antt =====
-- What a handler of the web API gives: an answer, or the status of the error that it raises. An
-- exception that a handler lets through is a 500.
use siem_sentinel_xv.Base.{ℕ, Bool, true, false, Option, none, some}

pub data Response {ℓ} (A : Type ℓ) : Type ℓ where
  ok : A → Response A
  fail : ℕ → Response A

infixl 5 ◌>>=◌
abbrev pub ◌>>=◌ {ℓ κ} : {A : Type ℓ} {B : Type κ} → Response A → (A → Response B) → Response B
ok a >>= f = f a
fail status >>= f = fail status

-- `if not x: raise HTTPException(status)`
abbrev pub found_or {ℓ} : {A : Type ℓ} → ℕ → Option A → Response A
found_or status none = fail status
found_or status (some a) = ok a

abbrev pub require : ℕ → Bool → Response (Unit {0})
require status true = ok tt
require status false = fail status
