-- ===== src/Gateway.antt =====
-- services/query-gateway/src: the gateway between Grafana and the stores of metrics and logs.
-- An answer is the value that a handler goes on with or the HTTP exception that it throws; the texts
-- of the messages are left out.
pub mod Access
pub mod Binding
pub mod Json
pub mod Filter
pub mod Aggregations
pub mod Depth
pub mod Confinement
pub mod Plain
pub mod Enforcement
pub mod Search
pub mod Percent
pub mod SafePath
pub mod Normal
pub mod Targets
pub mod Endpoint
pub mod Reach
mod Tests
mod TargetTests
use multi_tenant_cloud_obser.Base.{◌≡◌, refl, Bool, true, false}

pub data HttpError : Type 0 where
  forbidden bad_request internal : HttpError

-- What a handler has at a point: a value to go on with, or the exception that ended it.
pub data Answer {ℓ} (A : Type ℓ) : Type ℓ where
  throws : HttpError → Answer A
  returns : A → Answer A

module _ {ℓ κ} {A : Type ℓ} {B : Type κ} where
  infixl 5 ◌>>=◌
  abbrev pub ◌>>=◌ : Answer A → (A → Answer B) → Answer B
  throws e >>= next = throws e
  returns a >>= next = next a

-- `if (!test) throw e`.
abbrev pub require : Bool → HttpError → Answer (Unit {0})
require false e = throws e
require true e = returns tt

-- What follows a guard.
infixl 5 ◌>>◌
abbrev pub ◌>>◌ {ℓ} : {B : Type ℓ} → Answer (Unit {0}) → Answer B → Answer B
checked >> rest = checked >>= λ u. rest

pub >>=-eq-returns {ℓ κ} :
    {A : Type ℓ} {B : Type κ} (m : Answer A) (f : A → Answer B) {b : B}
    → (m >>= f) ≡ returns b
    → (a : A) × (m ≡ returns a) × (f a ≡ returns b)
>>=-eq-returns (returns a) f h = (a, refl, h)
>>=-eq-returns (throws e) f h = cc

-- A guard that was passed.
pub required_lem {ℓ} :
    {A : Type ℓ} (b : Bool) (e : HttpError) (k : Answer A) (a : A)
    → (require b e >> k) ≡ returns a
    → (b ≡ true) × (k ≡ returns a)
required_lem true e k a h = (refl, h)
required_lem false e k a h = cc
