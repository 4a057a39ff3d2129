-- ===== src/Outbox/Delay.antt =====
-- The delay before an event that failed is tried again.
use native.Mathlib.Nat.{one-le-pow, pow-suc}
use multi_tenant_cloud_obser.Base.{ℕ, suc, ◌-◌, ◌*◌, ◌^◌, ◌≤◌, ◌≡◌, refl, arith, min}
use multi_tenant_cloud_obser.Outbox.{retry_delay_seconds}

-- The delay is between five seconds and ten minutes.
pub retry_delay_bounds :
    (attempts : ℕ) → (5 ≤ retry_delay_seconds attempts) × (retry_delay_seconds attempts ≤ 600)
unfolding retry_delay_seconds
retry_delay_bounds attempts =
    let p = one-le-pow (attempts - 1) 2 (omega arith) in (omega arith, omega arith)

doubled : (p : ℕ) → min (5 * (p * 2)) 600 ≡ min (2 * min (5 * p) 600) 600
doubled p = omega arith

-- The first attempt waits five seconds, and each further one twice as long as the one before it, up
-- to ten minutes.
pub retry_delay_doubles :
    (attempts : ℕ)
    → (retry_delay_seconds 1 ≡ 5)
      × (retry_delay_seconds (suc (suc attempts))
          ≡ min (2 * retry_delay_seconds (suc attempts)) 600)
unfolding retry_delay_seconds
retry_delay_doubles attempts = (refl, step)
  where
    less : (n : ℕ) → suc n - 1 ≡ n
    less n = omega arith

    step :
        retry_delay_seconds (suc (suc attempts)) ≡ min (2 * retry_delay_seconds (suc attempts)) 600
    step = rw (less (suc attempts), less attempts, pow-suc) (doubled (2 ^ attempts))
