-- ===== src/RateLimiter/Tests.antt =====
-- The limiters on concrete requests.
use multi_tenant_cloud_obser.Base.{
  ℕ, ◌+◌, ◌-◌, ◌*◌, ◌≤◌, ◌≡◌, refl, true, List, [], ◌∷◌, arith, Text, codes, length, text_eq,
}
use multi_tenant_cloud_obser.Base.Int.{◌+ℤ◌, min_ℤ}
use multi_tenant_cloud_obser.Base.Tables.{select}
use multi_tenant_cloud_obser.RateLimiter.{
  unit, create, take, get, put, refill, refilled, settle, prune, drop_full,
}
use multi_tenant_cloud_obser.RateLimiter.Capacity.{run, run-capacity}
use multi_tenant_cloud_obser.RateLimiter.Rate.{allowed, wipes, last_time, allowed-le, take_again}

limiter : Unit {0}
unfolding take get put refill refilled settle prune drop_full select create allowed wipes run
    text_eq ◌+ℤ◌ min_ℤ
limiter = tt

-- Two a minute: a third request of the same host within a second is refused; another host is not.
abbrev calls : List (Text × ℕ)
calls =
    (codes "a", 0) ∷ (codes "a", 10) ∷ (codes "a", 900) ∷ (codes "b", 901) ∷ (codes "a", 31000) ∷ []

counted : allowed (codes "a") (create 2 5) calls ≡ 3
unfolding limiter
counted = refl

-- With room for one key the second host drives the first one out.
forgotten : (wipes (create 2 1) calls ≡ 1) × (allowed (codes "a") (create 2 1) calls ≡ 3)
unfolding limiter
forgotten = (refl, refl)

run-capacity_example : length (run (create 2 1) calls).buckets ≤ 1
run-capacity_example = run-capacity 2 1 calls

allowed-le_example :
    unit * allowed (codes "a") (create 2 5) calls
    ≤ 2 * unit * (1 + wipes (create 2 5) calls) + 2 * (last_time 0 calls - 0)
allowed-le_example = allowed-le 2 5 (codes "a") 0 calls (omega arith) (omega arith)

take_again_example :
    (take (run (create 2 5) calls) (codes "a") (last_time 0 calls + 30000)).1 ≡ true
take_again_example =
    take_again 2 5 0 30000 (codes "a") calls (omega arith) (omega arith) (omega arith)
