-- ===== src/RateLimiter/Capacity.antt =====
-- The memory of a limiter: the number of keys that it tracks.
use multi_tenant_cloud_obser.Base.{
  ℕ, ◌≤◌, ◌≡◌, refl, ◌∙◌, inl, inr, true, false, some, List, [], ◌∷◌, arith, Text, ◌==◌, length,
  Option-cases,
}
use multi_tenant_cloud_obser.Base.Int.{pos, ltb_ℤ}
use multi_tenant_cloud_obser.RateLimiter.{
  RateLimiter, Bucket, unit, create, get, put, refill, refilled, prune, settle, spend, take,
  take_cases,
}
use multi_tenant_cloud_obser.RateLimiter.Buckets.{length-put_old}

unfoldable pub run : RateLimiter → List (Text × ℕ) → RateLimiter
run l [] = l
run l ((key, now) ∷ calls) = run (take l key now).0 calls

settle-capacity : (l : RateLimiter) (now : ℕ) → length (settle l now).buckets ≤ l.max_keys
unfolding settle prune
settle-capacity l now = ground arith

settle-max_keys : (l : RateLimiter) (now : ℕ) → (settle l now).max_keys ≡ l.max_keys
unfolding settle prune
settle-max_keys l now = ground arith

-- A key that is refused was known before.
refused_known :
    (l : RateLimiter) (key : Text) (now : ℕ)
    → (l.per_minute == 0) ≡ false
    → ltb_ℤ (refilled l key now).tokens (pos unit) ≡ true
    → (b : Bucket) × (get key l.buckets ≡ some b)
unfolding refilled refill
refused_known l key now h e = elim (Option-cases (get key l.buckets)) [
  | inl missing ↦ absurd (ground arith)
  | inr found ↦ found
]

abbrev IsBounded : ℕ → RateLimiter → Type 0
IsBounded m l = (l.max_keys ≡ m) × (length l.buckets ≤ m)

take-IsBounded :
    (m : ℕ) (l : RateLimiter) (key : Text) (now : ℕ)
    → IsBounded m l
    → IsBounded m (take l key now).0
take-IsBounded m l key now h =
    take_cases (λ r. IsBounded m r.0) l key now (λ _. h)
      (λ on refused.
        let (b, known) = refused_known l key now on refused in
        (h.0, omega (arith, length-put_old key (refilled l key now) b l.buckets known)))
      (λ _ _.
        let spent = record l { buckets = put key (spend (refilled l key now)) l.buckets } in
        (settle-max_keys spent now ∙ h.0, omega (arith, settle-capacity spent now)))

run-IsBounded :
    (m : ℕ) (l : RateLimiter) (calls : List (Text × ℕ)) → IsBounded m l → IsBounded m (run l calls)
unfolding run
run-IsBounded m l [] h = h
run-IsBounded m l ((key, now) ∷ calls) h =
    run-IsBounded m (take l key now).0 calls (take-IsBounded m l key now h)

-- However many keys ask, and at whatever times, a new limiter never tracks more than its maximum.
pub run-capacity :
    (per_minute max_keys : ℕ) (calls : List (Text × ℕ))
    → length (run (create per_minute max_keys) calls).buckets ≤ max_keys
unfolding create
run-capacity per_minute max_keys calls =
    (run-IsBounded max_keys (create per_minute max_keys) calls (refl, omega arith)).1
