-- ===== src/RateLimiter/Rate.antt =====
-- How many requests of one key a limiter lets through.
use multi_tenant_cloud_obser.Base.{
  ℕ, ◌+◌, ◌-◌, ◌*◌, ◌≤◌, ◌≡◌, refl, inl, inr, true, false, ◌&&◌, List, [], ◌∷◌, arith, Text,
  text_eq, text_eq_sound, ltb, if◌then◌else◌, length, Bool-cases,
}
use multi_tenant_cloud_obser.Base.Int.{pos, ltb_ℤ, ◌+ℤ◌}
use multi_tenant_cloud_obser.RateLimiter.{
  RateLimiter, unit, create, get, put, refilled, drop_full, prune, settle, spend, take, take_cases,
}
use multi_tenant_cloud_obser.RateLimiter.Capacity.{run}
use multi_tenant_cloud_obser.RateLimiter.Levels.{
  is_empty, mul_mono, level-ge, level, level-later, level-le-full, IsFair-later, IsSound, Costs,
  refilled-level, put-IsSound, drop_full-level, drop_full-IsSound,
}
use multi_tenant_cloud_obser.RateLimiter.Buckets.{get-put, get-select}

module _ (p : ℕ) (now : ℕ) (l : RateLimiter) (s : IsSound p now l) where
  settle-IsSound : IsSound p now (settle l now)
  unfolding settle prune get
  settle-IsSound = elim (Bool-cases (ltb l.max_keys (length l.buckets))) [
    | inr fits ↦ rw fits s
    | inl over ↦ elim (Bool-cases (ltb l.max_keys (length (drop_full l now)))) [
      | inl wiped ↦ rw (over, wiped) (record { rate = s.rate; distinct = tt; fair = λ k. tt })
      | inr fits ↦ rw (over, fits) (drop_full-IsSound p now l s)
    ]
  ]

  -- Forgetting full buckets changes no level; clearing the map fills every bucket.
  settle-level :
      (k : Text)
      → level p now (get k (settle l now).buckets)
        ≤ level p now (get k l.buckets) + (if is_empty (settle l now).buckets then p * unit else 0)
  unfolding settle prune get
  settle-level k = elim (Bool-cases (ltb l.max_keys (length l.buckets))) [
    | inr fits ↦ rw fits (omega arith)
    | inl over ↦ elim (Bool-cases (ltb l.max_keys (length (drop_full l now)))) [
      | inl wiped ↦ rw (over, wiped) (omega arith)
      | inr fits ↦
          rw (over, fits)
            (omega (arith, (drop_full-level p now l s k (get-select _ k l.buckets s.distinct)).1))
    ]
  ]

-- The requests of `key` that are let through, among requests of many keys.
unfoldable pub allowed : Text → RateLimiter → List (Text × ℕ) → ℕ
allowed key l [] = 0
allowed key l ((k, now) ∷ calls) =
    let (l', ok) = take l k now in (if ok && text_eq k key then 1 else 0) + allowed key l' calls

-- The requests after which the limiter knows no key, since `prune` cleared the map.
unfoldable pub wipes : RateLimiter → List (Text × ℕ) → ℕ
wipes l [] = 0
wipes l ((k, now) ∷ calls) =
    let l' = (take l k now).0 in (if is_empty l'.buckets then 1 else 0) + wipes l' calls

-- The clock does not step back.
abbrev pub IsSorted : ℕ → List (Text × ℕ) → Type 0
IsSorted t [] = Unit {0}
IsSorted t ((k, now) ∷ calls) = (t ≤ now) × IsSorted now calls

abbrev pub last_time : ℕ → List (Text × ℕ) → ℕ
last_time t [] = t
last_time t ((k, now) ∷ calls) = last_time now calls

spend_pos :
    (now t : ℕ)
    → ltb_ℤ (pos t) (pos unit) ≡ false
    → (unit ≤ t)
      × (spend (record { tokens = pos t; at = now }) ≡ record { tokens = pos (t - unit); at = now })
unfolding ◌+ℤ◌
spend_pos now t h = ground arith

module _ (p now : ℕ) (l : RateLimiter) (s : IsSound p now l) (key : Text) where
  put-level :
      (k : Text) (t : ℕ)
      → t ≤ p * unit
      → level p now (get k (put key (record { tokens = pos t; at = now }) l.buckets))
        ≡ (if text_eq key k then t else level p now (get k l.buckets))
  put-level k t h =
      rw (get-put key k (record { tokens = pos t; at = now }) l.buckets)
        (elim (Bool-cases (text_eq key k)) [ inl e ↦ rw e (omega arith) | inr e ↦ rw e ])

  put_fair :
      (t : ℕ)
      → t ≤ p * unit
      → IsSound p now
          (record l { buckets = put key (record { tokens = pos t; at = now }) l.buckets })
  put_fair t h = put-IsSound p now l s key _ (t, refl, h, omega arith)

  spend_lem :
      ltb_ℤ (refilled l key now).tokens (pos unit) ≡ false
      → (unit ≤ level p now (get key l.buckets))
        × (spend (refilled l key now)
            ≡ record { tokens = pos (level p now (get key l.buckets) - unit); at = now })
  spend_lem = rw (refilled-level p now l s key) (spend_pos now (level p now (get key l.buckets)))

  level-same :
      (k : Text)
      → text_eq key k ≡ true
      → level p now (get key l.buckets) ≡ level p now (get k l.buckets)
  level-same k e = rw (text_eq_sound key k e)

  -- What one call costs: a request that is let through takes a token from its own key alone.
  take-Costs :
      1 ≤ p → (k : Text) → IsSound p now (take l key now).0 × Costs p now l key k (take l key now)
  take-Costs on k =
      take_cases (λ r. IsSound p now r.0 × Costs p now l key k r) l key now
        (λ off. absurd (ground (arith, s.rate)))
        (λ _ refused. rw (refilled-level p now l s key) (
          put_fair _ (level-le-full p now _),
          ground (arith, put-level k _ (level-le-full p now (get key l.buckets)), level-same k),
        ))
        (λ _ ok.
          let (enough, e) = spend_lem ok in
          let le : level p now (get key l.buckets) - unit ≤ p * unit =
            omega (arith, level-le-full p now (get key l.buckets)) in
          let spent = put_fair _ le in
          rw e (
            settle-IsSound p now _ spent,
            ground (arith, settle-level p now _ spent k, put-level k _ le, level-same k),
          ))

IsSound-later : (p t now : ℕ) (l : RateLimiter) → t ≤ now → IsSound p t l → IsSound p now l
IsSound-later p t now l h s = record {
  rate = s.rate;
  distinct = s.distinct;
  fair = λ k. IsFair-later p t now (get k l.buckets) h (s.fair k);
}

last_time-ge : (t : ℕ) (calls : List (Text × ℕ)) → IsSorted t calls → t ≤ last_time t calls
last_time-ge t [] h = omega arith
last_time-ge t ((k, now) ∷ calls) h = omega (arith, last_time-ge now calls h.1)

allowed-le-level :
    (p : ℕ)
    → 1 ≤ p
    → (key : Text) (calls : List (Text × ℕ)) (t : ℕ) (l : RateLimiter) → IsSound p t l
    → IsSorted t calls
    → unit * allowed key l calls
      ≤ level p t (get key l.buckets) + p * unit * wipes l calls + (last_time t calls * p - t * p)
unfolding allowed wipes
allowed-le-level p on key [] t l s h = omega arith
allowed-le-level p on key ((k, now) ∷ calls) t l s (later, h) =
    let s' = IsSound-later p t now l later s in
    let (next, cost) = take-Costs p now l s' k on key in
    let ih = allowed-le-level p on key calls now (take l k now).0 next h in
    ground (
      arith,
      ih,
      cost,
      level-later p t now (get key l.buckets) later (s.fair key),
      mul_mono t now p later,
      mul_mono now (last_time now calls) p (last_time-ge now calls h),
    )

budget_lem :
    (p t d w : ℕ) → p * unit + p * unit * w + ((t + d) * p - t * p) ≡ p * unit * (1 + w) + p * d
budget_lem p t d w = omega arith

-- Of the requests that carry one key, made of a new limiter from time `t` on while the clock does
-- not step back, at most `per_minute` are let through, and `per_minute` more for each minute that
-- passes and for each time that the map was cleared to make room.
pub allowed-le :
    (per_minute max_keys : ℕ) (key : Text) (t : ℕ) (calls : List (Text × ℕ))
    → 1 ≤ per_minute
    → IsSorted t calls
    → let l = create per_minute max_keys in
      unit * allowed key l calls
      ≤ per_minute * unit * (1 + wipes l calls) + per_minute * (last_time t calls - t)
unfolding create get
allowed-le per_minute max_keys key t calls on h =
    let l = create per_minute max_keys in
    let d = last_time t calls - t in
    let later : last_time t calls ≡ t + d = omega (arith, last_time-ge t calls h) in
    rw (← budget_lem per_minute t d (wipes l calls), ← later)
      (allowed-le-level per_minute on key calls t l
        (record { rate = refl; distinct = tt; fair = λ k. tt }) h)

run-IsSound :
    (p : ℕ)
    → 1 ≤ p
    → (t : ℕ) (l : RateLimiter) (calls : List (Text × ℕ)) → IsSound p t l
    → IsSorted t calls
    → IsSound p (last_time t calls) (run l calls)
unfolding run
run-IsSound p on t l [] s h = s
run-IsSound p on t l ((k, now) ∷ calls) s (later, h) =
    run-IsSound p on now (take l k now).0 calls
      (take-Costs p now l (IsSound-later p t now l later s) k on k).0 h

-- Whatever has been asked of a limiter before, on a clock that does not step back, any key is let
-- through `d` milliseconds after the last request, if `d` times `per_minute` comes to a minute.
pub take_again :
    (per_minute max_keys t d : ℕ) (key : Text) (calls : List (Text × ℕ))
    → 1 ≤ per_minute
    → IsSorted t calls
    → unit ≤ d * per_minute
    → (take (run (create per_minute max_keys) calls) key (last_time t calls + d)).1 ≡ true
unfolding create get
take_again p max_keys t d key calls on h waited =
    let now = last_time t calls in
    let l = run (create p max_keys) calls in
    let s =
      run-IsSound p on t (create p max_keys) calls
        (record { rate = refl; distinct = tt; fair = λ k. tt }) h in
    let later = IsSound-later p now (now + d) l (omega arith) s in
    take_cases (λ r. r.1 ≡ true) l key (now + d) (λ _. refl)
      (λ _ refused. absurd (
        ground (
          arith,
          refilled-level p (now + d) l later key,
          level-ge p now d (get key l.buckets) on waited (s.fair key),
        )))
      (λ _ _. refl)
