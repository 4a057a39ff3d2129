-- ===== src/RateLimiter.antt =====
-- services/control-plane/src/common/http/rate-limiter.ts and the limiter of the public enrollment
-- exchange, modules/enrollments/exchange-rate-limiter.ts.
-- A token is 60000 units here, so that a millisecond refills `per_minute` units and the source's
-- division is exact. Tokens are integers: a clock that steps back takes tokens away, as in the
-- source. The map is a list of its entries in the order of insertion.
pub mod Buckets
pub mod Capacity
pub mod Levels
pub mod Rate
mod Tests
use multi_tenant_cloud_obser.Base.{
  ℕ, ◌+◌, ◌*◌, Bool, true, false, not, Option, none, some, List, [], ◌∷◌, Text, codes, text_eq, ltb,
  ◌==◌, if◌then◌else◌, length, ◌≡◌, inl, inr, Bool-cases,
}
use multi_tenant_cloud_obser.Base.Int.{ℤ, pos, sub_ℕ, ◌+ℤ◌, ltb_ℤ, min_ℤ}
use multi_tenant_cloud_obser.Base.Tables.{select}

abbrev pub unit : ℕ
unit = 60000

pub record Bucket : Type 0 where
  pub tokens : ℤ
  pub at : ℕ

abbrev pub Buckets : Type 0
Buckets = List (Text × Bucket)

-- `Map.get`.
pub get : Text → Buckets → Option Bucket
get key [] = none
get key ((k, b) ∷ rest) = if text_eq k key then some b else get key rest

-- `Map.set`: an entry keeps its place, a new one goes to the end.
pub put : Text → Bucket → Buckets → Buckets
put key b [] = (key, b) ∷ []
put key b ((k, c) ∷ rest) = if text_eq k key then (k, b) ∷ rest else (k, c) ∷ put key b rest

pub record RateLimiter : Type 0 where
  pub per_minute : ℕ
  pub max_keys : ℕ
  pub buckets : Buckets

pub create : ℕ → ℕ → RateLimiter
create per_minute max_keys = record { per_minute = per_minute; max_keys = max_keys; buckets = [] }

abbrev pub full : ℕ → ℤ
full per_minute = pos (per_minute * unit)

-- `refilled`, once the key is looked up.
pub refill : ℕ → ℕ → Option Bucket → Bucket
refill p now none = record { tokens = full p; at = now }
refill p now (some b) = record {
  tokens = min_ℤ (full p) (b.tokens +ℤ sub_ℕ (now * p) (b.at * p));
  at = now;
}

pub refilled : RateLimiter → Text → ℕ → Bucket
refilled l key now = refill l.per_minute now (get key l.buckets)

-- The loop of `prune`: the buckets that are not full stay.
pub drop_full : RateLimiter → ℕ → Buckets
drop_full l now = select (λ e. ltb_ℤ (refilled l e.0 now).tokens (full l.per_minute)) l.buckets

pub prune : RateLimiter → ℕ → RateLimiter
prune l now =
    let kept = drop_full l now in
    record l { buckets = if ltb l.max_keys (length kept) then [] else kept }

pub settle : RateLimiter → ℕ → RateLimiter
settle l now = if ltb l.max_keys (length l.buckets) then prune l now else l

abbrev pub spend : Bucket → Bucket
spend b = record b { tokens = b.tokens +ℤ sub_ℕ 0 unit }

-- The new limiter, and whether the request is allowed.
pub take : RateLimiter → Text → ℕ → RateLimiter × Bool
take l key now =
    let b = refilled l key now in
    if l.per_minute == 0
    then (l, true)
    else if ltb_ℤ b.tokens (pos unit)
    then (record l { buckets = put key b l.buckets }, false)
    else (settle (record l { buckets = put key (spend b) l.buckets }) now, true)

-- The three ways through `take`.
pub take_cases {ℓ} :
    (P : RateLimiter × Bool → Type ℓ) (l : RateLimiter) (key : Text) (now : ℕ)
    → ((l.per_minute == 0) ≡ true → P (l, true))
    → ((l.per_minute == 0) ≡ false
        → ltb_ℤ (refilled l key now).tokens (pos unit) ≡ true
        → P (record l { buckets = put key (refilled l key now) l.buckets }, false))
    → ((l.per_minute == 0) ≡ false
        → ltb_ℤ (refilled l key now).tokens (pos unit) ≡ false
        → P (
          settle (record l { buckets = put key (spend (refilled l key now)) l.buckets }) now,
          true,
        ))
    → P (take l key now)
unfolding take
take_cases P l key now off refused allowed = elim (Bool-cases (l.per_minute == 0)) [
  | inl e ↦ rw e (off e)
  | inr e ↦ elim (Bool-cases (ltb_ℤ (refilled l key now).tokens (pos unit))) [
    | inl f ↦ rw (e, f) (refused e f)
    | inr f ↦ rw (e, f) (allowed e f)
  ]
]

pub record ExchangeRateLimiter : Type 0 where
  pub per_ip : RateLimiter
  pub total : RateLimiter

-- `check`: `false` is the error 429 rate_limited. The total is not asked once the address is refused.
pub check : ExchangeRateLimiter → Text → ℕ → ExchangeRateLimiter × Bool
check l ip now =
    let (per_ip, own) = take l.per_ip ip now in
    let (total, everybody) = take l.total (codes "*") now in
    if not own
    then (record l { per_ip = per_ip }, false)
    else (record { per_ip = per_ip; total = total }, everybody)
