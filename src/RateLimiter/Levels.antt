-- ===== src/RateLimiter/Levels.antt =====
-- The level of a key's bucket: the units that the limiter would find in it at a given time.
use multi_tenant_cloud_obser.Base.{
  ℕ, ◌+◌, ◌-◌, ◌*◌, ◌≤◌, ◌≡◌, refl, inl, inr, Bool, true, false, ◌&&◌, Option, none, some, [], ◌∷◌,
  arith, Text, text_eq, min, if◌then◌else◌, Bool-cases,
}
use multi_tenant_cloud_obser.Base.Int.{pos, pos_part, ltb_ℤ, ◌+ℤ◌, min_ℤ}
use multi_tenant_cloud_obser.RateLimiter.{
  RateLimiter, Bucket, Buckets, unit, get, put, full, refill, refilled, drop_full,
}
use multi_tenant_cloud_obser.RateLimiter.Buckets.{
  get-put, Distinct, put-Distinct, get-select, select-Distinct, Kept,
}

abbrev pub is_empty : Buckets → Bool
is_empty [] = true
is_empty (e ∷ l) = false

pub mul_mono : (a b p : ℕ) → a ≤ b → a * p ≤ b * p
mul_mono a b p h = grind arith

module _ (p : ℕ) where
  -- A bucket as the limiter keeps it at time `now`, where the clock does not step back.
  abbrev pub IsFair : ℕ → Option Bucket → Type 0
  IsFair now none = Unit {0}
  IsFair now (some b) = (t : ℕ) × (b.tokens ≡ pos t) × (t ≤ p * unit) × (b.at ≤ now)

  -- What `refill` comes to then, in natural numbers.
  abbrev pub level : ℕ → Option Bucket → ℕ
  level now none = p * unit
  level now (some b) = min (p * unit) (pos_part b.tokens + (now * p - b.at * p))

  pub refill-level :
      (now : ℕ) (o : Option Bucket)
      → IsFair now o
      → refill p now o ≡ record { tokens = pos (level now o); at = now }
  unfolding refill min_ℤ ◌+ℤ◌
  refill-level now none f = refl
  refill-level now (some b) (t, e, le, before) = rw e (ground (arith, mul_mono b.at now p before))

  pub level-later :
      (t now : ℕ) (o : Option Bucket)
      → t ≤ now
      → IsFair t o
      → level now o ≤ level t o + (now * p - t * p)
  level-later t now none h f = omega arith
  level-later t now (some b) h (n, e, le, before) =
      omega (arith, mul_mono b.at t p before, mul_mono t now p h)

  pub level-le-full : (now : ℕ) (o : Option Bucket) → level now o ≤ p * unit
  level-le-full now none = omega arith
  level-le-full now (some b) = omega arith

  pub level-ge :
      (t d : ℕ) (o : Option Bucket) → 1 ≤ p → unit ≤ d * p → IsFair t o → unit ≤ level (t + d) o
  level-ge t d none on h f = grind arith
  level-ge t d (some b) on h (n, e, le, before) =
      let enough : unit ≤ p * unit = omega (arith, mul_mono 1 p unit on) in
      omega (arith, mul_mono b.at t p before)

  pub IsFair-later : (t now : ℕ) (o : Option Bucket) → t ≤ now → IsFair t o → IsFair now o
  IsFair-later t now none h f = tt
  IsFair-later t now (some b) h (n, e, le, before) = (n, e, le, omega arith)

  pub record IsSound (now : ℕ) (l : RateLimiter) : Type 0 where
    pub rate : l.per_minute ≡ p
    pub distinct : Distinct l.buckets
    pub fair : (k : Text) → IsFair now (get k l.buckets)

  -- The change that a call makes to the level of key `k`, with `wiped` for a cleared map.
  abbrev pub Costs : ℕ → RateLimiter → Text → Text → RateLimiter × Bool → Type 0
  Costs now l key k (l', ok) =
      (if ok && text_eq key k then unit else 0) + level now (get k l'.buckets)
      ≤ level now (get k l.buckets) + (if is_empty l'.buckets then p * unit else 0)

  module _ (now : ℕ) (l : RateLimiter) (s : IsSound now l) where
    pub refilled-level :
        (k : Text)
        → refilled l k now ≡ record { tokens = pos (level now (get k l.buckets)); at = now }
    unfolding refilled
    refilled-level k = rw s.rate (refill-level now (get k l.buckets) (s.fair k))

    pub put-IsSound :
        (key : Text) (b : Bucket)
        → IsFair now (some b)
        → IsSound now (record l { buckets = put key b l.buckets })
    put-IsSound key b f = record {
      rate = s.rate;
      distinct = put-Distinct key b l.buckets s.distinct;
      fair = λ k.
          rw (get-put key k b l.buckets)
            (elim (Bool-cases (text_eq key k)) [ inl e ↦ rw e f | inr e ↦ rw e (s.fair k) ]);
    }

    pub drop_full-level :
        (k : Text)
        → Kept (λ e. ltb_ℤ (refilled l e.0 now).tokens (full l.per_minute)) k l.buckets
        → IsFair now (get k (drop_full l now))
          × (level now (get k (drop_full l now)) ≤ level now (get k l.buckets))
    unfolding drop_full
    drop_full-level k (inl same) = rw same (s.fair k, omega arith)
    drop_full-level k (inr (gone, (b, found, full_now))) =
        rw gone (tt, ground (arith, refilled-level k, s.rate))

    pub drop_full-IsSound : IsSound now (record l { buckets = drop_full l now })
    unfolding drop_full
    drop_full-IsSound = record {
      rate = s.rate;
      distinct = select-Distinct _ l.buckets s.distinct;
      fair = λ k. (drop_full-level k (get-select _ k l.buckets s.distinct)).0;
    }
