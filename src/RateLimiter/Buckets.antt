-- ===== src/RateLimiter/Buckets.antt =====
-- The map of buckets: lookups after a write and after `prune`, and its size.
use multi_tenant_cloud_obser.Base.{
  ◌≡◌, refl, subst, ◌⊎◌, inl, inr, Bool, false, none, some, [], ◌∷◌, arith, Text, text_eq,
  text_eq_refl, text_eq_sound, text_eq_sym, if◌then◌else◌, length, Bool-cases,
}
use multi_tenant_cloud_obser.Base.Tables.{select}
use multi_tenant_cloud_obser.RateLimiter.{Bucket, Buckets, get, put}

pub get-put :
    (k j : Text) (b : Bucket) (l : Buckets)
    → get j (put k b l) ≡ (if text_eq k j then some b else get j l)
unfolding get put
get-put k j b [] = refl
get-put k j b ((i, c) ∷ l) = ground (
  arith,
  get-put k j b l,
  text_eq_sound i k,
  text_eq_sound i j,
  text_eq_sound k j,
  text_eq_sym i k,
  text_eq_refl j,
  text_eq_refl k,
)

pub length-put_old :
    (k : Text) (b c : Bucket) (l : Buckets) → get k l ≡ some c → length (put k b l) ≡ length l
unfolding get put
length-put_old k b c [] h = cc
length-put_old k b c ((i, d) ∷ l) h = ground (arith, length-put_old k b c l)

-- Every key is listed once.
abbrev pub Distinct : Buckets → Type 0
Distinct [] = Unit {0}
Distinct ((k, b) ∷ l) = (get k l ≡ none) × Distinct l

pub put-Distinct : (k : Text) (b : Bucket) (l : Buckets) → Distinct l → Distinct (put k b l)
unfolding get put
put-Distinct k b [] d = (refl, tt)
put-Distinct k b ((i, c) ∷ l) d =
    ground (arith, put-Distinct k b l d.1, get-put k i b l, text_eq_sym i k)

module _ (p : Text × Bucket → Bool) where
  get-select-none : (k : Text) (l : Buckets) → get k l ≡ none → get k (select p l) ≡ none
  unfolding get select
  get-select-none k [] h = refl
  get-select-none k ((i, c) ∷ l) h = ground (arith, get-select-none k l)

  -- An entry stays and is found as before, or it goes and its bucket fails the test.
  abbrev pub Kept : Text → Buckets → Type 0
  Kept k l =
      (get k (select p l) ≡ get k l)
      ⊎ ((get k (select p l) ≡ none) × ((b : Bucket) × (get k l ≡ some b) × (p (k, b) ≡ false)))

  head-Kept : (k : Text) (c : Bucket) (l : Buckets) → get k l ≡ none → Kept k ((k, c) ∷ l)
  unfolding get select
  head-Kept k c l h = elim (Bool-cases (p (k, c))) [
    | inl e ↦ inl (rw (e, text_eq_refl k) refl)
    | inr e ↦ inr (rw e (get-select-none k l h), (c, rw (text_eq_refl k), e))
  ]

  get-select_tail :
      (k i : Text) (c : Bucket) (l : Buckets)
      → text_eq i k ≡ false
      → get k (select p ((i, c) ∷ l)) ≡ get k (select p l)
  unfolding get select
  get-select_tail k i c l e = elim (Bool-cases (p (i, c))) [
    | inl kept ↦ rw kept (rw e)
    | inr gone ↦ rw gone
  ]

  get-tail :
      (k i : Text) (c : Bucket) (l : Buckets) → text_eq i k ≡ false → get k ((i, c) ∷ l) ≡ get k l
  unfolding get
  get-tail k i c l e = rw e

  tail-Kept :
      (k i : Text) (c : Bucket) (l : Buckets) → text_eq i k ≡ false → Kept k l → Kept k ((i, c) ∷ l)
  tail-Kept k i c l e h = rw (get-select_tail k i c l e, get-tail k i c l e) h

  pub get-select : (k : Text) (l : Buckets) → Distinct l → Kept k l
  unfolding get select
  get-select k [] d = inl refl
  get-select k ((i, c) ∷ l) d = elim (Bool-cases (text_eq i k)) [
    | inl e ↦
        let same = text_eq_sound i k e in
        rw same (head-Kept k c l (subst (λ j. get j l ≡ none) same d.0))
    | inr e ↦ tail-Kept k i c l e (get-select k l d.1)
  ]

  pub select-Distinct : (l : Buckets) → Distinct l → Distinct (select p l)
  unfolding select
  select-Distinct [] d = tt
  select-Distinct ((i, c) ∷ l) d = ground (arith, select-Distinct l d.1, get-select-none i l d.0)
