-- ===== src/Base/Tables.antt =====
-- A database table as the list of its rows, and the statements that the repositories run on one.
use Prim.Native.Nat.{ℕ, suc}
use mathlib.Core.Path.{◌≡◌, refl, sym, ap, ◌∙◌}
use mathlib.Core.Logic.{inl, inr}
use mathlib.Core.Bool.{Bool, true, false}
use native.Mathlib.Omega.{arith}
use mathlib.Core.Option.{Option, none, some}
use mathlib.Core.List.{List, [], ◌∷◌, ◌++◌, map, Memᴰ}
use multi_tenant_cloud_obser.Base.Tests.{if◌then◌else◌, if_cases, Bool-cases}
use multi_tenant_cloud_obser.Base.Lists.{All, any}

module _ {ℓ} {A : Type ℓ} where
  -- SELECT … WHERE p.
  unfoldable pub select : (A → Bool) → List A → List A
  select p [] = []
  select p (x ∷ xs) = let rest = select p xs in if p x then x ∷ rest else rest

  -- The first row that SELECT … WHERE p returns.
  unfoldable pub find : (A → Bool) → List A → Option A
  find p [] = none
  find p (x ∷ xs) = let rest = find p xs in if p x then some x else rest

  -- UPDATE … SET f WHERE p.
  unfoldable pub update : (A → Bool) → (A → A) → List A → List A
  update p f [] = []
  update p f (x ∷ xs) = (if p x then f x else x) ∷ update p f xs

  -- count(*) FILTER (WHERE p).
  unfoldable pub count : (A → Bool) → List A → ℕ
  count p [] = 0
  count p (x ∷ xs) = let rest = count p xs in if p x then suc rest else rest

  pub All-update {κ ι} :
      (P : A → Type κ) (Q : A → Type ι) (p : A → Bool) (f : A → A) (xs : List A)
      → ((a : A) → P a → Q (if p a then f a else a))
      → All P xs
      → All Q (update p f xs)
  unfolding update
  All-update P Q p f [] h a = tt
  All-update P Q p f (x ∷ xs) h a = (h x a.0, All-update P Q p f xs h a.1)

  pub All-select {κ} :
      (P : A → Type κ) (p : A → Bool) (xs : List A) → All P xs → All P (select p xs)
  unfolding select
  All-select P p [] h = tt
  All-select P p (x ∷ xs) h = elim (Bool-cases (p x)) [
    | inl e ↦ rw e (h.0, All-select P p xs h.1)
    | inr e ↦ rw e (All-select P p xs h.1)
  ]

-- An update of the rows that meet a test, after which they do not meet it.
module _ {ℓ} {A : Type ℓ} where
  pub any-update_none :
      (q p : A → Bool) (f : A → A)
      → ((a : A) → q (if p a then f a else a) ≡ false)
      → (xs : List A) → any q (update p f xs) ≡ false
  unfolding any update
  any-update_none q p f h [] = refl
  any-update_none q p f h (x ∷ xs) = ground (arith, h x, any-update_none q p f h xs)

  -- An update after which each row answers the test as before.
  pub any-update_same :
      (q p : A → Bool) (f : A → A)
      → ((a : A) → q (f a) ≡ q a)
      → (xs : List A) → any q (update p f xs) ≡ any q xs
  unfolding any update
  any-update_same q p f h [] = refl
  any-update_same q p f h (x ∷ xs) = ground (arith, h x, any-update_same q p f h xs)

  pub none-Mem : (p : A → Bool) (xs : List A) (x : A) → any p xs ≡ false → Memᴰ x xs → p x ≡ false
  unfolding any
  none-Mem p [] x h m = elim m [ ]
  none-Mem p (y ∷ ys) x h (Memᴰ.head e) = ap p e ∙ ground (arith, h)
  none-Mem p (y ∷ ys) x h (Memᴰ.tail m) = none-Mem p ys x (ground (arith, h)) m

  pub any-update_cleared :
      (p : A → Bool) (f : A → A)
      → ((a : A) → p (f a) ≡ false)
      → (xs : List A) → any p (update p f xs) ≡ false
  any-update_cleared p f h =
      any-update_none p p f (λ a. if_cases (λ b. p b ≡ false) (p a) (f a) a (λ e. h a) (λ e. e))

  pub Mem-select :
      (p : A → Bool) (xs : List A) (x : A) → Memᴰ x xs → p x ≡ true → Memᴰ x (select p xs)
  unfolding select
  Mem-select p [] x m h = elim m [ ]
  Mem-select p (y ∷ ys) x (Memᴰ.head e) h = rw (ap p (sym e) ∙ h) (Memᴰ.head e)
  Mem-select p (y ∷ ys) x (Memᴰ.tail m) h =
      if_cases (Memᴰ x) (p y) (y ∷ select p ys) (select p ys)
        (λ e. Memᴰ.tail (Mem-select p ys x m h)) (λ e. Mem-select p ys x m h)

  pub Mem-map {κ} :
      {B : Type κ} (f : A → B) (xs : List A) (x : A) → Memᴰ x xs → Memᴰ (f x) (map f xs)
  Mem-map f [] x m = elim m [ ]
  Mem-map f (y ∷ ys) x (Memᴰ.head e) = Memᴰ.head (ap f e)
  Mem-map f (y ∷ ys) x (Memᴰ.tail m) = Memᴰ.tail (Mem-map f ys x m)

  -- An insertion that goes past an element.
  pub Mem-swapped :
      (t x u : A) (us vs : List A)
      → Memᴰ x (t ∷ u ∷ us)
      → (Memᴰ x (t ∷ us) → Memᴰ x vs)
      → Memᴰ x (u ∷ vs)
  Mem-swapped t x u us vs (Memᴰ.head e) f = Memᴰ.tail (f (Memᴰ.head e))
  Mem-swapped t x u us vs (Memᴰ.tail (Memᴰ.head e)) f = Memᴰ.head e
  Mem-swapped t x u us vs (Memᴰ.tail (Memᴰ.tail n)) f = Memᴰ.tail (f (Memᴰ.tail n))

  pub Mem-append_left : (xs ys : List A) (x : A) → Memᴰ x xs → Memᴰ x (xs ++ ys)
  Mem-append_left [] ys x m = elim m [ ]
  Mem-append_left (y ∷ xs) ys x (Memᴰ.head e) = Memᴰ.head e
  Mem-append_left (y ∷ xs) ys x (Memᴰ.tail m) = Memᴰ.tail (Mem-append_left xs ys x m)

-- A view of the rows turns an update of the rows into an update of their views.
module _ {ℓ κ} {A : Type ℓ} {B : Type κ} (c : A → B) where
  pub map-update :
      (p : A → Bool) (f : A → A) (q : B → Bool) (g : B → B)
      → ((a : A) → p a ≡ q (c a))
      → ((a : A) → c (f a) ≡ g (c a))
      → (xs : List A) → map c (update p f xs) ≡ update q g (map c xs)
  unfolding update
  map-update p f q g hp hf [] = refl
  map-update p f q g hp hf (x ∷ xs) = ground (arith, map-update p f q g hp hf xs, hp x, hf x)

  -- An update that the view does not show.
  pub map-update_same :
      (p : A → Bool) (f : A → A)
      → ((a : A) → c (f a) ≡ c a)
      → (xs : List A) → map c (update p f xs) ≡ map c xs
  unfolding update
  map-update_same p f h [] = refl
  map-update_same p f h (x ∷ xs) = ground (arith, map-update_same p f h xs, h x)

  pub map-select :
      (p : A → Bool) (q : B → Bool)
      → ((a : A) → p a ≡ q (c a))
      → (xs : List A) → map c (select p xs) ≡ select q (map c xs)
  unfolding select
  map-select p q h [] = refl
  map-select p q h (x ∷ xs) = ground (arith, map-select p q h xs, h x)

  pub any-map :
      (p : A → Bool) (q : B → Bool)
      → ((a : A) → p a ≡ q (c a))
      → (xs : List A) → any p xs ≡ any q (map c xs)
  unfolding any
  any-map p q h [] = refl
  any-map p q h (x ∷ xs) = ground (arith, any-map p q h xs, h x)

  pub count-map :
      (p : A → Bool) (q : B → Bool)
      → ((a : A) → p a ≡ q (c a))
      → (xs : List A) → count p xs ≡ count q (map c xs)
  unfolding count
  count-map p q h [] = refl
  count-map p q h (x ∷ xs) = ground (arith, count-map p q h xs, h x)
