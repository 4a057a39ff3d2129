-- ===== src/Collector/Spares.antt =====
-- What a run of the collector leaves alone.
use multi_tenant_cloud_obser.Base.{
  ℕ, suc, ◌≡◌, refl, sym, ap, subst, ◌∙◌, ◌+◌, ◌<◌, true, false, Option, none, some, List, [], ◌∷◌,
  All, length, Text, text_eq, text_eq_sound, text_eq_refl, arith, if◌then◌else◌, inl, inr,
  Bool-cases, All-mono, if_cases,
}
use multi_tenant_cloud_obser.Store.{System, Reply, failed, done}
use multi_tenant_cloud_obser.Keycloak.{property, with_property}
use multi_tenant_cloud_obser.Collector.{
  Orphan, Seen, GcResult, Run, is_confirmed, remembered, collect, add_pending,
}

just_seen : (now : ℕ) → is_confirmed now (some now) ≡ false
just_seen now = ground arith

property-with_property :
    (k j : Text) (now : ℕ) (seen : Seen)
    → property k (with_property j now seen) ≡ (if text_eq j k then some now else property k seen)
unfolding property with_property
property-with_property k j now [] = refl
property-with_property k j now ((i, at) ∷ seen) = elim (Bool-cases (text_eq i j)) [
  | inl e ↦ rw e (ground (arith, ap (λ t. text_eq t k) (text_eq_sound i j e)))
  | inr e ↦ rw e (ground (arith, property-with_property k j now seen, same_key))
]
  where
    same_key : text_eq i k ≡ true → text_eq j k ≡ true → text_eq i j ≡ true
    same_key a b =
        subst (λ t. text_eq i t ≡ true) (text_eq_sound i k a ∙ sym (text_eq_sound j k b))
          (text_eq_refl i)

fresh_unconfirmed :
    (now : ℕ) (o : Option ℕ)
    → ((at : ℕ) → o ≡ some at → now < at + 120000)
    → is_confirmed now o ≡ false
fresh_unconfirmed now none h = refl
fresh_unconfirmed now (some at) h = ground (arith, h at refl)

-- Remembering an orphan confirms none.
remembered_unconfirmed :
    (k j : Text) (now : ℕ) (o : Option ℕ) (seen : Seen)
    → is_confirmed now (property k seen) ≡ false
    → is_confirmed now (property k (remembered j now o seen)) ≡ false
remembered_unconfirmed k j now (some at) seen h = h
remembered_unconfirmed k j now none seen h = rw (property-with_property k j now seen) (
    if_cases (λ o. is_confirmed now o ≡ false) (text_eq j k) (some now) (property k seen)
      (λ e. just_seen now) (λ e. h))

module _ {W : Type 0} where
  spared :
      (n : ℕ) (r : Run W) (s : System W)
      → (r.0 ≡ done (record { deleted = 0; pending = n })) × (r.1.1 ≡ s)
      → ((add_pending r).0 ≡ done (record { deleted = 0; pending = suc n }))
        × ((add_pending r).1.1 ≡ s)
  spared n (failed e, rest) s (h, k) = absurd cc
  spared n (done x, rest) s (h, k) = (ap pended h, k)
    where
      pended : Reply GcResult → Reply GcResult
      pended (failed e) = failed e
      pended (done y) = done (record y { pending = suc y.pending })

  spared_unconfirmed :
      (now : ℕ) (os : List (Orphan W)) (seen : Seen) (s : System W)
      → All (λ o. is_confirmed now (property o.key seen) ≡ false) os
      → ((collect now os seen s).0 ≡ done (record { deleted = 0; pending = length os }))
        × ((collect now os seen s).1.1 ≡ s)
  unfolding collect
  spared_unconfirmed now [] seen s h = (refl, refl)
  spared_unconfirmed now (o ∷ os) seen s h =
      rw (h.0, collect)
        (spared (length os) _ s (
          spared_unconfirmed now os (remembered o.key now (property o.key seen) seen) s (
            All-mono _ _ os
              (λ p u. remembered_unconfirmed p.key o.key now (property o.key seen) seen u) h.1)))

  -- A run at a time `now`, where every orphan that was seen by an earlier run was first seen less than
  -- 120000 milliseconds before, removes nothing and calls nothing outside: it counts all of them as
  -- pending. An orphan that no run has seen is not removed either.
  pub collect-spares :
      (now : ℕ) (os : List (Orphan W)) (seen : Seen) (s : System W)
      → All (λ o. (at : ℕ) → property o.key seen ≡ some at → now < at + 120000) os
      → ((collect now os seen s).0 ≡ done (record { deleted = 0; pending = length os }))
        × ((collect now os seen s).1.1 ≡ s)
  collect-spares now os seen s h =
      spared_unconfirmed now os seen s
        (All-mono _ _ os (λ o k. fresh_unconfirmed now (property o.key seen) k) h)
