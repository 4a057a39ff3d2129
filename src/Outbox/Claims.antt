-- ===== src/Outbox/Claims.antt =====
-- What a claim takes, and that no two workers hold one event.
use multi_tenant_cloud_obser.Base.{
  ℕ, suc, ◌+◌, ◌-◌, ◌≤◌, ◌<◌, ◌≡◌, ◌≢◌, refl, Bool, true, false, not, ◌&&◌, List, [], ◌∷◌, arith,
  ltb, any, length, Bool-cases, inl, inr, Memᴰ, All, All-mono,
}
use multi_tenant_cloud_obser.Outbox.{
  Row, Outbox, Event, is_due, is_free, lease, seconds, lease_seconds, claim_rows, claim, to_event,
}
use multi_tenant_cloud_obser.Outbox.Core.{cores, cores-claim_rows}
use multi_tenant_cloud_obser.Outbox.Invariant.{Ids}
use multi_tenant_cloud_obser.Outbox.History.{Ids-above, claim_rows-Origin}

abbrev is_claimable : (ℕ → Bool) → ℕ → Row → Bool
is_claimable held now r = is_due now r && not (held r.id)

claim_rows-limit :
    (held : ℕ → Bool) (now limit : ℕ) (rows : List Row)
    → length (claim_rows held now limit rows).1 ≤ limit
unfolding claim_rows
claim_rows-limit held now limit [] = omega arith
claim_rows-limit held now limit (r ∷ rows) =
    ground (arith, claim_rows-limit held now (limit - 1) rows, claim_rows-limit held now limit rows)

pub lease_not_due :
    (now now' : ℕ) (r : Row)
    → now' ≤ now + seconds lease_seconds
    → is_due now' (lease now r) ≡ false
unfolding is_due
lease_not_due now now' r h = ground arith

lease_not_free :
    (now now' : ℕ) (r : Row)
    → now' ≤ now + seconds lease_seconds
    → is_free now' (lease now r) ≡ false
lease_not_free now now' r h = ground arith

claim_rows_complete :
    (held : ℕ → Bool) (now limit : ℕ) (rows : List Row)
    → length (claim_rows held now limit rows).1 < limit
    → any (is_claimable held now) (claim_rows held now limit rows).0 ≡ false
unfolding claim_rows any
claim_rows_complete held now limit [] h = refl
claim_rows_complete held now limit (r ∷ rows) h = ground (
  arith,
  lease_not_due now now r (omega arith),
  claim_rows_complete held now (limit - 1) rows,
  claim_rows_complete held now limit rows,
)

-- A claim takes at most `limit` events, and leaves none that is due and free unless it took `limit`.
pub claim_complete :
    (held : ℕ → Bool) (now limit : ℕ) (o : Outbox)
    → let (o', events) = claim held now limit o in
      (length events ≤ limit)
      × (length events < limit → any (λ r. is_due now r && not (held r.id)) o'.rows ≡ false)
unfolding claim
claim_complete held now limit o =
    (claim_rows-limit held now limit o.rows, claim_rows_complete held now limit o.rows)

pub claim_rows-due :
    (held : ℕ → Bool) (now limit : ℕ) (rows : List Row)
    → All
        (λ e. (r : Row) × Memᴰ r rows × (r.id ≡ e.id) × (is_due now r ≡ true))
        (claim_rows held now limit rows).1
unfolding claim_rows
claim_rows-due held now limit [] = tt
claim_rows-due held now limit (r ∷ rows) =
    elim (Bool-cases (is_due now r && (not (held r.id) && ltb 0 limit))) [
      | inl hit ↦ rw hit (
        (r, Memᴰ.head refl, refl, ground arith),
        All-mono _ _ _ later (claim_rows-due held now (limit - 1) rows),
      )
      | inr miss ↦ rw miss (All-mono _ _ _ later (claim_rows-due held now limit rows))
    ]
  where
    later :
        (e : Event)
        → ((d : Row) × Memᴰ d rows × (d.id ≡ e.id) × (is_due now d ≡ true))
        → ((d : Row) × Memᴰ d (r ∷ rows) × (d.id ≡ e.id) × (is_due now d ≡ true))
    later e (d, m, id, due) = (d, Memᴰ.tail m, id, due)

others :
    (x lo hi : ℕ) (rows : List Row) → x < lo → Ids lo (cores rows) hi → All (λ r. r.id ≢ x) rows
others x lo hi [] h i = tt
others x lo hi (r ∷ rows) h i = (omega arith, others x (suc r.id) hi rows (omega arith) i.1)

-- The rows of an event are leased: none is free before the lease runs out.
abbrev pub Leased : ℕ → List Row → Event → Type 0
Leased now rows e = All (λ r. r.id ≡ e.id → is_free now r ≡ false) rows

cons-Leased :
    (now : ℕ) (d : Row) (rows : List Row) (events : List Event)
    → All (λ e. d.id < e.id) events
    → All (Leased now rows) events
    → All (Leased now (d ∷ rows)) events
cons-Leased now d rows [] a l = tt
cons-Leased now d rows (e ∷ events) a l =
    (((λ same. absurd (omega (arith, a.0))), l.0), cons-Leased now d rows events a.1 l.1)

events-above :
    (held : ℕ → Bool) (now limit lo hi : ℕ) (rows : List Row)
    → Ids lo (cores rows) hi
    → All (λ e. lo ≤ e.id) (claim_rows held now limit rows).1
events-above held now limit lo hi rows i =
    All-mono _ _ _ (λ e o. omega (arith, Ids-above lo hi (cores rows) o.0 i o.1, o.2))
      (claim_rows-Origin held now limit rows)

module _ (held : ℕ → Bool) (now now' : ℕ) (h : now' ≤ now + seconds lease_seconds) where
  claimed-Leased :
      (n hi : ℕ) (r : Row) (rows : List Row)
      → Ids (suc r.id) (cores rows) hi
      → Leased now' (lease now r ∷ (claim_rows held now n rows).0) (to_event r)
  claimed-Leased n hi r rows i = (
    λ _. lease_not_free now now' r h,
    All-mono _ _ _ (λ d ne same. absurd (ne same))
        (others r.id (suc r.id) hi (claim_rows held now n rows).0 (omega arith)
          (rw (cores-claim_rows held now n rows) i)),
  )

  pub claim_rows-Leased :
      (limit lo hi : ℕ) (rows : List Row)
      → Ids lo (cores rows) hi
      → All (Leased now' (claim_rows held now limit rows).0) (claim_rows held now limit rows).1
  unfolding claim_rows
  claim_rows-Leased limit lo hi [] i = tt
  claim_rows-Leased limit lo hi (r ∷ rows) i =
      elim (Bool-cases (is_due now r && (not (held r.id) && ltb 0 limit))) [
        | inl hit ↦ rw hit (
          claimed-Leased (limit - 1) hi r rows i.1,
          cons-Leased now' (lease now r) _ _
              (events-above held now (limit - 1) (suc r.id) hi rows i.1)
              (claim_rows-Leased (limit - 1) (suc r.id) hi rows i.1),
        )
        | inr miss ↦ rw miss (
            cons-Leased now' r _ _ (events-above held now limit (suc r.id) hi rows i.1)
              (claim_rows-Leased limit (suc r.id) hi rows i.1))
      ]
