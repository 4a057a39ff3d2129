-- ===== src/Outbox/Exclusive.antt =====
-- The lease of an event: while it runs, nobody else gets the event, unless a report on the event itself
-- ends it.
use multi_tenant_cloud_obser.Base.{
  ℕ, ◌+◌, ◌-◌, ◌≤◌, ◌<◌, ◌≡◌, ◌≢◌, refl, subst, sym, ◌∙◌, Bool, true, false, not, ◌&&◌, List, [],
  ◌∷◌, arith, ltb, ◌==◌, ==_iff, any, if_cases, Bool-cases, inl, inr, Memᴰ, All, All-mem, Text,
}
use multi_tenant_cloud_obser.Base.Tables.{update, All-update, All-select}
use multi_tenant_cloud_obser.Outbox.{
  Key, Row, Outbox, Event, seconds, lease_seconds, is_due, is_free, conflicts, bump, append,
  new_row, enqueue_one, claim_rows, claim, is_claimed, finish, is_open, run_again, mark_done,
  postpone, mark_failed, is_stale, purge_processed,
}
use multi_tenant_cloud_obser.Outbox.History.{Ids-below, claim_rows-Origin}
use multi_tenant_cloud_obser.Outbox.Steps.{System, Reach, start}
use multi_tenant_cloud_obser.Outbox.NoLoss.{Reach-Inv}
use multi_tenant_cloud_obser.Outbox.Claims.{claim_rows-Leased, claim_rows-due}

-- What may happen to the table between two claims: business transactions, the claims of any workers up
-- to the time `until`, the reports of any workers on other events than the one with the id `id`, and
-- purges.
pub data Meanwhile (id until : ℕ) (o : Outbox) : Outbox → Type 0 where
  at_once : Meanwhile id until o o
  then_enqueued :
      {o' : Outbox} (now : ℕ) (k : Key)
      → Meanwhile id until o o'
      → Meanwhile id until o (enqueue_one now k o')
  then_claimed :
      {o' : Outbox} (held : ℕ → Bool) (now limit : ℕ)
      → now ≤ until
      → Meanwhile id until o o'
      → Meanwhile id until o (claim held now limit o').0
  then_finished :
      {o' : Outbox} (now : ℕ) (e : Event)
      → e.id ≢ id
      → Meanwhile id until o o'
      → Meanwhile id until o (mark_done now e o').0
  then_put_off :
      {o' : Outbox} (now : ℕ) (e : Event) (error : Text)
      → e.id ≢ id
      → Meanwhile id until o o'
      → Meanwhile id until o (mark_failed now e error o')
  then_purged :
      {o' : Outbox} (now : ℕ)
      → Meanwhile id until o o'
      → Meanwhile id until o (purge_processed now o')

free_later : (now until : ℕ) (r : Row) → now ≤ until → is_due now r ≡ true → is_free until r ≡ true
unfolding is_due
free_later now until r before due = ground arith

module _ (e : Event) (until : ℕ) where
  abbrev IsLeased : Row → Type 0
  IsLeased r = r.id ≡ e.id → is_free until r ≡ false

  -- Its rows are leased, and no new row gets its id.
  record Holds (o : Outbox) : Type 0 where
    leased : All IsLeased o.rows
    known : e.id < o.next_id

  append-IsLeased :
      (rows : List Row) (r : Row) → All IsLeased rows → r.id ≢ e.id → All IsLeased (append rows r)
  unfolding append
  append-IsLeased [] r h n = (λ same. absurd (n same), tt)
  append-IsLeased (x ∷ rows) r h n = (h.0, append-IsLeased rows r h.1 n)

  bump-IsLeased :
      (k : Key) (now : ℕ) (rows : List Row)
      → All IsLeased rows
      → All IsLeased (update (conflicts k) (bump now) rows)
  bump-IsLeased k now rows h =
      All-update IsLeased IsLeased (conflicts k) (bump now) rows
        (λ r l. if_cases IsLeased (conflicts k r) (bump now r) r (λ _. l) (λ _. l)) h

  -- An update of the rows of another event.
  other-IsLeased :
      (other : ℕ) (p : Row → Bool) (f : Row → Row) (rows : List Row)
      → other ≢ e.id
      → ((r : Row) → p r ≡ true → r.id ≡ other)
      → ((r : Row) → (f r).id ≡ r.id)
      → All IsLeased rows
      → All IsLeased (update p f rows)
  other-IsLeased other p f rows n hit same h =
      All-update IsLeased IsLeased p f rows
        (λ r l.
          if_cases IsLeased (p r) (f r) r
            (λ changed is_e. absurd (n (sym (hit r changed) ∙ sym (same r) ∙ is_e))) (λ _. l))
        h

  claim-IsLeased :
      (held : ℕ → Bool) (now limit : ℕ) (rows : List Row)
      → now ≤ until
      → All IsLeased rows
      → All IsLeased (claim_rows held now limit rows).0
  unfolding claim_rows
  claim-IsLeased held now limit [] before h = tt
  claim-IsLeased held now limit (r ∷ rows) before h =
      elim (Bool-cases (is_due now r && (not (held r.id) && ltb 0 limit))) [
        | inl hit ↦ rw hit (
          λ same. absurd (taken same (h.0 same) hit),
          claim-IsLeased held now (limit - 1) rows before h.1,
        )
        | inr miss ↦ rw miss (h.0, claim-IsLeased held now limit rows before h.1)
      ]
    where
      taken :
          r.id ≡ e.id
          → is_free until r ≡ false
          → is_due now r && (not (held r.id) && ltb 0 limit) ≡ true
          → ⊥
      taken same locked hit = ground (arith, free_later now until r before (ground (arith, hit)))

  enqueue_one-Holds : (now : ℕ) (k : Key) (o : Outbox) → Holds o → Holds (enqueue_one now k o)
  unfolding enqueue_one
  enqueue_one-Holds now k o h = record {
    leased =
        if_cases (All IsLeased) (any (conflicts k) o.rows) (update (conflicts k) (bump now) o.rows)
          (append o.rows (new_row now o.next_id k)) (λ _. bump-IsLeased k now o.rows h.leased)
          (λ _.
            append-IsLeased o.rows (new_row now o.next_id k) h.leased
              (λ same. absurd (omega (arith, same, h.known))));
    known = omega (arith, h.known);
  }

  claim-Holds :
      (held : ℕ → Bool) (now limit : ℕ) (o : Outbox)
      → now ≤ until
      → Holds o
      → Holds (claim held now limit o).0
  unfolding claim
  claim-Holds held now limit o before h = record {
    leased = claim-IsLeased held now limit o.rows before h.leased;
    known = h.known;
  }

  mark_done-Holds :
      (now : ℕ) (d : Event) (o : Outbox) → d.id ≢ e.id → Holds o → Holds (mark_done now d o).0
  unfolding mark_done
  mark_done-Holds now d o other h =
      if_cases (λ (r : Outbox × Bool). Holds r.0) (any (is_claimed d) o.rows)
        (record o { rows = update (is_claimed d) (finish now) o.rows }, true)
        (record o { rows = update (is_open d) (run_again now) o.rows }, false)
        (λ _. record {
          leased =
              other-IsLeased d.id (is_claimed d) (finish now) o.rows other
                (λ r hit. ground (arith, hit)) (λ r. refl) h.leased;
          known = h.known;
        })
        (λ _. record {
          leased =
              other-IsLeased d.id (is_open d) (run_again now) o.rows other
                (λ r hit. ground (arith, hit)) (λ r. refl) h.leased;
          known = h.known;
        })

  mark_failed-Holds :
      (now : ℕ) (d : Event) (error : Text) (o : Outbox)
      → d.id ≢ e.id
      → Holds o
      → Holds (mark_failed now d error o)
  unfolding mark_failed
  mark_failed-Holds now d error o other h = record {
    leased =
        other-IsLeased d.id (λ r. r.id == d.id) (postpone now d.attempts error) o.rows other
          (λ r hit. (==_iff r.id d.id).0 hit) (λ r. refl) h.leased;
    known = h.known;
  }

  purge-Holds : (now : ℕ) (o : Outbox) → Holds o → Holds (purge_processed now o)
  unfolding purge_processed
  purge-Holds now o h = record {
    leased = All-select IsLeased (λ r. not (is_stale now r)) o.rows h.leased;
    known = h.known;
  }

  Meanwhile-Holds : {o o' : Outbox} → Meanwhile e.id until o o' → Holds o → Holds o'
  Meanwhile-Holds at_once h = h
  Meanwhile-Holds (then_enqueued now k m) h = enqueue_one-Holds now k _ (Meanwhile-Holds m h)
  Meanwhile-Holds (then_claimed held now limit before m) h =
      claim-Holds held now limit _ before (Meanwhile-Holds m h)
  Meanwhile-Holds (then_finished now d other m) h =
      mark_done-Holds now d _ other (Meanwhile-Holds m h)
  Meanwhile-Holds (then_put_off now d error other m) h =
      mark_failed-Holds now d error _ other (Meanwhile-Holds m h)
  Meanwhile-Holds (then_purged now m) h = purge-Holds now _ (Meanwhile-Holds m h)

claimed-Holds :
    {s : System} (held : ℕ → Bool) (now limit : ℕ) (e : Event)
    → Reach start s
    → Memᴰ e (claim held now limit s.outbox).1
    → Holds e (now + seconds lease_seconds) (claim held now limit s.outbox).0
unfolding claim
claimed-Holds {s} held now limit e reached m =
    let ids = (Reach-Inv reached).ids in
    let (c, found, id, key, seq) =
      All-mem _ _ e (claim_rows-Origin held now limit s.outbox.rows) m in
    record {
      leased =
          All-mem _ _ e
            (claim_rows-Leased held now (now + seconds lease_seconds) (omega arith) limit 0
              s.outbox.next_id s.outbox.rows ids)
            m;
      known = subst (λ n. n < s.outbox.next_id) id (Ids-below 0 s.outbox.next_id _ c ids found);
    }

-- An event that a worker claims is not claimed again while its lease of 120 seconds runs, whatever is
-- enqueued, claimed or purged in between, whatever is reported on other events, and whatever rows other
-- transactions hold. A report on the event itself ends the lease, also that of a worker whose own lease
-- on it has run out; such reports are not in between.
pub lease_excludes :
    {s : System} {o : Outbox} (held held' : ℕ → Bool) (now now' limit limit' : ℕ) (e e' : Event)
    → Reach start s
    → Memᴰ e (claim held now limit s.outbox).1
    → Meanwhile e.id (now + 120000) (claim held now limit s.outbox).0 o
    → now' ≤ now + 120000
    → Memᴰ e' (claim held' now' limit' o).1
    → e.id ≢ e'.id
unfolding claim
lease_excludes {s} {o} held held' now now' limit limit' e e' reached m between h m' same =
    let holds =
      Meanwhile-Holds e (now + 120000) between (claimed-Holds held now limit e reached m) in
    let (r, found, id, due) = All-mem _ _ e' (claim_rows-due held' now' limit' o.rows) m' in
    cc (
      All-mem _ o.rows r holds.leased found (id ∙ sym same),
      free_later now' (now + 120000) r h due,
    )
