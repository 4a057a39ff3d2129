-- ===== src/Outbox/Worker/Drain.antt =====
-- A drain ends, with nothing left that is due.
use mathlib.Core.Option
use multi_tenant_cloud_obser.Base.{
  ℕ, zero, suc, ◌+◌, ◌≤◌, ◌<◌, ◌≡◌, refl, sym, ap, ◌∙◌, Bool, true, false, not, ◌&&◌, Option, some,
  List, [], ◌∷◌, arith, any, length, if_cases, inl, inr, ◌⊎◌, All, All-mono,
}
use multi_tenant_cloud_obser.Base.Tables.{count, any-map, none-Mem}
use multi_tenant_cloud_obser.Outbox.Core.{Core, core, cores, cores-claim_rows}
use multi_tenant_cloud_obser.Outbox.History.{claim_rows-Origin}
use multi_tenant_cloud_obser.Outbox.{
  Key, Row, Event, is_due, is_claimed, claim, claim_rows, target_eq, aggregate_eq, grafana, tenant,
}
use multi_tenant_cloud_obser.Outbox.Worker.Rows.{
  due_count, claim_rows-due_count, claim_rows-claimed,
}
use multi_tenant_cloud_obser.Outbox.Worker.Calm.{IsCalm, is_quiet, is_loud, process_all-Progress}
use multi_tenant_cloud_obser.Outbox.Claims.{claim_complete}
use multi_tenant_cloud_obser.Outbox.Worker.{
  Worker, Surroundings, batch_size, is_empty, now, process_all, claim_batch, drain_loop, drain,
  rest,
}

abbrev is_loud_core : Core → Bool
is_loud_core c = not (is_quiet c.key)

negated : (b : Bool) → not b ≡ false → b ≡ true
negated true e = refl
negated false e = cc

module _ {E : Type 0} (around : Surroundings E) (t : ℕ) (calm : IsCalm around t) where
  claim_batch-due :
      (w : Worker E)
      → due_count t (claim_batch around w).0.outbox.rows + length (claim_batch around w).1
        ≤ due_count t w.outbox.rows
  unfolding claim_batch claim
  claim_batch-due w =
      claim_rows-due_count (around.held w.env) (now around w) t batch_size w.outbox.rows
        (calm.before w.env) (omega (arith, calm.brief w.env))

  claim_batch-claimed :
      (w : Worker E)
      → All
          (λ e. any (is_claimed e) (claim_batch around w).0.outbox.rows ≡ true)
          (claim_batch around w).1
  unfolding claim_batch claim
  claim_batch-claimed w =
      claim_rows-claimed (around.held w.env) (now around w) batch_size w.outbox.rows

  -- A claim changes no key, and hands out those of the table.
  claim_batch-quiet :
      (w : Worker E)
      → any is_loud w.outbox.rows ≡ false
      → (any is_loud (claim_batch around w).0.outbox.rows ≡ false)
        × All (λ e. is_quiet e.key ≡ true) (claim_batch around w).1
  unfolding claim_batch claim
  claim_batch-quiet w h =
      let rows = w.outbox.rows in
      let loud = any-map core is_loud is_loud_core (λ r. refl) in
      let none_loud = sym (loud rows) ∙ h in
      (
        loud (claim_rows (around.held w.env) (now around w) batch_size rows).0
            ∙ (ap (any is_loud_core)
                  (cores-claim_rows (around.held w.env) (now around w) batch_size rows)
                ∙ none_loud),
        All-mono _ _ _
            (λ e o.
              quiet_of e.key o.0.key (o.3) (none-Mem is_loud_core (cores rows) o.0 none_loud o.1))
            (claim_rows-Origin (around.held w.env) (now around w) batch_size rows),
      )
    where
      quiet_of : (k j : Key) → j ≡ k → not (is_quiet j) ≡ false → is_quiet k ≡ true
      quiet_of k j same quiet = ap is_quiet (sym same) ∙ negated (is_quiet j) quiet

  -- Nothing that this worker could claim is due.
  abbrev pub IsDrained : Worker E → Type 0
  IsDrained w =
      any (λ r. is_due (now around w) r && not (around.held w.env r.id)) w.outbox.rows ≡ false

  claim_batch-IsDrained :
      (w : Worker E) → is_empty (claim_batch around w).1 ≡ true → IsDrained (claim_batch around w).0
  unfolding claim_batch
  claim_batch-IsDrained w h =
      (claim_complete (around.held w.env) (now around w) batch_size w.outbox).1
        (few (claim (around.held w.env) (now around w) batch_size w.outbox).1 h)
    where
      few : (events : List Event) → is_empty events ≡ true → length events < batch_size
      few [] e = omega arith
      few (x ∷ events) e = cc

  claim_batch-flags :
      (w : Worker E)
      → ((claim_batch around w).0.rerun ≡ w.rerun) × ((claim_batch around w).0.stopped ≡ w.stopped)
  unfolding claim_batch
  claim_batch-flags w = (refl, refl)

  nonempty : (events : List Event) → is_empty events ≡ false → 1 ≤ length events
  nonempty [] h = cc
  nonempty (e ∷ events) h = omega arith

  abbrev pub Ends : Option (Worker E) → Type 0
  Ends r = (w : Worker E) × (r ≡ some w) × ((w.stopped ≡ true) ⊎ IsDrained w)

  drain_loop-Ends :
      (fuel : ℕ) (w : Worker E)
      → due_count t w.outbox.rows < fuel
      → w.rerun ≡ false
      → any is_loud w.outbox.rows ≡ false
      → Ends (drain_loop around fuel w)
  unfolding drain_loop
  drain_loop-Ends zero w h r q = absurd (omega arith)
  drain_loop-Ends (suc fuel) w h r q =
      let w' = (claim_batch around w).0 in
      let batch = (claim_batch around w).1 in
      let quiet = claim_batch-quiet w q in
      let p = process_all-Progress around t calm batch w' quiet.1 (claim_batch-claimed w) in
      if_cases Ends w.stopped _ _ (λ stop. (w, refl, inl stop))
        λ run.
          if_cases Ends (is_empty batch) _ _
            (λ none_left.
              if_cases Ends w'.rerun _ _ (λ again. cc (again, (claim_batch-flags w).0, r))
                (λ _. (w', refl, inr (claim_batch-IsDrained w none_left))))
            (λ some_left.
              drain_loop-Ends fuel (process_all around batch w')
                (omega (arith, p.due, claim_batch-due w, nonempty batch some_left))
                (p.rerun ∙ (claim_batch-flags w).0 ∙ r) (p.keys ∙ quiet.0))

loud_none :
    (rows : List Row)
    → any (λ r. target_eq r.key.target grafana && aggregate_eq r.key.aggregate_type tenant) rows
      ≡ false
    → any is_loud rows ≡ false
unfolding any
loud_none [] h = refl
loud_none (r ∷ rows) h = ground (arith, loud_none rows)

-- A drain of a table without events of tenants for Grafana, with more rounds than rows are due, ends,
-- either stopped or with nothing left that is due and that no other transaction holds: if the handlers of
-- the other events leave the table and the flags alone, and the drain takes less than five seconds, the
-- shortest delay of a retry. Handlers may fail.
pub drain-ends :
    {E : Type 0} (around : Surroundings E) (t fuel : ℕ) (w : Worker E)
    → IsCalm around t
    → count (is_due t) w.outbox.rows < fuel
    → any
        (λ r. target_eq r.key.target grafana && aggregate_eq r.key.aggregate_type tenant)
        w.outbox.rows
      ≡ false
    → (w' : Worker E) × (drain around fuel w ≡ some w')
      × (w'.draining ≡ false)
      × ((w'.stopped ≡ true)
          ⊎ (any
                (λ r. is_due (around.clock w'.env) r && not (around.held w'.env r.id))
                w'.outbox.rows
              ≡ false))
unfolding drain
drain-ends around t fuel w calm h no_tenants =
    let (w', e, over) =
      drain_loop-Ends around t calm fuel (record w { draining = true; rerun = false }) h refl
        (loud_none w.outbox.rows no_tenants) in
    (rest w', ap (Option.map rest) e, refl, over)
