-- ===== src/Outbox/Worker/Calm.antt =====
-- What the processing of a batch leaves of the rows that are due, where no handler that is called touches
-- the outbox. Of the handlers that mirrors.module.ts registers, that of tenants in Grafana enqueues events
-- of users (mirrors/grafana/grafana-tenant.mirror.ts), and the others enqueue nothing.

use multi_tenant_cloud_obser.Base.{
  ℕ, ◌+◌, ◌≤◌, ◌<◌, ◌≡◌, refl, ap, ◌∙◌, true, false, Option, none, some, List, [], ◌∷◌, arith, ◌==◌,
  any, Bool, not, ◌&&◌, Bool-cases, inl, inr, All, All-mono, Text,
}
use multi_tenant_cloud_obser.Base.Tables.{update, any-update_same}
use multi_tenant_cloud_obser.Outbox.{
  Key, Row, Outbox, Event, is_due, is_claimed, seconds, mark_done, mark_failed, finish, postpone,
  target_eq, aggregate_eq, grafana, tenant,
}
use multi_tenant_cloud_obser.Outbox.Worker.Rows.{due_count, due_count-update, any-update_claimed}
use multi_tenant_cloud_obser.Outbox.Delay.{retry_delay_bounds}
use multi_tenant_cloud_obser.Outbox.Worker.{Worker, Surroundings, now, settle, process, process_all}

-- The key is not one of a tenant in Grafana.
abbrev pub is_quiet : Key → Bool
is_quiet k = not (target_eq k.target grafana && aggregate_eq k.aggregate_type tenant)

abbrev pub is_loud : Row → Bool
is_loud r = not (is_quiet r.key)

module _ {E : Type 0} (around : Surroundings E) (t : ℕ) where
  -- The handlers, but that of tenants in Grafana, leave the table and the flags alone, and the drain takes less than five seconds, so
  -- that nothing that failed is due again before time `t`, at which it is over.
  pub record IsCalm : Type 0 where
    pub before : (e : E) → around.clock e ≤ t
    pub brief : (e : E) → t < around.clock e + seconds 5
    pub same_outbox :
        (k : Key) (w : Worker E) → is_quiet k ≡ true → (around.sync k w).0.outbox ≡ w.outbox
    pub same_rerun :
        (k : Key) (w : Worker E) → is_quiet k ≡ true → (around.sync k w).0.rerun ≡ w.rerun
    pub same_stopped :
        (k : Key) (w : Worker E) → is_quiet k ≡ true → (around.sync k w).0.stopped ≡ w.stopped

  abbrev pub rows_of : Worker E → List Row
  rows_of w = w.outbox.rows

  -- What an event leaves of a worker: no more rows are due, and the others keep their claims.
  pub record Progress (w w' : Worker E) : Type 0 where
    pub due : due_count t (rows_of w') ≤ due_count t (rows_of w)
    pub claims : (e : Event) → any (is_claimed e) (rows_of w') ≡ any (is_claimed e) (rows_of w)
    pub rerun : w'.rerun ≡ w.rerun
    pub keys : any is_loud (rows_of w') ≡ any is_loud (rows_of w)

  module _ (calm : IsCalm) where
    postponed_not_due :
        (env : E) (attempts : ℕ) (error : Text) (r : Row)
        → is_due t (postpone (around.clock env) attempts error r) ≡ false
    unfolding is_due
    postponed_not_due env attempts error r =
        ground (arith, calm.brief env, (retry_delay_bounds attempts).0)

    finished_not_due : (n : ℕ) (r : Row) → is_due t (finish n r) ≡ false
    unfolding is_due
    finished_not_due n r = refl

    done-Progress :
        (w : Worker E) (e : Event)
        → any (is_claimed e) (rows_of w) ≡ true
        → (mark_done (now around w) e w.outbox ≡ (
          record w.outbox { rows = update (is_claimed e) (finish (now around w)) (rows_of w) },
          true,
        ))
          × Progress w (record w { outbox = (mark_done (now around w) e w.outbox).0 })
    unfolding mark_done
    done-Progress w e hit = rw hit (
      refl,
      record {
        due =
            due_count-update t (is_claimed e) (finish (now around w)) (rows_of w)
              (finished_not_due (now around w));
        claims = λ d.
            any-update_claimed d (is_claimed e) (finish (now around w)) (rows_of w) (λ r. refl);
        rerun = refl;
        keys =
            any-update_same is_loud (is_claimed e) (finish (now around w)) (λ r. refl) (rows_of w);
      },
    )

    Progress-trans : (u v w : Worker E) → Progress u v → Progress v w → Progress u w
    Progress-trans u v w p q = record {
      due = omega (arith, p.due, q.due);
      claims = λ e. q.claims e ∙ p.claims e;
      rerun = q.rerun ∙ p.rerun;
      keys = q.keys ∙ p.keys;
    }

    failed-Progress :
        (w : Worker E) (e : Event) (error : Text)
        → Progress w (record w { outbox = mark_failed (now around w) e error w.outbox })
    unfolding mark_failed
    failed-Progress w e error =
        let put_off = postpone (now around w) e.attempts error in
        record {
          due =
              due_count-update t (λ r. r.id == e.id) put_off (rows_of w)
                (postponed_not_due w.env e.attempts error);
          claims = λ d. any-update_claimed d (λ r. r.id == e.id) put_off (rows_of w) (λ r. refl);
          rerun = refl;
          keys = any-update_same is_loud (λ r. r.id == e.id) put_off (λ r. refl) (rows_of w);
        }

    settle-Progress :
        (e : Event) (w : Worker E) (r : Option Text)
        → any (is_claimed e) (rows_of w) ≡ true
        → Progress w (settle around e (w, r))
    unfolding settle
    settle-Progress e w none hit =
        let (done, p) = done-Progress w e hit in
        record { due = p.due; claims = p.claims; rerun = rw done; keys = p.keys }
    settle-Progress e w (some error) hit = failed-Progress w e error

    process-Progress :
        (e : Event) (w : Worker E)
        → is_quiet e.key ≡ true
        → any (is_claimed e) (rows_of w) ≡ true
        → Progress w (process around e w)
    unfolding process
    process-Progress e w quiet hit =
        elim (Bool-cases (around.has_handler e.key.target e.key.aggregate_type)) [
          | inr missing ↦ rw missing (done-Progress w e hit).1
          | inl found ↦
              let w' = (around.sync e.key w).0 in
              let same = ap (λ (o : Outbox). o.rows) (calm.same_outbox e.key w quiet) in
              rw found (
                Progress-trans w w' _
                  (record {
                    due = rw same (omega arith);
                    claims = λ d. rw same;
                    rerun = calm.same_rerun e.key w quiet;
                    keys = rw same;
                  })
                  (settle-Progress e w' (around.sync e.key w).1 (rw same hit)))
        ]

    pub process_all-Progress :
        (events : List Event) (w : Worker E)
        → All (λ e. is_quiet e.key ≡ true) events
        → All (λ e. any (is_claimed e) (rows_of w) ≡ true) events
        → Progress w (process_all around events w)
    unfolding process_all
    process_all-Progress [] w quiet h = record {
      due = omega arith;
      claims = λ e. refl;
      rerun = refl;
      keys = refl;
    }
    process_all-Progress (e ∷ events) w quiet h =
        let p = process-Progress e w quiet.0 h.0 in
        Progress-trans w (process around e w) _ p (
          process_all-Progress events (process around e w) quiet.1
            (All-mono _ _ events (λ d c. p.claims d ∙ c) h.1))
