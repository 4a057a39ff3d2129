-- ===== src/Outbox/Tests.antt =====
-- The outbox on concrete events.
use multi_tenant_cloud_obser.Base.{
  ℕ, suc, ◌+◌, ◌*◌, ◌≤◌, ◌<◌, ◌≡◌, ◌≢◌, refl, ◌⊎◌, Bool, true, false, not, ◌&&◌, Option, none, some,
  [], ◌∷◌, arith, any, length, min, if◌then◌else◌, Text, codes, Memᴰ,
}
use multi_tenant_cloud_obser.Base.Tables.{update, count, select}
use multi_tenant_cloud_obser.Outbox.{
  Key, key_eq, Outbox, Event, user, tenant, keycloak, grafana, target_eq, aggregate_eq,
  mirror_targets, conflicts, enqueue_one, enqueue, is_due, claim_rows, claim, mark_done,
  mark_failed, append, retry_delay_seconds, seconds, purge_processed,
}
use multi_tenant_cloud_obser.Outbox.Steps.{
  Job, System, Reach, here, next, enqueues, claims, syncs, finishes, start, after_enqueue,
  after_claim, after_sync,
}
use multi_tenant_cloud_obser.Outbox.NoLoss.{no_lost_change}
use multi_tenant_cloud_obser.Outbox.Unique.{one_pending}
use multi_tenant_cloud_obser.Outbox.Claims.{claim_complete}
use multi_tenant_cloud_obser.Outbox.Exclusive.{
  Meanwhile, at_once, then_enqueued, then_claimed, then_put_off, then_purged, lease_excludes,
}
use multi_tenant_cloud_obser.Outbox.Delay.{retry_delay_bounds, retry_delay_doubles}
use multi_tenant_cloud_obser.Outbox.Worker.{Worker, Surroundings, drain}
use multi_tenant_cloud_obser.Outbox.Worker.Calm.{IsCalm, is_quiet}
use multi_tenant_cloud_obser.Outbox.Worker.Drain.{drain-ends}

outbox : Unit {0}
unfolding key_eq conflicts enqueue_one enqueue is_due claim_rows claim mark_done mark_failed append
    retry_delay_seconds purge_processed any update count select mirror_targets
outbox = tt

abbrev nobody : ℕ → Bool
nobody id = false

abbrev k : Key
k = record { target = keycloak; aggregate_type = user; aggregate_id = 7 }

abbrev queued : System
queued = after_enqueue 10 k start

abbrev claimed : System
claimed = after_claim nobody 20 5 queued

abbrev event : Event
event = record { id = 1; key = k; attempts = 1; claimed_seq = 1 }

abbrev job : Job
job = record { event = event; seen = 1; synced = false }

abbrev synced : System
synced = after_sync job claimed

abbrev finished : System
finished = record synced { outbox = (mark_done 30 event synced.outbox).0 }

claimed_event : (claim nobody 20 5 queued.outbox).1 ≡ event ∷ []
unfolding outbox
claimed_event = refl

-- An enqueue while the event runs: it is not finished, and is due again at once.
run_again_test :
    let (o, done) = mark_done 40 event (enqueue_one 35 k claimed.outbox) in
    (done ≡ false) × (any (is_due 40) o.rows ≡ true)
unfolding outbox
run_again_test = (refl, refl)

enqueue_user : length (enqueue 5 user 7 (mirror_targets user) start.outbox).rows ≡ 2
unfolding outbox
enqueue_user = refl

failing_test :
    any (is_due (seconds 5 + 29)) (mark_failed 30 event (codes "down") claimed.outbox).rows ≡ false
unfolding outbox
failing_test = refl

to_finished : Reach start finished
unfolding outbox
to_finished =
    next (next (next (next here (enqueues 10 k)) (claims nobody 20 5)) (syncs job (Memᴰ.head refl)))
      (finishes 30 (record job { synced = true }) (Memᴰ.head refl) refl)

idle : any (conflicts k) finished.outbox.rows ≡ false
unfolding outbox
idle = refl

no_lost_change_example : finished.mirrored k ≡ finished.changes k
no_lost_change_example = no_lost_change k to_finished idle

one_pending_example : count (conflicts k) finished.outbox.rows ≤ 1
one_pending_example = one_pending k to_finished

-- Two events, claimed one by one.
abbrev other : Key
other = record k { target = grafana }

abbrev two_queued : System
two_queued = after_enqueue 11 other queued

abbrev event' : Event
event' = record { id = 2; key = other; attempts = 1; claimed_seq = 1 }

first_claim : Memᴰ event (claim nobody 20 1 two_queued.outbox).1
unfolding outbox
first_claim = Memᴰ.head refl

abbrev again_queued : Outbox
again_queued = purge_processed 24 (
    enqueue_one 23 k (
      mark_failed 22 event' (codes "down")
        (claim nobody 21 9 (claim nobody 20 1 two_queued.outbox).0).0))

abbrev event'' : Event
event'' = record { id = 2; key = other; attempts = 2; claimed_seq = 1 }

-- In between the other event is claimed and fails, the same key is enqueued again, and a purge runs.
between : Meanwhile 1 120020 (claim nobody 20 1 two_queued.outbox).0 again_queued
between = then_purged 24 (
    then_enqueued 23 k (
      then_put_off 22 event' (codes "down") (λ e. absurd cc)
        (then_claimed nobody 21 9 (omega arith) at_once)))

third_claim : Memᴰ event'' (claim nobody 6000 9 again_queued).1
unfolding outbox
third_claim = Memᴰ.head refl

lease_excludes_example : event.id ≢ event''.id
lease_excludes_example =
    lease_excludes nobody nobody 20 6000 1 9 event event''
      (next (next here (enqueues 10 k)) (enqueues 11 other)) first_claim between (omega arith)
      third_claim

claim_complete_example :
    let (o', events) = claim nobody 20 5 two_queued.outbox in
    (length events ≤ 5)
    × (length events < 5 → any (λ r. is_due 20 r && not (nobody r.id)) o'.rows ≡ false)
claim_complete_example = claim_complete nobody 20 5 two_queued.outbox

retry_delay_bounds_example : (5 ≤ retry_delay_seconds 3) × (retry_delay_seconds 3 ≤ 600)
retry_delay_bounds_example = retry_delay_bounds 3

retry_delay_doubles_example :
    (retry_delay_seconds 1 ≡ 5)
    × (retry_delay_seconds (suc (suc 6)) ≡ min (2 * retry_delay_seconds (suc 6)) 600)
retry_delay_doubles_example = retry_delay_doubles 6

-- A worker whose Keycloak handlers fail and whose Grafana handlers succeed. That of a tenant in Grafana
-- enqueues an event for a user.
answer : Key → Option Text
answer j = elim j.target [ keycloak ↦ some (codes "down") | grafana ↦ none ]

abbrev announced : Key
announced = record { target = grafana; aggregate_type = user; aggregate_id = 7 }

abbrev around : Surroundings (Unit {0})
around = record {
  clock = λ e. 50;
  held = λ e. nobody;
  has_handler = λ t a. true;
  sync = λ j w.
      (if is_quiet j then w else record w { outbox = enqueue_one 50 announced w.outbox }, answer j);
}

around_calm : IsCalm around 60
around_calm = record {
  before = λ e. omega arith;
  brief = λ e. omega arith;
  same_outbox = λ j w quiet. rw quiet refl;
  same_rerun = λ j w quiet. rw quiet refl;
  same_stopped = λ j w quiet. rw quiet refl;
}

abbrev worker : Worker (Unit {0})
worker = record {
  outbox = two_queued.outbox;
  env = tt;
  draining = false;
  rerun = false;
  stopped = false;
}

few_due : count (is_due 60) worker.outbox.rows < 3
unfolding outbox
few_due = omega arith

no_tenants :
    any
      (λ r. target_eq r.key.target grafana && aggregate_eq r.key.aggregate_type tenant)
      worker.outbox.rows
    ≡ false
unfolding outbox
no_tenants = refl

drain-ends_example :
    (w' : Worker (Unit {0})) × (drain around 3 worker ≡ some w')
    × (w'.draining ≡ false)
    × ((w'.stopped ≡ true) ⊎ (any (λ r. is_due 50 r && not (nobody r.id)) w'.outbox.rows ≡ false))
drain-ends_example = drain-ends around 60 3 worker around_calm few_due no_tenants
