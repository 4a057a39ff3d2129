-- ===== src/Platform/Resync.antt =====
-- services/control-plane/src/sync/resync.service.ts.
use multi_tenant_cloud_obser.Base.{ℕ, Bool, codes, length, if◌then◌else◌}
use multi_tenant_cloud_obser.Outbox.{Aggregate, mirror_targets}
use multi_tenant_cloud_obser.Store.{
  Database, System, Action, Reply, failed, done, Failure, domain, conflict, enqueue_all, ◌>>◌,
}
use multi_tenant_cloud_obser.Keycloak.{Env}
use multi_tenant_cloud_obser.Agents.{agents_for_resync}
use multi_tenant_cloud_obser.Users.{users_for_resync}
use multi_tenant_cloud_obser.Tenants.{tenants_for_resync}
use multi_tenant_cloud_obser.Collector.{Seen, GcResult, Run, run_gc}

abbrev pub resync_running : Failure
resync_running = domain conflict (codes "resync_running")

pub record ResyncResult : Type 0 where
  pub tenants_queued : ℕ
  pub users_queued : ℕ
  pub agents_queued : ℕ
  pub orphans_deleted : ℕ
  pub orphans_pending : ℕ

-- A collection that fails is skipped.
abbrev pub gc_or_none : Reply GcResult → GcResult
gc_or_none (failed e) = record { deleted = 0; pending = 0 }
gc_or_none (done r) = r

module _ {W : Type 0} (env : Env W) where
  unfoldable pub enqueue_rows : Database → Action W (Unit {0})
  enqueue_rows db =
      enqueue_all Aggregate.tenant (tenants_for_resync db) (mirror_targets Aggregate.tenant)
      >> (enqueue_all Aggregate.user (users_for_resync db) (mirror_targets Aggregate.user)
          >> enqueue_all Aggregate.agent (agents_for_resync db) (mirror_targets Aggregate.agent))

  abbrev pub resync_result : Database → Run W → Reply ResyncResult × (Seen × System W)
  resync_result db (gc, rest) = (
    done (record {
      tenants_queued = length (tenants_for_resync db);
      users_queued = length (users_for_resync db);
      agents_queued = length (agents_for_resync db);
      orphans_deleted = (gc_or_none gc).deleted;
      orphans_pending = (gc_or_none gc).pending;
    }),
    rest,
  )

  abbrev pub then_gc :
      Database → Seen → Reply (Unit {0}) × System W → Reply ResyncResult × (Seen × System W)
  then_gc db seen (failed e, s) = (failed e, (seen, s))
  then_gc db seen (done u, s) = resync_result db (run_gc env seen s)

  -- `running`: a resync of this process runs.
  unfoldable pub resync : Bool → Seen → System W → Reply ResyncResult × (Seen × System W)
  resync running seen s =
      if running
      then (failed resync_running, (seen, s))
      else then_gc s.db seen (enqueue_rows s.db s)
