-- ===== src/Tenants/Service.antt =====
-- services/control-plane/src/modules/tenants/tenants.service.ts. A view of a tenant is its row.
use multi_tenant_cloud_obser.Base.{ℕ, Option, none, some, List, ◌++◌, Text, codes, text_eq}
use multi_tenant_cloud_obser.Guards.{Actor}
use multi_tenant_cloud_obser.Outbox.{Aggregate, mirror_targets}
use multi_tenant_cloud_obser.Store.{
  Tenant, Action, Failure, domain, conflict, give, query, execute, write, found_or, throw_if, ◌>>=◌,
  ◌>>◌, transaction, enqueue_event, enqueue_all,
}
use multi_tenant_cloud_obser.Keycloak.{Env}
use multi_tenant_cloud_obser.Agents.{tenant_by_id, revoke_tenant_agents}
use multi_tenant_cloud_obser.Users.{mark_tenant_users_deleted}
use multi_tenant_cloud_obser.SupportAccess.{distinct, end_open_for_tenant}
use multi_tenant_cloud_obser.Enrollments.{revoke_open_for_tenant}
use multi_tenant_cloud_obser.SupportAccess.Service.{tenant_is_platform}
use multi_tenant_cloud_obser.Tenants.{list_active, insert_active, mark_tenant_deleted}
use multi_tenant_cloud_obser.Tenants.Mirror.{apply_tenant}

abbrev pub tenant_key_reserved : Failure
tenant_key_reserved = domain conflict (codes "tenant_key_reserved")

abbrev pub list : {W : Type 0} → Action W (List Tenant)
list = query list_active

abbrev pub enqueue_tenant : {W : Type 0} → ℕ → Action W (Unit {0})
enqueue_tenant id = enqueue_event Aggregate.tenant id (mirror_targets Aggregate.tenant)

abbrev pub or_tenant : Option Tenant → Tenant → Tenant
or_tenant none t = t
or_tenant (some u) t = u

unfoldable pub create_tenant : {W : Type 0} → Env W → Text → Action W Tenant
create_tenant env tenant_key = transaction (
    execute (insert_active tenant_key) >>= found_or tenant_key_reserved >>= λ tenant.
    apply_tenant env tenant
    >> (enqueue_tenant tenant.id
        >> (query (λ db. tenant_by_id db tenant.id) >>= λ found. give (or_tenant found tenant))))

module _ {W : Type 0} where
  abbrev pub enqueue_users : List ℕ → Action W (Unit {0})
  enqueue_users ids = enqueue_all Aggregate.user ids (mirror_targets Aggregate.user)

  abbrev pub enqueue_agents : List ℕ → Action W (Unit {0})
  enqueue_agents ids = enqueue_all Aggregate.agent ids (mirror_targets Aggregate.agent)

  -- The statements and the events of a deletion, in one transaction.
  unfoldable pub delete_cascade : Actor → Tenant → Action W (Unit {0})
  delete_cascade actor tenant = do
    write (mark_tenant_deleted tenant.id)
    user_ids ← execute (mark_tenant_users_deleted tenant.id)
    agent_ids ← execute (revoke_tenant_agents tenant.id)
    grant_user_ids ← execute (end_open_for_tenant tenant.id actor.username)
    write (revoke_open_for_tenant tenant.id actor.user_id)
    enqueue_tenant tenant.id
    enqueue_users (distinct (user_ids ++ grant_user_ids))
    enqueue_agents agent_ids

  -- `default_tenant` is the key of the platform's own tenant.
  unfoldable pub delete_tenant : Text → Actor → Tenant → Action W (Unit {0})
  delete_tenant default_tenant actor tenant =
      throw_if (text_eq tenant.tenant_key default_tenant) tenant_is_platform
      >> transaction (delete_cascade actor tenant)
