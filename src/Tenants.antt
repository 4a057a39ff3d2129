-- ===== src/Tenants.antt =====
-- services/control-plane/src/modules/tenants/tenant.repository.ts: the statements on the table of tenants.
-- The record of a tenant is its row.
pub mod Mirror
pub mod Service
pub mod Cascade
pub mod Ownership
mod Keeps
mod Numbers
mod Tests
use multi_tenant_cloud_obser.Base.{
  ℕ, suc, Bool, true, false, not, ◌&&◌, ◌||◌, Option, none, some, List, [], ◌∷◌, ◌++◌, map, ◌==◌,
  if◌then◌else◌, any, Text, text_eq, leb, is_some,
}
use multi_tenant_cloud_obser.Base.Tables.{select, find, update}
use multi_tenant_cloud_obser.Store.{
  Database, Tenant, active, deleted, RowStatus, is_active, coalesce, equal_text,
}

unfoldable pub insert_by_account : Tenant → List Tenant → List Tenant
insert_by_account t [] = t ∷ []
insert_by_account t (u ∷ us) =
    let rest = insert_by_account t us in
    if leb t.vm_account_id u.vm_account_id then t ∷ u ∷ us else u ∷ rest

-- ORDER BY vm_account_id.
unfoldable pub by_account : List Tenant → List Tenant
by_account [] = []
by_account (t ∷ ts) = insert_by_account t (by_account ts)

unfoldable pub list_active : Database → List Tenant
list_active db = by_account (select (λ t. is_active t.status) db.tenants)

abbrev pub find_by_key : Text → Database → Option Tenant
find_by_key tenant_key db = find (λ t. text_eq t.tenant_key tenant_key) db.tenants

abbrev pub new_tenant : ℕ → Text → ℕ → ℕ → Tenant
new_tenant id tenant_key account now = record {
  id = id;
  tenant_key = tenant_key;
  vm_account_id = account;
  keycloak_group_id = none;
  grafana_org_id = none;
  status = active;
  created_at = now;
  deleted_at = none;
}

-- tenant_key is unique among the tenants of any status. The defaults of the row are drawn before the
-- constraint is tested, so that a refused row takes its account from the sequence, too.
unfoldable pub insert_active : Text → ℕ → Database → Option Tenant × Database
insert_active tenant_key now db =
    let drawn = record db { next_id = suc db.next_id; next_account = suc db.next_account } in
    if any (λ t. text_eq t.tenant_key tenant_key) db.tenants then (none, drawn) else (
      some (new_tenant db.next_id tenant_key db.next_account now),
      record drawn {
        tenants = db.tenants ++ (new_tenant db.next_id tenant_key db.next_account now ∷ []);
      },
    )

abbrev pub delete_tenant_row : ℕ → Tenant → Tenant
delete_tenant_row now t = record t { status = deleted; deleted_at = coalesce t.deleted_at now }

unfoldable pub mark_tenant_deleted : ℕ → ℕ → Database → Database
mark_tenant_deleted id now db = record db {
  tenants = update (λ t. t.id == id) (delete_tenant_row now) db.tenants;
}

-- keycloak_group_id is unique.
unfoldable pub set_keycloak_group_id : ℕ → Option Text → ℕ → Database → Option (Unit {0} × Database)
set_keycloak_group_id id group_id now db =
    if any (λ t. not (t.id == id) && equal_text t.keycloak_group_id group_id) db.tenants
    then none
    else some (
      tt,
      record db {
        tenants =
            update (λ t. t.id == id) (λ t. record t { keycloak_group_id = group_id }) db.tenants;
      },
    )

unfoldable pub set_grafana_org_id : ℕ → Option ℕ → Database → Database
set_grafana_org_id id org_id db = record db {
  tenants = update (λ t. t.id == id) (λ t. record t { grafana_org_id = org_id }) db.tenants;
}

unfoldable pub active_tenant_ids : List ℕ → Database → List ℕ
active_tenant_ids ids db =
    map (λ t. t.id) (select (λ t. is_active t.status && any (λ id. id == t.id) ids) db.tenants)

abbrev pub tenant_needs_sync : Tenant → Bool
tenant_needs_sync t = is_active t.status || is_some t.keycloak_group_id || is_some t.grafana_org_id

unfoldable pub tenants_for_resync : Database → List ℕ
tenants_for_resync db = map (λ t. t.id) (by_account (select tenant_needs_sync db.tenants))
