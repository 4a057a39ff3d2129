-- ===== src/Tenants/Keeps.antt =====
-- mirrors/keycloak/keycloak-tenant.mirror.ts: what the mirror of a tenant keeps of the tables. It writes one
-- column.
use multi_tenant_cloud_obser.Base.{ℕ, Option, none, some, Text}
use multi_tenant_cloud_obser.Store.{Database, Tenant}
use multi_tenant_cloud_obser.Store.Keeps.{
  Keeps, OnSuccess, Keeps-bind, Keeps-then, Keeps-give, Keeps-throw, Keeps-query, Keeps-call,
  Keeps-attempt, Keeps-when, Keeps-if,
}
use multi_tenant_cloud_obser.Keycloak.{Env, KcGroup}
use multi_tenant_cloud_obser.Tenants.{set_keycloak_group_id}
use multi_tenant_cloud_obser.Tenants.Mirror.{
  apply_tenant, ensure_group, resolve_for_write, owned_group, stored_group_at, stored_group,
  stored_or_named, stored_or_marked, adopt_named, adopt_marked, owner_of, create_or_update,
  delete_found, save_group_id,
}

module _ {W : Type 0} (P : Database → Type 0) (env : Env W) (tenant : Tenant)
    (pointer : (group_id : Option Text) (now : ℕ) (db : Database)
      → P db
      → OnSuccess P (set_keycloak_group_id tenant.id group_id now db)) where
  Keeps-stored_group : Keeps P (stored_group env tenant)
  Keeps-stored_group = at _
    where
      at : (o : Option Text) → Keeps P (stored_group_at env tenant o)
      at none = Keeps-give none
      at (some id) = Keeps-bind (Keeps-call _) (λ group. Keeps-give _)

  Keeps-owned_group : Keeps P (owned_group env tenant)
  unfolding owned_group
  Keeps-owned_group = Keeps-bind Keeps-stored_group marked
    where
      marked : (o : Option KcGroup) → Keeps P (stored_or_marked env tenant o)
      marked (some group) = Keeps-give _
      marked none = Keeps-bind (Keeps-call _) (λ group. Keeps-give _)

  Keeps-adopt_marked :
      (group : KcGroup) (marker : Option Text) → Keeps P (adopt_marked env tenant group marker)
  Keeps-adopt_marked group none = Keeps-throw _
  Keeps-adopt_marked group (some marker) =
      Keeps-if _ (Keeps-give _)
        (Keeps-bind (owner _) (λ o. Keeps-if _ (Keeps-throw _) (Keeps-give _)))
    where
      owner : (o : Option ℕ) → Keeps P (owner_of env o)
      owner none = Keeps-give none
      owner (some id) = Keeps-query _

  Keeps-ensure_group : Keeps P (ensure_group env tenant)
  unfolding ensure_group resolve_for_write
  Keeps-ensure_group = Keeps-bind (Keeps-bind Keeps-stored_group named) updated
    where
      adopted : (o : Option KcGroup) → Keeps P (adopt_named env tenant o)
      adopted none = Keeps-give none
      adopted (some group) = Keeps-adopt_marked group _

      named : (o : Option KcGroup) → Keeps P (stored_or_named env tenant o)
      named (some group) = Keeps-give _
      named none = Keeps-bind (Keeps-call _) adopted

      updated : (o : Option KcGroup) → Keeps P (create_or_update env tenant o)
      updated none = Keeps-call _
      updated (some group) = Keeps-then (Keeps-when _ (Keeps-call _)) (Keeps-give _)

  Keeps-save_group_id : (o : Option Text) → Keeps P (save_group_id env tenant.id o)
  Keeps-save_group_id o = Keeps-attempt _ _ (pointer o)

  pub Keeps-apply_tenant : Keeps P (apply_tenant env tenant)
  unfolding apply_tenant
  Keeps-apply_tenant =
      Keeps-if _ (Keeps-bind Keeps-ensure_group (λ id. Keeps-when _ (Keeps-save_group_id _)))
        (Keeps-then (Keeps-bind Keeps-owned_group deleted) (Keeps-when _ (Keeps-save_group_id _)))
    where
      deleted : (o : Option KcGroup) → Keeps P (delete_found env o)
      deleted none = Keeps-give tt
      deleted (some group) = Keeps-call _
