-- ===== src/Tenants/Ownership.antt =====
-- mirrors/keycloak/keycloak-tenant.mirror.ts: which group the mirror of a deleted tenant removes.
use multi_tenant_cloud_obser.Base.{◌≡◌, ◌⊎◌, true, Option, some, Text, text_eq, is_none}
use multi_tenant_cloud_obser.Store.{System, Tenant, done}
use multi_tenant_cloud_obser.Keycloak.{Env, KcGroup, truthy}
use multi_tenant_cloud_obser.Tenants.Mirror.{owned_group, marks, marker_of}

-- The group carries the marker of the tenant; or it has no marker, and is the one that Keycloak answers
-- for the id that the tenant stores, and still has the tenant's name. A group without a marker that is
-- found by its name alone is foreign.
pub data IsOwn {W : Type 0} (env : Env W) (tenant : Tenant) (world : W) (group : KcGroup)
    : Type 0 where
  by_marker : marks env tenant (marker_of env group) ≡ true → IsOwn env tenant world group
  by_pointer :
      (id : Text)
      → truthy tenant.keycloak_group_id ≡ some id
      → (env.keycloak.get_group id world).0 ≡ done (some group)
      → is_none (marker_of env group) ≡ true
      → text_eq group.name tenant.tenant_key ≡ true
      → IsOwn env tenant world group

module _ {W : Type 0} (env : Env W) (tenant : Tenant) (s : System W) where
  -- What a mirror of a deleted tenant changes in Keycloak, besides looking up its group.
  abbrev pub RemovesOwn : W → Type 0
  RemovesOwn world =
      (world ≡ (owned_group env tenant s).1.world)
      ⊎ ((g : KcGroup) × IsOwn env tenant s.world g
          × (world ≡ (env.keycloak.delete_group g.id (owned_group env tenant s).1.world).1))
