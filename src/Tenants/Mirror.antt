-- ===== src/Tenants/Mirror.antt =====
-- services/control-plane/src/mirrors/keycloak/keycloak-tenant.mirror.ts: a tenant as a Keycloak group.
use multi_tenant_cloud_obser.Base.{
  ℕ, Bool, true, false, not, ◌&&◌, ◌||◌, Option, none, some, List, [], ◌∷◌, if◌then◌else◌, Text,
  codes, text_eq, is_some, is_none,
}
use multi_tenant_cloud_obser.Store.{
  Tenant, Action, Failure, domain, conflict, internal_error, give, throw, call, query, attempt,
  when, ◌>>=◌, ◌>>◌, is_active, equal_text,
}
use multi_tenant_cloud_obser.Keycloak.{
  Env, KcGroup, KeycloakClient, Attributes, attr, property, with_property, without_key,
  tenant_marker, truthy,
}
use multi_tenant_cloud_obser.Agents.{tenant_by_id}
use multi_tenant_cloud_obser.Tenants.{set_keycloak_group_id}

abbrev pub identity_conflict : Failure
identity_conflict = domain conflict (codes "identity_conflict")

abbrev pub legacy_attribute : Text
legacy_attribute = codes "mtco_tenant"

abbrev pub same_texts : List Text → List Text → Bool
same_texts [] [] = true
same_texts (s ∷ ss) (t ∷ ts) = text_eq s t && same_texts ss ts
same_texts _ _ = false

abbrev pub same_values : Option (List Text) → Option (List Text) → Bool
same_values none none = true
same_values (some v) (some w) = same_texts v w
same_values _ _ = false

abbrev pub agree_on : Attributes → Attributes → Attributes → Bool
agree_on left right [] = true
agree_on left right ((k, v) ∷ rest) =
    same_values (property k left) (property k right) && agree_on left right rest

-- Every key of either has the same values in both.
abbrev pub same_attributes : Attributes → Attributes → Bool
same_attributes current desired =
    agree_on current desired current && agree_on current desired desired

abbrev pub attributes_of : Option KcGroup → Attributes
attributes_of none = []
attributes_of (some g) = g.attributes

module _ {W : Type 0} (env : Env W) where
  abbrev pub kc : KeycloakClient W
  kc = env.keycloak

  abbrev pub marks : Tenant → Option Text → Bool
  marks tenant marker = equal_text marker (some (env.uuid_text tenant.id))

  abbrev pub marker_of : KcGroup → Option Text
  marker_of group = truthy (attr group.attributes tenant_marker)

  abbrev pub own_group : Tenant → Option KcGroup → Option KcGroup
  own_group tenant none = none
  own_group tenant (some group) =
      if marks tenant (marker_of group)
        || (is_none (marker_of group) && text_eq group.name tenant.tenant_key)
      then some group
      else none

  abbrev pub stored_group_at : Tenant → Option Text → Action W (Option KcGroup)
  stored_group_at tenant none = give none
  stored_group_at tenant (some id) =
      call (kc.get_group id) >>= λ group. give (own_group tenant group)

  abbrev pub stored_group : Tenant → Action W (Option KcGroup)
  stored_group tenant = stored_group_at tenant (truthy tenant.keycloak_group_id)

  abbrev pub is_active_tenant : Option Tenant → Bool
  is_active_tenant none = false
  is_active_tenant (some t) = is_active t.status

  abbrev pub owner_of : Option ℕ → Action W (Option Tenant)
  owner_of none = give none
  owner_of (some id) = query (λ db. tenant_by_id db id)

  -- A marked group whose tenant is gone is adopted.
  abbrev pub adopt_unowned : KcGroup → Text → Action W (Option KcGroup)
  adopt_unowned group marker = owner_of (env.parse_uuid marker) >>= λ owner.
      if is_active_tenant owner then throw identity_conflict else give (some group)

  abbrev pub adopt_marked : Tenant → KcGroup → Option Text → Action W (Option KcGroup)
  adopt_marked tenant group none = throw identity_conflict
  adopt_marked tenant group (some marker) =
      if marks tenant (some marker) then give (some group) else adopt_unowned group marker

  abbrev pub adopt_named : Tenant → Option KcGroup → Action W (Option KcGroup)
  adopt_named tenant none = give none
  adopt_named tenant (some group) = adopt_marked tenant group (marker_of group)

  abbrev pub stored_or_named : Tenant → Option KcGroup → Action W (Option KcGroup)
  stored_or_named tenant (some group) = give (some group)
  stored_or_named tenant none =
      call (kc.find_top_level_group tenant.tenant_key) >>= adopt_named tenant

  unfoldable pub resolve_for_write : Tenant → Action W (Option KcGroup)
  resolve_for_write tenant = stored_group tenant >>= stored_or_named tenant

  abbrev pub if_marked : Tenant → Option KcGroup → Option KcGroup
  if_marked tenant none = none
  if_marked tenant (some group) = if marks tenant (marker_of group) then some group else none

  abbrev pub stored_or_marked : Tenant → Option KcGroup → Action W (Option KcGroup)
  stored_or_marked tenant (some group) = give (some group)
  stored_or_marked tenant none =
      call (kc.find_top_level_group tenant.tenant_key) >>= λ group. give (if_marked tenant group)

  -- The group that a deletion may remove.
  unfoldable pub owned_group : Tenant → Action W (Option KcGroup)
  owned_group tenant = stored_group tenant >>= stored_or_marked tenant

  abbrev pub desired_attributes : Tenant → Option KcGroup → Attributes
  desired_attributes tenant group = with_property tenant_marker (env.uuid_text tenant.id ∷ []) (
      with_property (codes "vm_account_id") (env.number_text tenant.vm_account_id ∷ [])
        (without_key legacy_attribute (attributes_of group)))

  abbrev pub create_or_update : Tenant → Option KcGroup → Action W Text
  create_or_update tenant none =
      call (kc.create_group tenant.tenant_key (desired_attributes tenant none))
  create_or_update tenant (some group) =
      when
        (not (text_eq group.name tenant.tenant_key)
          || not (same_attributes group.attributes (desired_attributes tenant (some group))))
        (call (
          kc.update_group (record {
            id = group.id;
            name = tenant.tenant_key;
            attributes = desired_attributes tenant (some group);
          })))
      >> give group.id

  unfoldable pub ensure_group : Tenant → Action W Text
  ensure_group tenant = resolve_for_write tenant >>= create_or_update tenant

  abbrev pub delete_found : Option KcGroup → Action W (Unit {0})
  delete_found none = give tt
  delete_found (some group) = call (kc.delete_group group.id)

  abbrev pub save_group_id : ℕ → Option Text → Action W (Unit {0})
  save_group_id id group_id = attempt internal_error (set_keycloak_group_id id group_id)

  unfoldable pub apply_tenant : Tenant → Action W (Unit {0})
  apply_tenant tenant =
      if is_active tenant.status
      then (ensure_group tenant >>= λ group_id.
          when (not (equal_text (some group_id) tenant.keycloak_group_id))
            (save_group_id tenant.id (some group_id)))
      else ((owned_group tenant >>= delete_found)
          >> when (is_some tenant.keycloak_group_id) (save_group_id tenant.id none))

  abbrev pub apply_found : Option Tenant → Action W (Unit {0})
  apply_found none = give tt
  apply_found (some tenant) = apply_tenant tenant

  unfoldable pub sync_tenant : ℕ → Action W (Unit {0})
  sync_tenant tenant_id = query (λ db. tenant_by_id db tenant_id) >>= apply_found
