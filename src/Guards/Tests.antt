-- ===== src/Guards/Tests.antt =====
-- The guards at concrete requests.
use multi_tenant_cloud_obser.Base.{
  ◌<◌, ◌≡◌, ◌↔◌, ◌⊎◌, refl, true, false, Option, none, some, [], ◌∷◌, if◌then◌else◌, any, Text,
  codes, text_eq, trim, trim_start, drop_prefix,
}
use multi_tenant_cloud_obser.Guards.{
  platform_admin, tenant_admin, viewer, Actor, UserRecord, TenantRecord, active, allowed,
  is_platform_admin, bearer_token, Route, auth_guard, is_active, look_up, tenant_scope_guard,
  assert_can_create_user, assert_can_manage_user,
}
use multi_tenant_cloud_obser.Guards.Scope.{
  IsCaller, auth_guard-IsCaller, tenant_scope_guard_confines,
}
use multi_tenant_cloud_obser.Guards.Policy.{rank, policy_iff}

guards : Unit {0}
unfolding bearer_token auth_guard tenant_scope_guard text_eq trim trim_start drop_prefix any
guards = tt

abbrev ada : UserRecord
ada = record {
  id = 21;
  keycloak_user_id = some (codes "k1");
  username = codes "ada";
  email = codes "ada@acme.example";
  role = tenant_admin;
  tenant_id = some 4;
  tenant_key = some (codes "acme");
  enabled = true;
}

abbrev ada_actor : Actor
ada_actor = record {
  user_id = 21;
  keycloak_user_id = codes "k1";
  username = codes "ada";
  email = codes "ada@acme.example";
  role = tenant_admin;
  tenant_id = some 4;
  tenant_key = some (codes "acme");
}

abbrev acme : TenantRecord
acme = record { id = 4; tenant_key = codes "acme"; status = active }

abbrev verify : Text → Option Text
verify t = if text_eq t (codes "abc") then some (codes "k1") else none

abbrev users : Text → Option UserRecord
users sub = if text_eq sub (codes "k1") then some ada else none

abbrev tenants : Text → Option TenantRecord
tenants key = if text_eq key (codes "acme") then some acme else none

abbrev route : Route
route = record {
  is_public = false;
  roles = some (platform_admin ∷ tenant_admin ∷ []);
  scoped = true;
  tenant_param = some (codes "acme");
}

abbrev header : Option Text
header = some (codes " bearer  abc ")

header_read : bearer_token header ≡ some (codes "abc")
unfolding guards
header_read = refl

two_tokens : bearer_token (some (codes "Bearer abc def")) ≡ none
unfolding guards
two_tokens = refl

ada_guarded : auth_guard verify users route header ≡ allowed (some ada_actor)
unfolding guards
ada_guarded = refl

auth_guard-IsCaller_example :
    ((false ≡ true) × (some ada_actor ≡ none))
    ⊎ ((false ≡ false)
        × (actor : Actor) × (some ada_actor ≡ some actor)
        × IsCaller verify users route header actor)
auth_guard-IsCaller_example =
    auth_guard-IsCaller verify users route header (some ada_actor) ada_guarded

ada_scoped : tenant_scope_guard tenants route (some ada_actor) ≡ allowed (some acme)
unfolding guards
ada_scoped = refl

tenant_scope_guard_confines_example :
    (tenant : TenantRecord) × (some acme ≡ some tenant)
    × (look_up tenants (some (codes "acme")) ≡ some tenant)
    × (is_active tenant.status ≡ true)
    × ((is_platform_admin ada_actor ≡ true) ⊎ (some 4 ≡ some tenant.id))
tenant_scope_guard_confines_example =
    tenant_scope_guard_confines tenants route ada_actor (some acme) refl ada_scoped

policy_iff_example :
    ((assert_can_create_user ada_actor viewer ≡ allowed tt) ↔ (rank viewer < rank tenant_admin))
    × ((assert_can_manage_user ada_actor ada ≡ allowed tt)
        ↔ (rank tenant_admin < rank tenant_admin))
policy_iff_example = policy_iff ada_actor viewer ada
