-- ===== src/Gateway/Access.antt =====
-- auth/auth-user.ts, auth/jwt.strategy.ts (`validate`), proxy/access.ts, tenant/tenant.service.ts and
-- tenant/tenant-registry.service.ts: who the caller is, and which tenant a query is bound to.
use multi_tenant_cloud_obser.Base.{
  Bool, true, false, not, ◌||◌, Option, none, some, List, [], ◌∷◌, map, ◌==◌, if◌then◌else◌, any,
  Text, codes, includes, is_blank, trim,
}
use multi_tenant_cloud_obser.Base.Tables.{select}
use multi_tenant_cloud_obser.Gateway.{Answer, returns, throws, forbidden, ◌>>=◌, ◌>>◌, require}

pub record AuthUser : Type 0 where
  pub sub : Text
  pub username : Text
  pub roles : List Text
  pub groups : List Text
  pub vm_account_ids : List Text

-- `string | string[] | undefined`.
pub data OneOrMany : Type 0 where
  missing : OneOrMany
  one : Text → OneOrMany
  many : List Text → OneOrMany

pub record KeycloakPayload : Type 0 where
  pub sub : Text
  pub preferred_username : Option Text
  pub realm_roles : Option (List Text)
  pub groups : Option (List Text)
  pub vm_account_id : OneOrMany

abbrev pub or_else {ℓ} : {A : Type ℓ} → Option A → A → A
or_else none a = a
or_else (some b) a = b

abbrev pub to_list : OneOrMany → List Text
to_list missing = []
to_list (one t) = t ∷ []
to_list (many ts) = ts

unfoldable pub validate : KeycloakPayload → AuthUser
validate p = record {
  sub = p.sub;
  username = or_else p.preferred_username p.sub;
  roles = or_else p.realm_roles [];
  groups = or_else p.groups [];
  vm_account_ids = to_list p.vm_account_id;
}

abbrev pub platform_admin : Text
platform_admin = codes "platform-admin"

abbrev pub tenant_admin : Text
tenant_admin = codes "tenant-admin"

abbrev pub viewer : Text
viewer = codes "viewer"

abbrev pub observability_roles : List Text
observability_roles = platform_admin ∷ tenant_admin ∷ viewer ∷ []

pub record QueryAccess : Type 0 where
  pub platform_admin : Bool
  pub tenant_id : Option Text

-- `group.replace(/^\/+/, '')`.
unfoldable pub strip_slashes : Text → Text
strip_slashes [] = []
strip_slashes (c ∷ t) = let rest = strip_slashes t in if c == b'/' then rest else c ∷ t

unfoldable pub tenant_groups : AuthUser → List Text
tenant_groups user = select (λ g. not (is_blank g)) (map strip_slashes user.groups)

-- `if (groups.length !== 1) throw …; groups[0]`.
abbrev pub only {ℓ} : {A : Type ℓ} → List A → Answer A
only [] = throws forbidden
only (x ∷ []) = returns x
only (x ∷ y ∷ rest) = throws forbidden

abbrev pub bound : Text → Answer QueryAccess
bound g = returns (record { platform_admin = false; tenant_id = some g })

unfoldable pub resolve_query_access : AuthUser → Answer QueryAccess
resolve_query_access user =
    require (any (includes observability_roles) user.roles) forbidden
    >> (if includes user.roles platform_admin
        then returns (record { platform_admin = true; tenant_id = none })
        else (only (tenant_groups user) >>= bound))

pub record TenantContext : Type 0 where
  pub tenant_id : Option Text
  pub platform_admin : Bool

-- `requestedTenant?.trim() || null`.
abbrev pub requested : Option Text → Option Text
requested none = none
requested (some t) = let u = trim t in if is_blank u then none else some u

abbrev pub bound_context : Text → Answer TenantContext
bound_context g = returns (record { tenant_id = some g; platform_admin = false })

-- `TenantService.resolve`.
unfoldable pub resolve : AuthUser → Option Text → Answer TenantContext
resolve user wanted =
    if includes user.roles platform_admin
    then returns (record { tenant_id = requested wanted; platform_admin = true })
    else (require (includes user.roles viewer || includes user.roles tenant_admin) forbidden
        >> (only (tenant_groups user) >>= bound_context))
