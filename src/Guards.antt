-- ===== src/Guards.antt =====
-- services/control-plane/src/common/auth (auth.guard.ts, tenant-scope.guard.ts, actor.ts) and
-- modules/users/users.policy.ts: who may call which route, and on which tenant. The guards take what
-- they are injected with as arguments: the verifier of tokens, whose success is the subject, and the
-- two queries. An error is a value; its text is left out.
pub mod Scope
pub mod Policy
mod Tests
use multi_tenant_cloud_obser.Base.{
  ℕ, ◌+◌, ◌≡◌, Bool, true, false, not, ◌&&◌, ◌||◌, Option, none, some, List, [], ◌∷◌, map, leb,
  if◌then◌else◌, ◌==◌, any, Text, codes, text_eq, is_blank, is_space, starts_with, drop_prefix,
  trim, trim_start, take,
}

pub data Role : Type 0 where
  platform_admin tenant_admin viewer : Role

abbrev pub role_eq : Role → Role → Bool
role_eq platform_admin platform_admin = true
role_eq tenant_admin tenant_admin = true
role_eq viewer viewer = true
role_eq _ _ = false

pub record Actor : Type 0 where
  pub user_id : ℕ
  pub keycloak_user_id : Text
  pub username : Text
  pub email : Text
  pub role : Role
  pub tenant_id : Option ℕ
  pub tenant_key : Option Text

abbrev pub is_platform_admin : Actor → Bool
is_platform_admin actor = role_eq actor.role platform_admin

-- Of the row of a user, what the guards and the policy read.
pub record UserRecord : Type 0 where
  pub id : ℕ
  pub keycloak_user_id : Option Text
  pub username : Text
  pub email : Text
  pub role : Role
  pub tenant_id : Option ℕ
  pub tenant_key : Option Text
  pub enabled : Bool

pub data TenantStatus : Type 0 where
  active deleted : TenantStatus

pub record TenantRecord : Type 0 where
  pub id : ℕ
  pub tenant_key : Text
  pub status : TenantStatus

pub data Denial : Type 0 where
  unauthenticated not_registered account_disabled forbidden tenant_not_found misused : Denial

pub data Decision {ℓ} (A : Type ℓ) : Type ℓ where
  denied : Denial → Decision A
  allowed : A → Decision A

abbrev pub and_then {ℓ κ} : {A : Type ℓ} {B : Type κ} → Decision A → (A → Decision B) → Decision B
and_then (denied d) next = denied d
and_then (allowed a) next = next a

abbrev pub to_lower : ℕ → ℕ
to_lower c = if leb 65 c && leb c 90 then c + 32 else c

-- The match of `\s+(\S+)$` behind the scheme, of what stands behind the white space.
abbrev pub token_of : Text → Option Text
token_of t = if is_blank t || any is_space t then none else some t

abbrev pub credentials : Text → Option Text
credentials [] = none
credentials (c ∷ t) = if is_space c then token_of (trim_start t) else none

unfoldable pub bearer_token : Option Text → Option Text
bearer_token none = none
bearer_token (some header) =
    let t = trim header in
    if text_eq (map to_lower (take 6 t)) (codes "bearer")
    then credentials (drop_prefix t (take 6 t))
    else none

-- What the decorators of a route and of its controller say, and the tenant key in its path.
pub record Route : Type 0 where
  pub is_public : Bool
  pub roles : Option (List Role)
  pub scoped : Bool
  pub tenant_param : Option Text

abbrev pub to_actor : UserRecord → Text → Actor
to_actor user keycloak_id = record {
  user_id = user.id;
  keycloak_user_id = keycloak_id;
  username = user.username;
  email = user.email;
  role = user.role;
  tenant_id = user.tenant_id;
  tenant_key = user.tenant_key;
}

-- The caller, from the row of the user.
abbrev pub identify : Option UserRecord → Decision Actor
identify none = denied not_registered
identify (some user) = elim user.keycloak_user_id [
  | none ↦ denied not_registered
  | some keycloak_id ↦
      if user.enabled then allowed (to_actor user keycloak_id) else denied account_disabled
]

-- `@Roles`; a route without it is refused.
abbrev pub check_roles : Option (List Role) → Actor → Decision (Option Actor)
check_roles none actor = denied misused
check_roles (some roles) actor =
    if any (role_eq actor.role) roles then allowed (some actor) else denied forbidden

abbrev pub authenticate : (Text → Option Text) → Option Text → Decision Text
authenticate verify none = denied unauthenticated
authenticate verify (some token) = elim (verify token) [
  | none ↦ denied unauthenticated
  | some sub ↦ allowed sub
]

-- `AuthGuard.canActivate`: the caller, who is missing on a public route.
unfoldable pub auth_guard :
    (Text → Option Text)
    → (Text → Option UserRecord)
    → Route
    → Option Text
    → Decision (Option Actor)
auth_guard verify find_active_by_keycloak_id route header =
    if route.is_public
    then allowed none
    else and_then (authenticate verify (bearer_token header))
        (λ sub. and_then (identify (find_active_by_keycloak_id sub)) (check_roles route.roles))

abbrev pub is_active : TenantStatus → Bool
is_active active = true
is_active deleted = false

abbrev pub same_tenant : Option ℕ → ℕ → Bool
same_tenant none id = false
same_tenant (some own) id = own == id

abbrev pub check_tenant : Actor → Option TenantRecord → Decision (Option TenantRecord)
check_tenant actor none = denied tenant_not_found
check_tenant actor (some tenant) =
    if not (is_active tenant.status)
    then denied tenant_not_found
    else if not (is_platform_admin actor) && not (same_tenant actor.tenant_id tenant.id)
    then denied forbidden
    else allowed (some tenant)

abbrev pub look_up : (Text → Option TenantRecord) → Option Text → Option TenantRecord
look_up find_by_key none = none
look_up find_by_key (some raw) = if is_blank raw then none else find_by_key raw

-- `TenantScopeGuard.canActivate`: the tenant, which is missing on a route without the scope.
unfoldable pub tenant_scope_guard :
    (Text → Option TenantRecord) → Route → Option Actor → Decision (Option TenantRecord)
tenant_scope_guard find_by_key route actor = if not route.scoped then allowed none else elim actor [
  | none ↦ denied misused
  | some a ↦ check_tenant a (look_up find_by_key route.tenant_param)
]

unfoldable pub assert_can_create_user : Actor → Role → Decision (Unit {0})
assert_can_create_user actor role =
    if role_eq role platform_admin
    then denied forbidden
    else if role_eq actor.role platform_admin
    then allowed tt
    else if role_eq actor.role tenant_admin && role_eq role viewer
    then allowed tt
    else denied forbidden

unfoldable pub assert_can_manage_user : Actor → UserRecord → Decision (Unit {0})
assert_can_manage_user actor target =
    if role_eq target.role platform_admin
    then denied forbidden
    else if role_eq actor.role platform_admin
    then allowed tt
    else if role_eq actor.role tenant_admin && role_eq target.role viewer
    then allowed tt
    else denied forbidden
