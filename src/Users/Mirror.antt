-- ===== src/Users/Mirror.antt =====
-- services/control-plane/src/mirrors/keycloak/keycloak-user.mirror.ts: a user as a Keycloak account.
use multi_tenant_cloud_obser.Base.{
  ℕ, Bool, true, false, not, ◌&&◌, ◌||◌, Option, none, some, List, [], ◌∷◌, any, if◌then◌else◌,
  Text, codes, text_eq, is_some, is_none, includes,
}
use multi_tenant_cloud_obser.Base.Tables.{select}
use multi_tenant_cloud_obser.Guards.{Role, platform_admin, tenant_admin, viewer, role_eq}
use multi_tenant_cloud_obser.Store.{
  User, Tenant, Action, internal_error, give, throw, call, query, write, attempt, when, ◌>>=◌, ◌>>◌,
  is_active, equal_text,
}
use multi_tenant_cloud_obser.Keycloak.{
  Env, KcGroup, KcUser, KeycloakClient, Attributes, attr, with_property, user_marker, truthy,
}
use multi_tenant_cloud_obser.Agents.{tenant_by_id}
use multi_tenant_cloud_obser.Users.{find_user, set_names, set_keycloak_user_id}
use multi_tenant_cloud_obser.Tenants.Mirror.{identity_conflict}

abbrev pub role_name : Role → Text
role_name platform_admin = codes "platform-admin"
role_name tenant_admin = codes "tenant-admin"
role_name viewer = codes "viewer"

-- ROLES of common/auth/actor.ts.
abbrev pub all_roles : List Role
all_roles = platform_admin ∷ tenant_admin ∷ viewer ∷ []

abbrev pub same_option : Option Text → Option Text → Bool
same_option none none = true
same_option (some s) (some t) = text_eq s t
same_option _ _ = false

abbrev pub same_bool : Bool → Bool → Bool
same_bool true b = b
same_bool false b = not b

-- `a ??= b`.
abbrev pub or_text : Option Text → Option Text → Option Text
or_text none b = b
or_text (some a) b = some a

abbrev pub group_of : Option Tenant → Option Text
group_of none = none
group_of (some t) = truthy t.keycloak_group_id

module _ {W : Type 0} (env : Env W) where
  abbrev pub kc : KeycloakClient W
  kc = env.keycloak

  abbrev pub marks : User → Option Text → Bool
  marks user marker = equal_text marker (some (env.uuid_text user.id))

  abbrev pub marker_of : KcUser → Option Text
  marker_of account = truthy (attr account.attributes user_marker)

  abbrev pub own_account : User → Option KcUser → Option KcUser
  own_account user none = none
  own_account user (some account) =
      if marks user (marker_of account)
        || (is_none (marker_of account)
            && text_eq (env.to_lower account.username) (env.to_lower user.username))
      then some account
      else none

  abbrev pub stored_account_at : User → Option Text → Action W (Option KcUser)
  stored_account_at user none = give none
  stored_account_at user (some id) =
      call (kc.get_user id) >>= λ account. give (own_account user account)

  abbrev pub stored_account : User → Action W (Option KcUser)
  stored_account user = stored_account_at user (truthy user.keycloak_user_id)

  abbrev pub owner_of : Option ℕ → Action W (Option User)
  owner_of none = give none
  owner_of (some id) = query (find_user id)

  abbrev pub is_active_user : Option User → Bool
  is_active_user none = false
  is_active_user (some u) = is_active u.status

  -- A marked account whose user is gone is adopted.
  abbrev pub adopt_unowned : KcUser → Text → Action W (Option KcUser)
  adopt_unowned account marker = owner_of (env.parse_uuid marker) >>= λ owner.
      if is_active_user owner then throw identity_conflict else give (some account)

  abbrev pub adopt_marked : User → KcUser → Option Text → Action W (Option KcUser)
  adopt_marked user account none = throw identity_conflict
  adopt_marked user account (some marker) =
      if marks user (some marker) then give (some account) else adopt_unowned account marker

  abbrev pub adopt_named : User → Option KcUser → Action W (Option KcUser)
  adopt_named user none = give none
  adopt_named user (some account) = adopt_marked user account (marker_of account)

  abbrev pub stored_or_named : User → Option KcUser → Action W (Option KcUser)
  stored_or_named user (some account) = give (some account)
  stored_or_named user none = call (kc.find_user_by_username user.username) >>= adopt_named user

  unfoldable pub resolve_for_write : User → Action W (Option KcUser)
  resolve_for_write user = stored_account user >>= stored_or_named user

  abbrev pub if_marked : User → Option KcUser → Option KcUser
  if_marked user none = none
  if_marked user (some account) = if marks user (marker_of account) then some account else none

  abbrev pub stored_or_marked : User → Option KcUser → Action W (Option KcUser)
  stored_or_marked user (some account) = give (some account)
  stored_or_marked user none =
      call (kc.find_user_by_username user.username) >>= λ account. give (if_marked user account)

  -- The account that a deletion may remove.
  unfoldable pub owned_account : User → Action W (Option KcUser)
  owned_account user = stored_account user >>= stored_or_marked user

  abbrev pub require_marker : User → Option KcUser → Action W (Unit {0})
  require_marker user none = throw internal_error
  require_marker user (some saved) =
      if marks user (attr saved.attributes user_marker) then give tt else throw internal_error

  -- Keycloak drops attributes that the realm does not allow.
  unfoldable pub assert_marker : Text → User → Action W (Unit {0})
  assert_marker id user = call (kc.get_user id) >>= require_marker user

  abbrev pub tenant_of : Option ℕ → Action W (Option Tenant)
  tenant_of none = give none
  tenant_of (some id) = query (λ db. tenant_by_id db id)

  abbrev pub require_group : Option Text → Action W (Option Text)
  require_group none = throw internal_error
  require_group (some id) = give (some id)

  unfoldable pub desired_group_id : User → Action W (Option Text)
  desired_group_id user =
      if role_eq user.role platform_admin
      then give none
      else (tenant_of user.tenant_id >>= λ tenant. require_group (group_of tenant))

  abbrev pub is_group : Option Text → KcGroup → Bool
  is_group group_id group = equal_text group_id (some group.id)

  unfoldable pub leave_others : Text → Option Text → List KcGroup → Action W (Unit {0})
  leave_others id group_id [] = give tt
  leave_others id group_id (group ∷ groups) =
      when (not (is_group group_id group)) (call (kc.remove_user_from_group id group.id))
      >> leave_others id group_id groups

  abbrev pub join_group : Text → Option Text → List KcGroup → Action W (Unit {0})
  join_group id none current = give tt
  join_group id (some group_id) current =
      when (not (any (is_group (some group_id)) current)) (call (kc.add_user_to_group id group_id))

  unfoldable pub sync_groups : Text → Option Text → Action W (Unit {0})
  sync_groups id group_id = call (kc.get_user_groups id) >>= λ current.
      leave_others id group_id current >> join_group id group_id current

  unfoldable pub realm_roles : List Role → Action W (List Text)
  realm_roles [] = give []
  realm_roles (role ∷ roles) = call (kc.realm_role (role_name role)) >>= λ found.
      realm_roles roles >>= λ rest. give (found ∷ rest)

  abbrev pub roles_to_add : List Text → Role → List Role
  roles_to_add current role = if includes current (role_name role) then [] else role ∷ []

  abbrev pub roles_to_remove : List Text → Role → List Role
  roles_to_remove current role =
      select (λ r. not (role_eq r role) && includes current (role_name r)) all_roles

  unfoldable pub sync_roles : Text → User → Action W (Unit {0})
  sync_roles id user = do
    current ← call (kc.get_user_realm_roles id)
    add ← realm_roles (roles_to_add current user.role)
    remove ← realm_roles (roles_to_remove current user.role)
    call (kc.add_user_realm_roles id add)
    call (kc.remove_user_realm_roles id remove)

  abbrev pub delete_found : Option KcUser → Action W (Unit {0})
  delete_found none = give tt
  delete_found (some account) = call (kc.delete_user account.id)

  abbrev pub save_keycloak_id : ℕ → Option Text → Action W (Unit {0})
  save_keycloak_id id keycloak_id = attempt internal_error (set_keycloak_user_id id keycloak_id)

  unfoldable pub remove_user : User → Action W (Unit {0})
  remove_user user =
      (owned_account user >>= delete_found)
      >> when (is_some user.keycloak_user_id) (save_keycloak_id user.id none)

  -- The first and last name, taken over from the account where the row has none.
  abbrev pub names_of : User → Option KcUser → Option Text × Option Text
  names_of user none = (user.first_name, user.last_name)
  names_of user (some account) =
      (or_text user.first_name account.first_name, or_text user.last_name account.last_name)

  abbrev pub take_over_names : User → Option Text × Option Text → Action W (Unit {0})
  take_over_names user (first_name, last_name) =
      when
        (not (same_option first_name user.first_name) || not (same_option last_name user.last_name))
        (write (λ now. set_names user.id first_name last_name))

  -- `current` carries over what a new account has not got.
  abbrev pub desired : User → Option Text × Option Text → Text → Attributes → KcUser
  desired user (first_name, last_name) id attributes = record {
    id = id;
    username = user.username;
    email = user.email;
    first_name = first_name;
    last_name = last_name;
    enabled = user.enabled;
    email_verified = true;
    attributes = with_property user_marker (env.uuid_text user.id ∷ []) attributes;
  }

  abbrev pub differs : KcUser → KcUser → Bool
  differs account wanted =
      not (text_eq (env.to_lower account.email) (env.to_lower wanted.email))
      || not (same_option account.first_name wanted.first_name)
      || not (same_option account.last_name wanted.last_name)
      || not (same_bool account.enabled wanted.enabled)
      || not (same_bool account.email_verified wanted.email_verified)

  abbrev pub created_account : User → Option Text → Action W Text
  created_account user none = throw identity_conflict
  created_account user (some id) = assert_marker id user >> give id

  -- A new account has no id yet: Keycloak gives it.
  abbrev pub create_or_update : User → Option Text × Option Text → Option KcUser → Action W Text
  create_or_update user names none =
      call (kc.create_user (desired user names [] [])) >>= created_account user
  create_or_update user names (some account) =
      let wanted = desired user names account.id account.attributes in
      let unmarked = not (marks user (attr account.attributes user_marker)) in
      when (unmarked || differs account wanted)
        (call (kc.update_user wanted) >> when unmarked (assert_marker account.id user))
      >> give account.id

  abbrev pub set_password : Text → Option Text → Action W (Unit {0})
  set_password id none = give tt
  set_password id (some password) = call (kc.reset_password id password)

  unfoldable pub converge_user : User → Option Text → Action W (Unit {0})
  converge_user user password = do
    group_id ← desired_group_id user
    existing ← resolve_for_write user
    take_over_names user (names_of user existing)
    id ← create_or_update user (names_of user existing) existing
    set_password id password
    sync_groups id group_id
    sync_roles id user
    when (not user.enabled) (call (kc.logout_user id))
    when (not (equal_text (some id) user.keycloak_user_id)) (save_keycloak_id user.id (some id))

  unfoldable pub apply_user : User → Option Text → Action W (Unit {0})
  apply_user user password =
      if is_active user.status then converge_user user password else remove_user user

  abbrev pub apply_found : Option User → Action W (Unit {0})
  apply_found none = give tt
  apply_found (some user) = apply_user user none

  unfoldable pub sync_user : ℕ → Action W (Unit {0})
  sync_user user_id = query (find_user user_id) >>= apply_found
