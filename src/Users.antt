-- ===== src/Users.antt =====
-- services/control-plane/src/modules/users/user.repository.ts: the statements on the table of users. The
-- record of a user is its row; the tenant key that the query joins is read where it is used.
pub mod Mirror
pub mod Service
pub mod Keeps
mod Unique
mod Tests
use multi_tenant_cloud_obser.Base.{
  ℕ, suc, ◌+◌, Bool, true, false, not, ◌&&◌, ◌||◌, Option, none, some, List, [], ◌∷◌, ◌++◌, map,
  ◌==◌, if◌then◌else◌, any, Text, text_eq, leb, is_some,
}
use multi_tenant_cloud_obser.Base.Tables.{select, find, update, count}
use multi_tenant_cloud_obser.Guards.{Role, platform_admin, role_eq, UserRecord}
use multi_tenant_cloud_obser.Store.{
  Database, User, Tenant, active, deleted, is_active, coalesce, equal_text, equal_id,
}
use multi_tenant_cloud_obser.Keycloak.{Env}
use multi_tenant_cloud_obser.Agents.{tenant_by_id}

pub record NewUser : Type 0 where
  pub tenant_id : Option ℕ
  pub username : Text
  pub email : Text
  pub first_name : Option Text
  pub last_name : Option Text
  pub role : Role

abbrev pub find_user : ℕ → Database → Option User
find_user id db = find (λ u. u.id == id) db.users

abbrev pub key_of : Option Tenant → Option Text
key_of none = none
key_of (some t) = some t.tenant_key

abbrev pub joined_key : Database → Option ℕ → Option Text
joined_key db none = none
joined_key db (some tenant_id) = key_of (tenant_by_id db tenant_id)

-- The row with the key of its tenant, as the guards read it.
abbrev pub to_record : Database → User → UserRecord
to_record db u = record {
  id = u.id;
  keycloak_user_id = u.keycloak_user_id;
  username = u.username;
  email = u.email;
  role = u.role;
  tenant_id = u.tenant_id;
  tenant_key = joined_key db u.tenant_id;
  enabled = u.enabled;
}

abbrev pub record_or_none : Database → Option User → Option UserRecord
record_or_none db none = none
record_or_none db (some u) = some (to_record db u)

unfoldable pub find_active_by_keycloak_id : Database → Text → Option UserRecord
find_active_by_keycloak_id db id =
    record_or_none db
      (find (λ u. equal_text u.keycloak_user_id (some id) && is_active u.status) db.users)

abbrev pub is_active_of : ℕ → User → Bool
is_active_of tenant_id u = equal_id u.tenant_id tenant_id && is_active u.status

unfoldable pub find_active_in_tenant : ℕ → ℕ → Database → Option User
find_active_in_tenant tenant_id user_id db =
    find (λ u. is_active_of tenant_id u && u.id == user_id) db.users

unfoldable pub insert_oldest : User → List User → List User
insert_oldest u [] = u ∷ []
insert_oldest u (v ∷ vs) =
    let rest = insert_oldest u vs in if leb u.created_at v.created_at then u ∷ v ∷ vs else v ∷ rest

-- ORDER BY u.created_at.
unfoldable pub oldest_first : List User → List User
oldest_first [] = []
oldest_first (u ∷ us) = insert_oldest u (oldest_first us)

unfoldable pub list_active_by_tenant : ℕ → Database → List User
list_active_by_tenant tenant_id db = oldest_first (select (is_active_of tenant_id) db.users)

unfoldable pub count_active_platform_admins : Database → ℕ
count_active_platform_admins db =
    count (λ u. role_eq u.role platform_admin && is_active u.status) db.users

abbrev pub new_user : ℕ → NewUser → ℕ → User
new_user id user now = record {
  id = id;
  keycloak_user_id = none;
  tenant_id = user.tenant_id;
  username = user.username;
  email = user.email;
  first_name = user.first_name;
  last_name = user.last_name;
  role = user.role;
  enabled = true;
  grafana_user_id = none;
  status = active;
  created_at = now;
  deleted_at = none;
}

unfoldable pub set_enabled : ℕ → Bool → Database → Database
set_enabled id enabled db = record db {
  users = update (λ u. u.id == id) (λ u. record u { enabled = enabled }) db.users;
}

abbrev pub delete_user_row : ℕ → User → User
delete_user_row now u = record u { status = deleted; deleted_at = coalesce u.deleted_at now }

unfoldable pub mark_user_deleted : ℕ → ℕ → Database → Database
mark_user_deleted id now db = record db {
  users = update (λ u. u.id == id) (delete_user_row now) db.users;
}

-- The ids that changed, and the table.
unfoldable pub mark_tenant_users_deleted : ℕ → ℕ → Database → List ℕ × Database
mark_tenant_users_deleted tenant_id now db = (
  map (λ u. u.id) (select (is_active_of tenant_id) db.users),
  record db { users = update (is_active_of tenant_id) (delete_user_row now) db.users },
)

unfoldable pub set_names : ℕ → Option Text → Option Text → Database → Database
set_names id first_name last_name db = record db {
  users =
      update (λ u. u.id == id) (λ u. record u { first_name = first_name; last_name = last_name })
        db.users;
}

-- keycloak_user_id is unique.
unfoldable pub set_keycloak_user_id : ℕ → Option Text → ℕ → Database → Option (Unit {0} × Database)
set_keycloak_user_id id keycloak_id now db =
    if any (λ u. not (u.id == id) && equal_text u.keycloak_user_id keycloak_id) db.users
    then none
    else some (
      tt,
      record db {
        users =
            update (λ u. u.id == id) (λ u. record u { keycloak_user_id = keycloak_id }) db.users;
      },
    )

unfoldable pub set_grafana_user_id : ℕ → Option ℕ → Database → Database
set_grafana_user_id id grafana_id db = record db {
  users = update (λ u. u.id == id) (λ u. record u { grafana_user_id = grafana_id }) db.users;
}

unfoldable pub find_ids_by_tenant : ℕ → Database → List ℕ
find_ids_by_tenant tenant_id db =
    map (λ u. u.id) (select (λ u. equal_id u.tenant_id tenant_id) db.users)

unfoldable pub active_user_ids : List ℕ → Database → List ℕ
active_user_ids ids db =
    map (λ u. u.id) (select (λ u. is_active u.status && any (λ id. id == u.id) ids) db.users)

abbrev pub user_needs_sync : User → Bool
user_needs_sync u = is_active u.status || is_some u.keycloak_user_id || is_some u.grafana_user_id

unfoldable pub users_for_resync : Database → List ℕ
users_for_resync db = map (λ u. u.id) (oldest_first (select user_needs_sync db.users))

pub data Insertion : Type 0 where
  username_taken email_taken : Insertion
  inserted : User → Database → Insertion

module _ {W : Type 0} (env : Env W) where
  abbrev pub same_lower : Text → Text → Bool
  same_lower s t = text_eq (env.to_lower s) (env.to_lower t)

  abbrev pub has_username : Text → User → Bool
  has_username username u = is_active u.status && same_lower u.username username

  abbrev pub has_email : Text → User → Bool
  has_email email u = is_active u.status && same_lower u.email email

  unfoldable pub latest_of : List User → Option User
  latest_of [] = none
  latest_of (u ∷ us) = elim (latest_of us) [
    | none ↦ some u
    | some v ↦ if leb v.created_at u.created_at then some u else some v
  ]

  unfoldable pub find_latest_by_username : Text → Database → Option User
  find_latest_by_username username db =
      latest_of (select (λ u. same_lower u.username username) db.users)

  -- The unique indexes of the active users, in the order of their creation.
  unfoldable pub insert_user : NewUser → ℕ → Database → Insertion
  insert_user user now db =
      if any (has_username user.username) db.users
      then username_taken
      else if any (has_email user.email) db.users
      then email_taken
      else inserted (new_user db.next_id user now) (record db {
        users = db.users ++ (new_user db.next_id user now ∷ []);
        next_id = suc db.next_id;
      })
