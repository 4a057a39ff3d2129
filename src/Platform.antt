-- ===== src/Platform.antt =====
-- services/control-plane/src/modules/platform/platform-bootstrap.service.ts and sync/resync.service.ts: the
-- first platform admin, and the safety net that announces every row.
pub mod Resync
mod Announces
mod Once
mod Tests
use multi_tenant_cloud_obser.Base.{
  ℕ, Bool, true, false, not, ◌&&◌, ◌||◌, Option, none, some, List, [], ltb, leb, length,
  if◌then◌else◌, Text, is_blank, trim,
}
use multi_tenant_cloud_obser.Guards.{Role, platform_admin, role_eq}
use multi_tenant_cloud_obser.Store.{Database, User, Action, give, query, ◌>>=◌, is_active}
use multi_tenant_cloud_obser.Keycloak.{Env}
use multi_tenant_cloud_obser.Users.{count_active_platform_admins, find_latest_by_username}
use multi_tenant_cloud_obser.Users.Service.{CreateUserDto, create_platform_admin}

abbrev pub min_password_length : ℕ
min_password_length = 12

pub data BootstrapOutcome : Type 0 where
  skipped existing created_admin refused busy : BootstrapOutcome

-- PLATFORM_ADMIN_* of the configuration.
pub record PlatformAdmin : Type 0 where
  pub username : Text
  pub email : Text
  pub password : Text
  pub first_name : Text
  pub last_name : Text

abbrev pub is_refused : Option User → Bool
is_refused none = false
is_refused (some known) = not (role_eq known.role platform_admin) || not (is_active known.status)

module _ {W : Type 0} (env : Env W) where
  abbrev pub to_dto : PlatformAdmin → Text → CreateUserDto
  to_dto admin username = record {
    username = username;
    email = admin.email;
    first_name = some admin.first_name;
    last_name = some admin.last_name;
    role = platform_admin;
    password = admin.password;
  }

  abbrev pub create_unless_known : PlatformAdmin → Text → Option User → Action W BootstrapOutcome
  create_unless_known admin username known =
      if is_refused known
      then give refused
      else (create_platform_admin env (to_dto admin username) >>= λ u. give created_admin)

  abbrev pub create_if_none : PlatformAdmin → Text → ℕ → Action W BootstrapOutcome
  create_if_none admin username count =
      if ltb 0 count
      then give existing
      else if is_blank admin.email || ltb (length admin.password) min_password_length
      then give refused
      else (query (find_latest_by_username env username) >>= create_unless_known admin username)

  unfoldable pub create_if_missing : PlatformAdmin → Text → Action W BootstrapOutcome
  create_if_missing admin username =
      query count_active_platform_admins >>= create_if_none admin username

  -- `acquired`: no other replica holds the lock.
  unfoldable pub bootstrap : Bool → PlatformAdmin → Action W BootstrapOutcome
  bootstrap acquired admin =
      let username = env.to_lower (trim admin.username) in
      if is_blank username
      then give skipped
      else if acquired
      then create_if_missing admin username
      else give busy
