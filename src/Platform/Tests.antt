-- ===== src/Platform/Tests.antt =====
-- The bootstrap and the resync on concrete inputs.
use multi_tenant_cloud_obser.Base.{
  ℕ, ◌≡◌, refl, true, false, [], codes, text_eq, includes, any, trim, trim_start, Memᴰ,
}
use multi_tenant_cloud_obser.Base.Tables.{find, update, select, count}
use multi_tenant_cloud_obser.Outbox.{tenant, keycloak, mirror_targets}
use multi_tenant_cloud_obser.Store.{
  System, done, give, throw, query, execute, call, ◌>>=◌, ◌>>◌, when, attempt, transaction,
  enqueue_event,
}
use multi_tenant_cloud_obser.Store.Announced.{Waits}
use multi_tenant_cloud_obser.Keycloak.{property, with_property}
use multi_tenant_cloud_obser.Keycloak.Sample.{env, system, database, acme}
use multi_tenant_cloud_obser.Users.{
  count_active_platform_admins, latest_of, find_latest_by_username, insert_user,
  set_keycloak_user_id,
}
use multi_tenant_cloud_obser.Users.Mirror.{
  resolve_for_write, assert_marker, desired_group_id, leave_others, sync_groups, realm_roles,
  sync_roles, converge_user, apply_user,
}
use multi_tenant_cloud_obser.Users.Service.{insert, create_with_identity}
use multi_tenant_cloud_obser.Platform.{
  PlatformAdmin, existing, created_admin, bootstrap, create_if_missing,
}
use multi_tenant_cloud_obser.Platform.Resync.{resync}
use multi_tenant_cloud_obser.Platform.Announces.{of_tenant, resync-Waits}
use multi_tenant_cloud_obser.Platform.Once.{bootstrap_once}

abbrev root : PlatformAdmin
root = record {
  username = codes "root";
  email = codes "r@x";
  password = codes "correct horse";
  first_name = codes "R";
  last_name = codes "T";
}

abbrev empty : System ℕ
empty = record system { db = record database { users = [] } }

abbrev with_root : System ℕ
with_root = (bootstrap env true root empty).1

first_bootstrap : bootstrap env true root empty ≡ (done created_admin, with_root)
unfolding bootstrap create_if_missing give throw query execute call ◌>>=◌ ◌>>◌ when attempt
    transaction enqueue_event find update select count any text_eq includes trim trim_start property
    with_property count_active_platform_admins latest_of find_latest_by_username insert_user
    set_keycloak_user_id resolve_for_write assert_marker desired_group_id leave_others sync_groups
    realm_roles sync_roles converge_user apply_user insert create_with_identity
first_bootstrap = refl

bootstrap_once_example : bootstrap env true root with_root ≡ (done existing, with_root)
bootstrap_once_example = bootstrap_once env root empty with_root first_bootstrap

resync-Waits_example :
    Waits
      (record { target = keycloak; aggregate_type = tenant; aggregate_id = 1 })
      (resync env false [] system).1.1.db
unfolding mirror_targets
resync-Waits_example =
    resync-Waits env [] system
      (record { target = keycloak; aggregate_type = tenant; aggregate_id = 1 })
      (of_tenant {a = acme} (Memᴰ.head refl) refl (Memᴰ.head refl))
