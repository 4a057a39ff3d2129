-- ===== src/Users/Tests.antt =====
-- Users on concrete inputs.
use multi_tenant_cloud_obser.Base.{ℕ, false, none, some, [], codes, arith}
use multi_tenant_cloud_obser.Base.Tables.{count}
use multi_tenant_cloud_obser.Guards.{viewer}
use multi_tenant_cloud_obser.Store.{System}
use multi_tenant_cloud_obser.Keycloak.Sample.{env, system, database, acme, admin, ann}
use multi_tenant_cloud_obser.Users.{mark_tenant_users_deleted}
use multi_tenant_cloud_obser.Users.Mirror.{apply_user}
use multi_tenant_cloud_obser.Users.Service.{CreateUserDto, create_user, update_user, delete_user}
use multi_tenant_cloud_obser.Users.Unique.{Distinct, users_Distinct}

abbrev eve : CreateUserDto
eve = record {
  username = codes "eve";
  email = codes "e";
  first_name = none;
  last_name = none;
  role = viewer;
  password = codes "p";
}

abbrev no_users : System ℕ
no_users = record system { db = record database { users = [] } }

nobody-Distinct : Distinct env no_users.db
unfolding Distinct count
nobody-Distinct text = (omega arith, omega arith)

users_Distinct_example :
    Distinct env (create_user env admin acme eve no_users).1.db
    × Distinct env (update_user admin acme (some 2) (some false) no_users).1.db
    × Distinct env (delete_user admin acme (some 2) no_users).1.db
    × Distinct env (apply_user env ann none no_users).1.db
    × Distinct env (mark_tenant_users_deleted 1 100 no_users.db).1
users_Distinct_example =
    users_Distinct env no_users admin acme eve (some 2) (some false) ann none nobody-Distinct
