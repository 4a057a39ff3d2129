-- ===== src/Users/Service.antt =====
-- services/control-plane/src/modules/users/users.service.ts. A view of a user is its row.
use multi_tenant_cloud_obser.Base.{ℕ, Bool, not, Option, none, some, List, Text, codes}
use multi_tenant_cloud_obser.Guards.{
  Role, platform_admin, Actor, Decision, denied, allowed, assert_can_create_user,
  assert_can_manage_user,
}
use multi_tenant_cloud_obser.Outbox.{Aggregate, mirror_targets}
use multi_tenant_cloud_obser.Store.{
  System, User, Tenant, Action, Reply, failed, done, Failure, domain, forbidden, not_found,
  conflict, give, throw, query, write, found_or, when, ◌>>=◌, ◌>>◌, transaction, enqueue_event,
}
use multi_tenant_cloud_obser.Keycloak.{Env}
use multi_tenant_cloud_obser.Users.{
  NewUser, Insertion, username_taken, email_taken, inserted, find_user, to_record,
  find_active_in_tenant, list_active_by_tenant, insert_user, set_enabled, mark_user_deleted,
}
use multi_tenant_cloud_obser.Users.Mirror.{apply_user, same_bool}

abbrev pub user_not_found : Failure
user_not_found = domain not_found (codes "user_not_found")

abbrev pub username_conflict : Failure
username_conflict = domain conflict (codes "username_taken")

abbrev pub email_conflict : Failure
email_conflict = domain conflict (codes "email_taken")

pub record CreateUserDto : Type 0 where
  pub username : Text
  pub email : Text
  pub first_name : Option Text
  pub last_name : Option Text
  pub role : Role
  pub password : Text

abbrev pub user_of_tenant : Tenant → CreateUserDto → NewUser
user_of_tenant tenant dto = record {
  tenant_id = some tenant.id;
  username = dto.username;
  email = dto.email;
  first_name = dto.first_name;
  last_name = dto.last_name;
  role = dto.role;
}

abbrev pub enqueue_user : {W : Type 0} → ℕ → Action W (Unit {0})
enqueue_user id = enqueue_event Aggregate.user id (mirror_targets Aggregate.user)

abbrev pub or_row : Option User → User → User
or_row none u = u
or_row (some v) u = v

abbrev pub guarded : {W : Type 0} → Decision (Unit {0}) → Action W (Unit {0})
guarded (denied d) = throw (domain forbidden (codes "forbidden"))
guarded (allowed u) = give tt

abbrev pub insertion_reply : {W : Type 0} → System W → Insertion → Reply User × System W
insertion_reply s username_taken = (failed username_conflict, s)
insertion_reply s email_taken = (failed email_conflict, s)
insertion_reply s (inserted u db) = (done u, record s { db = db })

abbrev pub by_valid_id : {W : Type 0} → Tenant → Option ℕ → Action W (Option User)
by_valid_id tenant none = give none
by_valid_id tenant (some id) = query (find_active_in_tenant tenant.id id)

unfoldable pub require_user : {W : Type 0} → Tenant → Option ℕ → Action W User
require_user tenant user_id = by_valid_id tenant user_id >>= found_or user_not_found

abbrev pub guard_target : {W : Type 0} → Actor → User → Action W (Unit {0})
guard_target actor target =
    query (λ db. assert_can_manage_user actor (to_record db target)) >>= guarded

abbrev pub change_enabled : {W : Type 0} → User → Option Bool → Action W (Unit {0})
change_enabled target none = give tt
change_enabled target (some enabled) =
    when (not (same_bool enabled target.enabled))
      (transaction (write (λ now. set_enabled target.id enabled) >> enqueue_user target.id))

unfoldable pub update_user : {W : Type 0} → Actor → Tenant → Option ℕ → Option Bool → Action W User
update_user actor tenant user_id enabled = require_user tenant user_id >>= λ target.
    guard_target actor target
    >> (change_enabled target enabled
        >> (query (find_user target.id) >>= λ found. give (or_row found target)))

unfoldable pub delete_user : {W : Type 0} → Actor → Tenant → Option ℕ → Action W (Unit {0})
delete_user actor tenant user_id = require_user tenant user_id >>= λ target.
    guard_target actor target
    >> transaction (write (mark_user_deleted target.id) >> enqueue_user target.id)

abbrev pub me : {W : Type 0} → Actor → Action W User
me actor = query (find_user actor.user_id) >>= found_or user_not_found

abbrev pub list_users : {W : Type 0} → Tenant → Action W (List User)
list_users tenant = query (list_active_by_tenant tenant.id)

abbrev pub get_user : {W : Type 0} → Tenant → Option ℕ → Action W User
get_user tenant user_id = require_user tenant user_id

module _ {W : Type 0} (env : Env W) where
  unfoldable pub insert : NewUser → Action W User
  insert user s = insertion_reply s (insert_user env user s.now s.db)

  unfoldable pub create_with_identity : NewUser → Text → Action W User
  create_with_identity user password = transaction (
      insert user >>= λ created.
      apply_user env created (some password)
      >> (enqueue_user created.id
          >> (query (find_user created.id) >>= λ found. give (or_row found created))))

  unfoldable pub create_user : Actor → Tenant → CreateUserDto → Action W User
  create_user actor tenant dto =
      guarded (assert_can_create_user actor dto.role)
      >> create_with_identity (user_of_tenant tenant dto) dto.password

  -- The first platform admin.
  abbrev pub create_platform_admin : CreateUserDto → Action W User
  create_platform_admin input =
      create_with_identity
        (record {
          tenant_id = none;
          username = env.to_lower input.username;
          email = env.to_lower input.email;
          first_name = input.first_name;
          last_name = input.last_name;
          role = platform_admin;
        })
        input.password
