-- ===== src/Users/Keeps.antt =====
-- What mirroring a user leaves as it is: a property of the tables that survives the two statements that
-- the mirror runs.
use multi_tenant_cloud_obser.Base.{ℕ, Option, none, some, List, [], ◌∷◌, Text}
use multi_tenant_cloud_obser.Guards.{Role}
use multi_tenant_cloud_obser.Store.{Database, User}
use multi_tenant_cloud_obser.Store.Keeps.{
  Keeps, OnSuccess, Keeps-bind, Keeps-then, Keeps-give, Keeps-throw, Keeps-call, Keeps-query,
  Keeps-write, Keeps-attempt, Keeps-when, Keeps-if,
}
use multi_tenant_cloud_obser.Keycloak.{Env, KcGroup, KcUser}
use multi_tenant_cloud_obser.Users.{set_names, set_keycloak_user_id}
use multi_tenant_cloud_obser.Users.Mirror.{
  stored_account_at, owner_of, adopt_marked, adopt_named, stored_or_named, resolve_for_write,
  stored_or_marked, owned_account, require_marker, assert_marker, tenant_of, require_group,
  desired_group_id, leave_others, join_group, sync_groups, realm_roles, sync_roles, delete_found,
  save_keycloak_id, remove_user, take_over_names, created_account, create_or_update, set_password,
  converge_user, apply_user,
}

module _ {ℓ} {W : Type 0} (P : Database → Type ℓ)
    (names_free : (id : ℕ) (first_name last_name : Option Text) (db : Database)
      → P db
      → P (set_names id first_name last_name db))
    (pointer_free : (id : ℕ) (keycloak_id : Option Text) (now : ℕ) (db : Database)
      → P db
      → OnSuccess P (set_keycloak_user_id id keycloak_id now db))
    (env : Env W) where
  Keeps-stored_account : (u : User) (o : Option Text) → Keeps P (stored_account_at env u o)
  Keeps-stored_account u none = Keeps-give _
  Keeps-stored_account u (some id) = Keeps-bind (Keeps-call _) (λ account. Keeps-give _)

  Keeps-owner_of : (o : Option ℕ) → Keeps P (owner_of env o)
  Keeps-owner_of none = Keeps-give _
  Keeps-owner_of (some id) = Keeps-query _

  Keeps-adopt_marked :
      (u : User) (account : KcUser) (o : Option Text) → Keeps P (adopt_marked env u account o)
  Keeps-adopt_marked u account none = Keeps-throw _
  Keeps-adopt_marked u account (some marker) =
      Keeps-if _ (Keeps-give _)
        (Keeps-bind (Keeps-owner_of _) (λ owner. Keeps-if _ (Keeps-throw _) (Keeps-give _)))

  Keeps-adopt_named : (u : User) (o : Option KcUser) → Keeps P (adopt_named env u o)
  Keeps-adopt_named u none = Keeps-give _
  Keeps-adopt_named u (some account) = Keeps-adopt_marked u account _

  Keeps-stored_or_named : (u : User) (o : Option KcUser) → Keeps P (stored_or_named env u o)
  Keeps-stored_or_named u (some account) = Keeps-give _
  Keeps-stored_or_named u none = Keeps-bind (Keeps-call _) (Keeps-adopt_named u)

  Keeps-resolve_for_write : (u : User) → Keeps P (resolve_for_write env u)
  unfolding resolve_for_write
  Keeps-resolve_for_write u = Keeps-bind (Keeps-stored_account u _) (Keeps-stored_or_named u)

  Keeps-stored_or_marked : (u : User) (o : Option KcUser) → Keeps P (stored_or_marked env u o)
  Keeps-stored_or_marked u (some account) = Keeps-give _
  Keeps-stored_or_marked u none = Keeps-bind (Keeps-call _) (λ account. Keeps-give _)

  Keeps-owned_account : (u : User) → Keeps P (owned_account env u)
  unfolding owned_account
  Keeps-owned_account u = Keeps-bind (Keeps-stored_account u _) (Keeps-stored_or_marked u)

  Keeps-require_marker : (u : User) (o : Option KcUser) → Keeps P (require_marker env u o)
  Keeps-require_marker u none = Keeps-throw _
  Keeps-require_marker u (some saved) = Keeps-if _ (Keeps-give _) (Keeps-throw _)

  Keeps-assert_marker : (id : Text) (u : User) → Keeps P (assert_marker env id u)
  unfolding assert_marker
  Keeps-assert_marker id u = Keeps-bind (Keeps-call _) (Keeps-require_marker u)

  Keeps-tenant_of : (o : Option ℕ) → Keeps P (tenant_of env o)
  Keeps-tenant_of none = Keeps-give _
  Keeps-tenant_of (some id) = Keeps-query _

  Keeps-require_group : (o : Option Text) → Keeps P (require_group env o)
  Keeps-require_group none = Keeps-throw _
  Keeps-require_group (some id) = Keeps-give _

  Keeps-desired_group_id : (u : User) → Keeps P (desired_group_id env u)
  unfolding desired_group_id
  Keeps-desired_group_id u =
      Keeps-if _ (Keeps-give _) (Keeps-bind (Keeps-tenant_of _) (λ tenant. Keeps-require_group _))

  Keeps-leave_others :
      (id : Text) (g : Option Text) (groups : List KcGroup) → Keeps P (leave_others env id g groups)
  unfolding leave_others
  Keeps-leave_others id g [] = Keeps-give _
  Keeps-leave_others id g (group ∷ groups) =
      Keeps-then (Keeps-when _ (Keeps-call _)) (Keeps-leave_others id g groups)

  Keeps-join_group :
      (id : Text) (g : Option Text) (groups : List KcGroup) → Keeps P (join_group env id g groups)
  Keeps-join_group id none groups = Keeps-give _
  Keeps-join_group id (some g) groups = Keeps-when _ (Keeps-call _)

  Keeps-sync_groups : (id : Text) (g : Option Text) → Keeps P (sync_groups env id g)
  unfolding sync_groups
  Keeps-sync_groups id g =
      Keeps-bind (Keeps-call _)
        (λ current. Keeps-then (Keeps-leave_others id g current) (Keeps-join_group id g current))

  Keeps-realm_roles : (roles : List Role) → Keeps P (realm_roles env roles)
  unfolding realm_roles
  Keeps-realm_roles [] = Keeps-give _
  Keeps-realm_roles (role ∷ roles) =
      Keeps-bind (Keeps-call _)
        (λ found. Keeps-bind (Keeps-realm_roles roles) (λ rest. Keeps-give _))

  Keeps-sync_roles : (id : Text) (u : User) → Keeps P (sync_roles env id u)
  unfolding sync_roles
  Keeps-sync_roles id u = Keeps-bind (Keeps-call _) (λ current.
      Keeps-bind (Keeps-realm_roles _) (λ add.
        Keeps-bind (Keeps-realm_roles _) (λ remove. Keeps-then (Keeps-call _) (Keeps-call _))))

  Keeps-save_keycloak_id : (id : ℕ) (k : Option Text) → Keeps P (save_keycloak_id env id k)
  Keeps-save_keycloak_id id k = Keeps-attempt _ _ (pointer_free id k)

  Keeps-remove_user : (u : User) → Keeps P (remove_user env u)
  unfolding remove_user
  Keeps-remove_user u =
      Keeps-then (Keeps-bind (Keeps-owned_account u) deleted)
        (Keeps-when _ (Keeps-save_keycloak_id u.id none))
    where
      deleted : (o : Option KcUser) → Keeps P (delete_found env o)
      deleted none = Keeps-give tt
      deleted (some account) = Keeps-call _

  Keeps-take_over_names :
      (u : User) (names : Option Text × Option Text) → Keeps P (take_over_names env u names)
  Keeps-take_over_names u (f, l) = Keeps-when _ (Keeps-write _ (λ now. names_free u.id f l))

  Keeps-create_or_update :
      (u : User) (names : Option Text × Option Text) (o : Option KcUser)
      → Keeps P (create_or_update env u names o)
  Keeps-create_or_update u (f, l) none = Keeps-bind (Keeps-call _) created
    where
      created : (o : Option Text) → Keeps P (created_account env u o)
      created none = Keeps-throw _
      created (some id) = Keeps-then (Keeps-assert_marker id u) (Keeps-give _)
  Keeps-create_or_update u (f, l) (some account) =
      Keeps-then (Keeps-when _ (Keeps-then (Keeps-call _) (Keeps-when _ (Keeps-assert_marker _ u))))
        (Keeps-give _)

  Keeps-set_password : (id : Text) (o : Option Text) → Keeps P (set_password env id o)
  Keeps-set_password id none = Keeps-give tt
  Keeps-set_password id (some p) = Keeps-call _

  Keeps-converge_user : (u : User) (password : Option Text) → Keeps P (converge_user env u password)
  unfolding converge_user
  Keeps-converge_user u password = Keeps-bind (Keeps-desired_group_id u) (λ group_id.
      Keeps-bind (Keeps-resolve_for_write u) (λ existing. Keeps-then (Keeps-take_over_names u _) (
        Keeps-bind (Keeps-create_or_update u _ existing) (λ id.
          Keeps-then (Keeps-set_password id password) (
            Keeps-then (Keeps-sync_groups id group_id) (
              Keeps-then (Keeps-sync_roles id u) (
                Keeps-then (Keeps-when _ (Keeps-call _))
                  (Keeps-when _ (Keeps-save_keycloak_id u.id (some id))))))))))

  -- Mirroring a user.
  pub Keeps-apply_user : (u : User) (password : Option Text) → Keeps P (apply_user env u password)
  unfolding apply_user
  Keeps-apply_user u password = Keeps-if _ (Keeps-converge_user u password) (Keeps-remove_user u)
