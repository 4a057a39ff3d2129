-- ===== src/Platform/Once.antt =====
-- The bootstrap creates the first platform admin, once.
use multi_tenant_cloud_obser.Base.{
  ℕ, suc, ◌≡◌, refl, ap, subst, ◌∙◌, Bool, true, false, ◌&&◌, ◌||◌, List, [], ◌∷◌, ◌++◌, Option,
  some, Text, ltb, length, any, arith, if◌then◌else◌, is_blank, trim,
}
use multi_tenant_cloud_obser.Base.Tables.{count, update}
use multi_tenant_cloud_obser.Guards.{platform_admin, role_eq}
use multi_tenant_cloud_obser.Store.{
  Database, System, User, Action, done, give, query, ◌>>=◌, is_active,
}
use multi_tenant_cloud_obser.Store.Keeps.{
  Keeps-bind, Keeps-then, Keeps-give, Keeps-query, Keeps-enqueue_event, Keeps-eq-done, OnSuccess,
  OnSuccess-if, >>=-eq-done, transaction-eq-done, give-eq-done,
}
use multi_tenant_cloud_obser.Keycloak.{Env}
use multi_tenant_cloud_obser.Users.{
  NewUser, username_taken, email_taken, inserted, insert_user, new_user, has_username, has_email,
  set_names, set_keycloak_user_id, count_active_platform_admins, find_latest_by_username,
}
use multi_tenant_cloud_obser.Users.Keeps.{Keeps-apply_user}
use multi_tenant_cloud_obser.Users.Service.{
  insert, insertion_reply, create_with_identity, create_platform_admin,
}
use multi_tenant_cloud_obser.Platform.{
  PlatformAdmin, skipped, existing, created_admin, refused, bootstrap, create_if_missing,
  create_if_none, create_unless_known, is_refused, to_dto, min_password_length,
}

abbrev is_admin : User → Bool
is_admin u = role_eq u.role platform_admin && is_active u.status

HasAdmin : Database → Type 0
HasAdmin db = ltb 0 (count is_admin db.users) ≡ true

count-update_same :
    {A : Type 0} (q p : A → Bool) (f : A → A)
    → ((a : A) → q (f a) ≡ q a)
    → (xs : List A) → count q (update p f xs) ≡ count q xs
unfolding count update
count-update_same q p f h [] = refl
count-update_same q p f h (x ∷ xs) = ground (arith, h x, count-update_same q p f h xs)

count-append_met :
    {A : Type 0} (q : A → Bool) (xs : List A) (x : A)
    → q x ≡ true
    → count q (xs ++ (x ∷ [])) ≡ suc (count q xs)
unfolding count
count-append_met q [] x h = ground (arith, h)
count-append_met q (y ∷ xs) x h = ground (arith, count-append_met q xs x h)

HasAdmin-set_names :
    (id : ℕ) (f l : Option Text) (db : Database) → HasAdmin db → HasAdmin (set_names id f l db)
unfolding HasAdmin set_names
HasAdmin-set_names id f l db h =
    ap (ltb 0) (count-update_same is_admin _ _ (λ u. refl) db.users) ∙ h

HasAdmin-set_keycloak_user_id :
    (id : ℕ) (k : Option Text) (now : ℕ) (db : Database)
    → HasAdmin db
    → OnSuccess HasAdmin (set_keycloak_user_id id k now db)
unfolding HasAdmin set_keycloak_user_id
HasAdmin-set_keycloak_user_id id k now db h =
    OnSuccess-if HasAdmin _ _ _
      (λ e. ap (ltb 0) (count-update_same is_admin _ _ (λ u. refl) db.users) ∙ h)

zero_lt : (n : ℕ) → ltb 0 (suc n) ≡ true
zero_lt n = ground arith

-- A branch that gives another result was not taken.
if-eq-done :
    {W A : Type 0} (t : Bool) (a : A) (m : Action W A) (s s' : System W) (b : A)
    → (a ≡ b → ⊥)
    → (if t then give a else m) s ≡ (done b, s')
    → (t ≡ false) × (m s ≡ (done b, s'))
if-eq-done true a m s s' b n h = absurd (n (give-eq-done a b s s' h))
if-eq-done false a m s s' b n h = (refl, h)

module _ {W : Type 0} (env : Env W) where
  insert-HasAdmin :
      (user : NewUser) (s s' : System W) (u : User)
      → role_eq user.role platform_admin ≡ true
      → insert env user s ≡ (done u, s')
      → HasAdmin s'.db
  unfolding insert insert_user HasAdmin
  insert-HasAdmin user s s' u admin h =
      step (any (has_username env user.username) s.db.users)
        (any (has_email env user.email) s.db.users) _ _
        (ap (ltb 0) (
            count-append_met is_admin s.db.users (new_user s.db.next_id user s.now)
              (ground (arith, admin)))
          ∙ zero_lt (count is_admin s.db.users))
        h
    where
      step :
          (b c : Bool) (v : User) (db : Database)
          → HasAdmin db
          → insertion_reply s
              (if b then username_taken else if c then email_taken else inserted v db)
            ≡ (done u, s')
          → HasAdmin s'.db
      step true c v db k h = absurd cc
      step false true v db k h = absurd cc
      step false false v db k h = subst (λ r. HasAdmin r.1.db) h k

  create-HasAdmin :
      (user : NewUser) (password : Text) (s s' : System W) (u : User)
      → role_eq user.role platform_admin ≡ true
      → create_with_identity env user password s ≡ (done u, s')
      → HasAdmin s'.db
  unfolding create_with_identity HasAdmin
  create-HasAdmin user password s s' u admin h =
      let (created, t, first, rest) =
        >>=-eq-done (insert env user) _ s s' u (transaction-eq-done _ s s' u h) in
      Keeps-eq-done {P = HasAdmin}
        (Keeps-then
          (Keeps-apply_user HasAdmin HasAdmin-set_names HasAdmin-set_keycloak_user_id env created
            (some password))
          (Keeps-then (Keeps-enqueue_event _ _ _ (λ db o k. k))
            (Keeps-bind (Keeps-query _) (λ found. Keeps-give _))))
        rest (insert-HasAdmin user s t created admin first)

  unless_known-HasAdmin :
      (admin : PlatformAdmin) (name : Text) (known : Option User) (s s' : System W)
      → create_unless_known env admin name known s ≡ (done created_admin, s')
      → HasAdmin s'.db
  unfolding give
  unless_known-HasAdmin admin name known s s' h =
      let (u, t, created, h') =
        >>=-eq-done (create_platform_admin env (to_dto env admin name)) (λ u. give created_admin) s
          s' created_admin
          (if-eq-done (is_refused known) refused
            (create_platform_admin env (to_dto env admin name) >>= λ u. give created_admin) s s'
            created_admin (λ e. cc) h).1 in
      subst (λ x. HasAdmin x.db) (ap (λ r. r.1) h')
        (create-HasAdmin _ admin.password s t u refl created)

  if_none-HasAdmin :
      (admin : PlatformAdmin) (name : Text) (n : ℕ) (s s' : System W)
      → create_if_none env admin name n s ≡ (done created_admin, s')
      → HasAdmin s'.db
  if_none-HasAdmin admin name n s s' h =
      let look = query (find_latest_by_username env name) >>= create_unless_known env admin name in
      let rest =
        if (is_blank admin.email || ltb (length admin.password) min_password_length)
        then give refused
        else look in
      let (known, t, found, h') =
        >>=-eq-done (query (find_latest_by_username env name)) (create_unless_known env admin name)
          s s' created_admin
          (if-eq-done (is_blank admin.email || ltb (length admin.password) min_password_length)
            refused look s s' created_admin (λ e. cc)
            (if-eq-done (ltb 0 n) existing rest s s' created_admin (λ e. cc) h).1).1 in
      unless_known-HasAdmin admin name known t s' h'

  if_missing-HasAdmin :
      (admin : PlatformAdmin) (name : Text) (s s' : System W)
      → create_if_missing env admin name s ≡ (done created_admin, s')
      → HasAdmin s'.db
  unfolding create_if_missing
  if_missing-HasAdmin admin name s s' h =
      let (n, t, counted, h') =
        >>=-eq-done (query count_active_platform_admins) (create_if_none env admin name) s s'
          created_admin h in
      if_none-HasAdmin admin name n t s' h'

  finds_admin :
      (admin : PlatformAdmin) (name : Text) (s : System W)
      → HasAdmin s.db
      → create_if_missing env admin name s ≡ (done existing, s)
  unfolding create_if_missing ◌>>=◌ query give count_active_platform_admins HasAdmin
  finds_admin admin name s k = rw k refl

  -- After a bootstrap that created the platform admin, another one finds it and changes nothing.
  pub bootstrap_once :
      (admin : PlatformAdmin) (s s' : System W)
      → bootstrap env true admin s ≡ (done created_admin, s')
      → bootstrap env true admin s' ≡ (done existing, s')
  unfolding bootstrap
  bootstrap_once admin s s' h =
      let name = env.to_lower (trim admin.username) in
      let (named, h') =
        if-eq-done (is_blank name) skipped (create_if_missing env admin name) s s' created_admin
          (λ e. cc) h in
      rw named (finds_admin admin name s' (if_missing-HasAdmin admin name s s' h'))
