-- ===== src/Users/Unique.antt =====
-- No two active users share a username or an email, whatever the case of the letters.
use multi_tenant_cloud_obser.Base.{
  ℕ, suc, ◌≤◌, ◌≡◌, refl, sym, subst, Bool, true, false, ◌&&◌, Option, none, some, List, [], ◌∷◌,
  ◌++◌, Text, text_eq, text_eq_sound, any, arith, if◌then◌else◌, if_cases, inl, inr, Bool-cases,
}
use multi_tenant_cloud_obser.Base.Tables.{update, count}
use multi_tenant_cloud_obser.Guards.{Actor, Decision, denied, allowed}
use multi_tenant_cloud_obser.Store.{
  Database, System, User, Tenant, Action, transaction, rolled_back, is_active,
}
use multi_tenant_cloud_obser.Store.Keeps.{
  Keeps, OnSuccess, OnSuccess-if, Keeps-bind, Keeps-then, Keeps-give, Keeps-throw, Keeps-query,
  Keeps-write, Keeps-when, Keeps-found_or, Keeps-transaction, Keeps-enqueue_event,
}
use multi_tenant_cloud_obser.Keycloak.{Env}
use multi_tenant_cloud_obser.Users.{
  NewUser, username_taken, email_taken, inserted, new_user, insert_user, has_username, has_email,
  set_names, set_keycloak_user_id, set_enabled, mark_user_deleted, mark_tenant_users_deleted,
  delete_user_row,
}
use multi_tenant_cloud_obser.Users.Keeps.{Keeps-apply_user}
use multi_tenant_cloud_obser.Users.Mirror.{apply_user}
use multi_tenant_cloud_obser.Users.Service.{
  CreateUserDto, guarded, insertion_reply, by_valid_id, require_user, guard_target, change_enabled,
  update_user, delete_user, insert, create_with_identity, create_user, enqueue_user,
}

abbrev plus_if : Bool → ℕ → ℕ
plus_if b n = if b then suc n else n

plus_if_mono : (b c : Bool) (m n : ℕ) → (b ≡ true → c ≡ true) → m ≤ n → plus_if b m ≤ plus_if c n
plus_if_mono true true m n h k = omega (arith, k)
plus_if_mono true false m n h k = absurd (ground (arith, h refl))
plus_if_mono false true m n h k = omega (arith, k)
plus_if_mono false false m n h k = k

plus_if-zero : (b : Bool) (n : ℕ) → n ≡ 0 → plus_if b n ≤ 1
plus_if-zero true n h = omega (arith, h)
plus_if-zero false n h = omega (arith, h)

plus_if-false : (b : Bool) (n : ℕ) → b ≡ false → n ≤ 1 → plus_if b n ≤ 1
plus_if-false true n h k = absurd (ground (arith, h))
plus_if-false false n h k = k

-- An update that makes no further row meet a test.
count-update_le :
    {A : Type 0} (q p : A → Bool) (f : A → A)
    → ((a : A) → q (f a) ≡ true → q a ≡ true)
    → (xs : List A) → count q (update p f xs) ≤ count q xs
unfolding count update
count-update_le q p f h [] = omega arith
count-update_le q p f h (x ∷ xs) =
    plus_if_mono _ (q x) _ _
      (if_cases (λ y. q y ≡ true → q x ≡ true) (p x) (f x) x (λ e. h x) (λ e i. i))
      (count-update_le q p f h xs)

count-append_one :
    {A : Type 0} (q : A → Bool) (xs : List A) (x : A)
    → count q (xs ++ (x ∷ [])) ≡ plus_if (q x) (count q xs)
unfolding count
count-append_one q [] x = refl
count-append_one q (y ∷ xs) x = ground (arith, count-append_one q xs x)

count-none : {A : Type 0} (q : A → Bool) (xs : List A) → any q xs ≡ false → count q xs ≡ 0
unfolding count any
count-none q [] h = refl
count-none q (x ∷ xs) h = ground (arith, count-none q xs)

module _ {W : Type 0} (env : Env W) where
  -- At most one active user has the username, and at most one the email.
  unfoldable pub Distinct : Database → Type 0
  Distinct db =
      (text : Text)
      → (count (has_username env text) db.users ≤ 1) × (count (has_email env text) db.users ≤ 1)

  Distinct-update :
      (p : User → Bool) (f : User → User) (db : Database)
      → ((u : User) (t : Text)
          → (has_username env t (f u) ≡ true → has_username env t u ≡ true)
            × (has_email env t (f u) ≡ true → has_email env t u ≡ true))
      → Distinct db
      → Distinct (record db { users = update p f db.users })
  unfolding Distinct
  Distinct-update p f db h d t = (
    omega (arith, count-update_le (has_username env t) p f (λ u. (h u t).0) db.users, (d t).0),
    omega (arith, count-update_le (has_email env t) p f (λ u. (h u t).1) db.users, (d t).1),
  )

  Distinct-set_names :
      (id : ℕ) (f l : Option Text) (db : Database) → Distinct db → Distinct (set_names id f l db)
  unfolding set_names
  Distinct-set_names id f l db = Distinct-update _ _ db (λ u t. (λ h. h, λ h. h))

  Distinct-set_keycloak_user_id :
      (id : ℕ) (k : Option Text) (now : ℕ) (db : Database)
      → Distinct db
      → OnSuccess Distinct (set_keycloak_user_id id k now db)
  unfolding set_keycloak_user_id
  Distinct-set_keycloak_user_id id k now db d =
      OnSuccess-if Distinct _ _ _ (λ e. Distinct-update _ _ db (λ u t. (λ h. h, λ h. h)) d)

  Distinct-delete :
      (p : User → Bool) (now : ℕ) (db : Database)
      → Distinct db
      → Distinct (record db { users = update p (delete_user_row now) db.users })
  Distinct-delete p now db =
      Distinct-update p (delete_user_row now) db
        (λ u t. (λ h. absurd (ground arith), λ h. absurd (ground arith)))

  -- A row with a text that no active row has, counted by any text.
  one_more :
      (of : User → Text) (us : List User) (u : User) (t : Text)
      → any (λ v. is_active v.status && text_eq (env.to_lower (of v)) (env.to_lower (of u))) us
        ≡ false
      → count (λ v. is_active v.status && text_eq (env.to_lower (of v)) (env.to_lower t)) us ≤ 1
      → count
          (λ v. is_active v.status && text_eq (env.to_lower (of v)) (env.to_lower t))
          (us ++ (u ∷ []))
        ≤ 1
  one_more of us u t fresh few =
      elim (Bool-cases (text_eq (env.to_lower (of u)) (env.to_lower t))) [
        | inl e ↦
            let same = text_eq_sound (env.to_lower (of u)) (env.to_lower t) e in
            let zero_before = count-none _ us (
              subst
                (λ x. any (λ v. is_active v.status && text_eq (env.to_lower (of v)) x) us ≡ false)
                same fresh) in
            subst (λ n. n ≤ 1) (sym (count-append_one _ us u))
              (plus_if-zero (is_active u.status && text_eq (env.to_lower (of u)) (env.to_lower t)) _
                zero_before)
        | inr e ↦
            subst (λ n. n ≤ 1) (sym (count-append_one _ us u))
              (plus_if-false (is_active u.status && text_eq (env.to_lower (of u)) (env.to_lower t))
                _ (ground arith) few)
      ]

  Distinct-insert : (user : NewUser) → Keeps Distinct (insert env user)
  unfolding insert insert_user Distinct
  Distinct-insert user = record {
    kept = λ s d.
        step s (any (has_username env user.username) s.db.users)
          (any (has_email env user.email) s.db.users) _ _ d
          (λ h k t. (
            one_more (λ v. v.username) s.db.users (new_user s.db.next_id user s.now) t h (d t).0,
            one_more (λ v. v.email) s.db.users (new_user s.db.next_id user s.now) t k (d t).1,
          ));
  }
    where
      step :
          (s : System W) (b c : Bool) (u : User) (db : Database)
          → Distinct s.db
          → (b ≡ false → c ≡ false → Distinct db)
          → Distinct
              (insertion_reply s
                (if b then username_taken else if c then email_taken else inserted u db)).1.db
      step s true c u db d h = d
      step s false true u db d h = d
      step s false false u db d h = h refl refl

  Distinct-guarded : (d : Decision (Unit {0})) → Keeps {W = W} Distinct (guarded d)
  Distinct-guarded (denied d) = Keeps-throw _
  Distinct-guarded (allowed u) = Keeps-give _

  Distinct-require_user :
      (tenant : Tenant) (id : Option ℕ) → Keeps {W = W} Distinct (require_user tenant id)
  unfolding require_user
  Distinct-require_user tenant id = Keeps-bind (looked_up id) (λ o. Keeps-found_or _ o)
    where
      looked_up : (o : Option ℕ) → Keeps {W = W} Distinct (by_valid_id tenant o)
      looked_up none = Keeps-give _
      looked_up (some id) = Keeps-query _

  Distinct-guard_target :
      (actor : Actor) (target : User) → Keeps {W = W} Distinct (guard_target actor target)
  Distinct-guard_target actor target = Keeps-bind (Keeps-query _) Distinct-guarded

  Distinct-transaction :
      {A : Type 0} {m : Action W A} → Keeps Distinct m → Keeps Distinct (transaction m)
  unfolding Distinct rolled_back
  Distinct-transaction k = Keeps-transaction (λ before after d. d) k

  Distinct-enqueue_user : (id : ℕ) → Keeps {W = W} Distinct (enqueue_user id)
  unfolding Distinct
  Distinct-enqueue_user id = Keeps-enqueue_event _ _ _ (λ db o d. d)

  Distinct-create_user :
      (actor : Actor) (tenant : Tenant) (dto : CreateUserDto)
      → Keeps Distinct (create_user env actor tenant dto)
  unfolding create_user create_with_identity
  Distinct-create_user actor tenant dto = Keeps-then (Distinct-guarded _) (
      Distinct-transaction (
        Keeps-bind (Distinct-insert _) (λ created.
          Keeps-then
            (Keeps-apply_user Distinct Distinct-set_names Distinct-set_keycloak_user_id env created
              _)
            (Keeps-then (Distinct-enqueue_user _)
              (Keeps-bind (Keeps-query _) (λ found. Keeps-give _))))))

  Distinct-update_user :
      (actor : Actor) (tenant : Tenant) (id : Option ℕ) (enabled : Option Bool)
      → Keeps {W = W} Distinct (update_user actor tenant id enabled)
  unfolding update_user set_enabled
  Distinct-update_user actor tenant id enabled =
      Keeps-bind (Distinct-require_user tenant id) (λ target.
        Keeps-then (Distinct-guard_target actor target) (
          Keeps-then (changed target enabled) (Keeps-bind (Keeps-query _) (λ found. Keeps-give _))))
    where
      changed : (target : User) (o : Option Bool) → Keeps {W = W} Distinct (change_enabled target o)
      changed target none = Keeps-give tt
      changed target (some b) = Keeps-when _ (
          Distinct-transaction (
            Keeps-then (Keeps-write _ (λ now db. Distinct-update _ _ db (λ u t. (λ h. h, λ h. h))))
              (Distinct-enqueue_user _)))

  Distinct-delete_user :
      (actor : Actor) (tenant : Tenant) (id : Option ℕ)
      → Keeps {W = W} Distinct (delete_user actor tenant id)
  unfolding delete_user mark_user_deleted
  Distinct-delete_user actor tenant id = Keeps-bind (Distinct-require_user tenant id) (λ target.
      Keeps-then (Distinct-guard_target actor target) (
        Distinct-transaction
          (Keeps-then (Keeps-write _ (λ now. Distinct-delete _ now)) (Distinct-enqueue_user _))))

-- No operation on users, nor the cascade of a tenant's deletion, nor the mirror of a user, lets two active
-- users share a username or an email, compared without case.
pub users_Distinct :
    {W : Type 0} (env : Env W) (s : System W) (actor : Actor) (tenant : Tenant)
    (dto : CreateUserDto) (id : Option ℕ) (enabled : Option Bool) (user : User)
    (password : Option Text)
    → Distinct env s.db
    → Distinct env (create_user env actor tenant dto s).1.db
      × Distinct env (update_user actor tenant id enabled s).1.db
      × Distinct env (delete_user actor tenant id s).1.db
      × Distinct env (apply_user env user password s).1.db
      × Distinct env (mark_tenant_users_deleted tenant.id s.now s.db).1
unfolding mark_tenant_users_deleted
users_Distinct env s actor tenant dto id enabled user password d = (
  (Distinct-create_user env actor tenant dto).kept s d,
  (Distinct-update_user env actor tenant id enabled).kept s d,
  (Distinct-delete_user env actor tenant id).kept s d,
  (Keeps-apply_user (Distinct env) (Distinct-set_names env) (Distinct-set_keycloak_user_id env) env
        user password).kept
      s d,
  Distinct-delete env _ s.now s.db d,
)
