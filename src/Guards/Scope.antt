-- ===== src/Guards/Scope.antt =====
-- What the guards of the control plane let through.
use multi_tenant_cloud_obser.Base.{
  ◌≡◌, refl, ap, subst, ◌⊎◌, inl, inr, Bool, true, false, not, ◌&&◌, Option, none, some, List,
  if◌then◌else◌, any, Text, ==_iff, ℕ,
}
use multi_tenant_cloud_obser.Guards.{
  Role, role_eq, Actor, UserRecord, TenantRecord, Denial, Decision, denied, allowed, and_then,
  is_platform_admin, bearer_token, Route, to_actor, identify, check_roles, authenticate, auth_guard,
  is_active, same_tenant, check_tenant, look_up, tenant_scope_guard,
}

-- The caller that a route's guard lets through: the user of the verified token, who is registered and
-- enabled, and whose role the route lists.
abbrev pub IsCaller :
    (Text → Option Text) → (Text → Option UserRecord) → Route → Option Text → Actor → Type 0
IsCaller verify find route header actor =
    (token : Text) × (sub : Text) × (user : UserRecord) × (keycloak_id : Text) × (roles : List Role)
    × (bearer_token header ≡ some token)
    × (verify token ≡ some sub)
    × (find sub ≡ some user)
    × (user.keycloak_user_id ≡ some keycloak_id)
    × (user.enabled ≡ true)
    × (actor ≡ to_actor user keycloak_id)
    × (route.roles ≡ some roles)
    × (any (role_eq actor.role) roles ≡ true)

and_then-eq-allowed {ℓ κ} :
    {A : Type ℓ} {B : Type κ} (d : Decision A) (f : A → Decision B) (b : B)
    → and_then d f ≡ allowed b
    → (a : A) × (d ≡ allowed a) × (f a ≡ allowed b)
and_then-eq-allowed (denied d) f b h = cc
and_then-eq-allowed (allowed a) f b h = (a, refl, h)

authenticate_lem :
    (verify : Text → Option Text) (token : Option Text) (sub : Text)
    → authenticate verify token ≡ allowed sub
    → (t : Text) × (token ≡ some t) × (verify t ≡ some sub)
authenticate_lem verify none sub h = cc
authenticate_lem verify (some t) sub h = (t, refl, verified (verify t) h)
  where
    verified :
        (o : Option Text)
        → elim o [ none ↦ denied Denial.unauthenticated | some s ↦ allowed s ] ≡ allowed sub
        → o ≡ some sub
    verified none h' = cc
    verified (some s) h' = cc

identify_lem :
    (found : Option UserRecord) (actor : Actor)
    → identify found ≡ allowed actor
    → (user : UserRecord) × (keycloak_id : Text) × (found ≡ some user)
      × (user.keycloak_user_id ≡ some keycloak_id)
      × (user.enabled ≡ true)
      × (actor ≡ to_actor user keycloak_id)
identify_lem none actor h = cc
identify_lem (some user) actor h = known user.keycloak_user_id user.enabled refl refl h
  where
    known :
        (o : Option Text) (b : Bool)
        → user.keycloak_user_id ≡ o
        → user.enabled ≡ b
        → elim o [
          | none ↦ denied Denial.not_registered
          | some k ↦ if b then allowed (to_actor user k) else denied Denial.account_disabled
        ]
          ≡ allowed actor
        → (u : UserRecord) × (k : Text) × (some user ≡ some u)
          × (u.keycloak_user_id ≡ some k)
          × (u.enabled ≡ true)
          × (actor ≡ to_actor u k)
    known none b eo eb h' = cc
    known (some k) false eo eb h' = cc
    known (some k) true eo eb h' = (user, k, refl, eo, eb, cc)

check_roles_lem :
    (roles : Option (List Role)) (actor : Actor) (out : Option Actor)
    → check_roles roles actor ≡ allowed out
    → (listed : List Role) × (roles ≡ some listed)
      × (any (role_eq actor.role) listed ≡ true)
      × (out ≡ some actor)
check_roles_lem none actor out h = cc
check_roles_lem (some listed) actor out h = permitted (any (role_eq actor.role) listed) refl h
  where
    permitted :
        (b : Bool)
        → any (role_eq actor.role) listed ≡ b
        → (if b then allowed (some actor) else denied Denial.forbidden) ≡ allowed out
        → (l : List Role) × (some listed ≡ some l)
          × (any (role_eq actor.role) l ≡ true)
          × (out ≡ some actor)
    permitted false e h' = cc
    permitted true e h' = (listed, refl, e, cc)

-- The guard of a route lets a request through without a caller only if the route is public, and else
-- only for the enabled, registered user of the verified token whose role the route lists.
pub auth_guard-IsCaller :
    (verify : Text → Option Text) (find : Text → Option UserRecord) (route : Route)
    (header : Option Text) (out : Option Actor)
    → auth_guard verify find route header ≡ allowed out
    → ((route.is_public ≡ true) × (out ≡ none))
      ⊎ ((route.is_public ≡ false)
          × (actor : Actor) × (out ≡ some actor)
          × IsCaller verify find route header actor)
unfolding auth_guard
auth_guard-IsCaller verify find route header out h = public_or_not route.is_public refl h
  where
    public_or_not :
        (b : Bool)
        → route.is_public ≡ b
        → (if b
            then allowed none
            else and_then
                (authenticate verify (bearer_token header))
                (λ sub. and_then (identify (find sub)) (check_roles route.roles)))
          ≡ allowed out
        → ((route.is_public ≡ true) × (out ≡ none))
          ⊎ ((route.is_public ≡ false)
              × (actor : Actor) × (out ≡ some actor)
              × IsCaller verify find route header actor)
    public_or_not true e h' = inl (e, cc)
    public_or_not false e h' =
        let (sub, ea, h1) =
          and_then-eq-allowed (authenticate verify (bearer_token header)) _ out h' in
        let (token, et, ev) = authenticate_lem verify (bearer_token header) sub ea in
        let (actor, ei, h2) = and_then-eq-allowed (identify (find sub)) _ out h1 in
        let (user, kid, ef, ek, en, eact) = identify_lem (find sub) actor ei in
        let (roles, er, listed, eout) = check_roles_lem route.roles actor out h2 in
        inr (e, actor, eout, (token, sub, user, kid, roles, et, ev, ef, ek, en, eact, er, listed))

-- On a route with the tenant scope the tenant is found and active, and it is the caller's own unless
-- the caller is a platform admin.
pub tenant_scope_guard_confines :
    (find_by_key : Text → Option TenantRecord) (route : Route) (actor : Actor)
    (out : Option TenantRecord)
    → route.scoped ≡ true
    → tenant_scope_guard find_by_key route (some actor) ≡ allowed out
    → (tenant : TenantRecord) × (out ≡ some tenant)
      × (look_up find_by_key route.tenant_param ≡ some tenant)
      × (is_active tenant.status ≡ true)
      × ((is_platform_admin actor ≡ true) ⊎ (actor.tenant_id ≡ some tenant.id))
unfolding tenant_scope_guard
tenant_scope_guard_confines find_by_key route actor out scoped h =
    checked (look_up find_by_key route.tenant_param) (
      subst
        (λ b.
          (if not b
            then allowed none
            else check_tenant actor (look_up find_by_key route.tenant_param))
          ≡ allowed out)
        scoped h)
  where
    own : (o : Option ℕ) (id : ℕ) → same_tenant o id ≡ true → o ≡ some id
    own none id e = cc
    own (some t) id e = ap (λ x. some x) ((==_iff t id).0 e)

    admitted :
        (a p s : Bool) (tenant : TenantRecord)
        → (if not a
            then denied Denial.tenant_not_found
            else if not p && not s
            then denied Denial.forbidden
            else allowed (some tenant))
          ≡ allowed out
        → (a ≡ true) × ((p ≡ true) ⊎ (s ≡ true)) × (out ≡ some tenant)
    admitted false p s tenant h' = cc
    admitted true true s tenant h' = (refl, inl refl, cc)
    admitted true false true tenant h' = (refl, inr refl, cc)
    admitted true false false tenant h' = cc

    checked :
        (found : Option TenantRecord)
        → check_tenant actor found ≡ allowed out
        → (tenant : TenantRecord) × (out ≡ some tenant)
          × (found ≡ some tenant)
          × (is_active tenant.status ≡ true)
          × ((is_platform_admin actor ≡ true) ⊎ (actor.tenant_id ≡ some tenant.id))
    checked none h' = cc
    checked (some tenant) h' =
        let (alive, whose, same) =
          admitted (is_active tenant.status) (is_platform_admin actor)
            (same_tenant actor.tenant_id tenant.id) tenant h' in
        (
          tenant,
          same,
          refl,
          alive,
          elim whose [ inl p ↦ inl p | inr s ↦ inr (own actor.tenant_id tenant.id s) ],
        )
