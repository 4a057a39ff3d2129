-- ===== src/Gateway/Binding.antt =====
-- What proxy/access.ts and tenant/tenant.service.ts bind a caller to.
use multi_tenant_cloud_obser.Base.{
  ◌≡◌, refl, ◌⊎◌, inl, inr, Bool, true, false, not, ◌||◌, Option, none, some, List, [], ◌∷◌, map,
  arith, ◌==◌, if◌then◌else◌, any, Text, codes, text_eq, text_eq_sym, includes, is_blank,
  starts_with, All, if_cases, subst,
}
use multi_tenant_cloud_obser.Base.Tables.{select}
use multi_tenant_cloud_obser.Gateway.{Answer, returns, throws, forbidden, ◌>>=◌, ◌>>◌, require}
use multi_tenant_cloud_obser.Gateway.Access.{
  AuthUser, QueryAccess, TenantContext, resolve_query_access, resolve, tenant_groups, strip_slashes,
  only, bound, bound_context, requested, platform_admin, tenant_admin, viewer, observability_roles,
}

-- A tenant key: it has characters, and no slash in front.
abbrev pub IsKey : Text → Type 0
IsKey g = (is_blank g ≡ false) × (starts_with g (codes "/") ≡ false)

strip_slashes-starts_with : (t : Text) → starts_with (strip_slashes t) (codes "/") ≡ false
unfolding strip_slashes starts_with
strip_slashes-starts_with [] = refl
strip_slashes-starts_with (c ∷ t) =
    if_cases (λ r. starts_with r (codes "/") ≡ false) (c == b'/') (strip_slashes t) (c ∷ t)
      (λ h. strip_slashes-starts_with t) (λ h. ground arith)

groups_clean :
    (groups : List Text) → All IsKey (select (λ g. not (is_blank g)) (map strip_slashes groups))
unfolding select
groups_clean [] = tt
groups_clean (g ∷ groups) =
    if_cases (All IsKey) (not (is_blank (strip_slashes g)))
      (strip_slashes g ∷ select (λ g. not (is_blank g)) (map strip_slashes groups))
      (select (λ g. not (is_blank g)) (map strip_slashes groups))
      (λ h. ((ground arith, strip_slashes-starts_with g), groups_clean groups))
      (λ h. groups_clean groups)

-- The access of a platform admin, and that of a user of one tenant group.
abbrev pub Binds : AuthUser → QueryAccess → Type 0
Binds user a =
    ((includes user.roles platform_admin ≡ true)
      × (a ≡ record { platform_admin = true; tenant_id = none }))
    ⊎ ((includes user.roles platform_admin ≡ false)
        × (g : Text) × (a ≡ record { platform_admin = false; tenant_id = some g })
        × (tenant_groups user ≡ g ∷ [])
        × IsKey g)

bool_agree :
    (p t v p' t' v' ps vs ts rest : Bool)
    → p ≡ p'
    → t ≡ t'
    → v ≡ v'
    → (ps ≡ false → rest ≡ (vs || ts))
    → (p' || ps) ≡ false
    → ((p || (t || (v || false))) || rest) ≡ ((v' || vs) || (t' || ts))
bool_agree p t v p' t' v' ps vs ts rest ep et ev ih h = ground arith

roles_agree :
    (roles : List Text)
    → includes roles platform_admin ≡ false
    → any (includes observability_roles) roles
      ≡ (includes roles viewer || includes roles tenant_admin)
unfolding any includes
roles_agree [] h = refl
roles_agree (r ∷ roles) h =
    bool_agree (text_eq platform_admin r) (text_eq tenant_admin r) (text_eq viewer r)
      (text_eq r platform_admin) (text_eq r tenant_admin) (text_eq r viewer)
      (includes roles platform_admin) (includes roles viewer) (includes roles tenant_admin)
      (any (includes observability_roles) roles) (text_eq_sym platform_admin r)
      (text_eq_sym tenant_admin r) (text_eq_sym viewer r) (roles_agree roles) h

-- What the checks let through, of the two tests on the roles and the cleaned groups.
access_cases :
    (observer admin : Bool) (groups : List Text) (a : QueryAccess)
    → (require observer forbidden
        >> (if admin
            then returns (record { platform_admin = true; tenant_id = none })
            else (only groups >>= bound)))
      ≡ returns a
    → ((admin ≡ true) × (a ≡ record { platform_admin = true; tenant_id = none }))
      ⊎ ((admin ≡ false)
          × (g : Text) × (a ≡ record { platform_admin = false; tenant_id = some g })
          × (groups ≡ g ∷ []))
access_cases false admin groups a h = cc
access_cases true true groups a h = inl (refl, cc)
access_cases true false [] a h = cc
access_cases true false (g ∷ []) a h = inr (refl, g, cc, refl)
access_cases true false (g ∷ g' ∷ groups) a h = cc

-- Whoever gets access is a platform admin, who is unrestricted, or is bound to a tenant key: the
-- only group that is left once the slashes in front are cut and the empty groups are dropped.
pub resolve_query_access-Binds :
    (user : AuthUser) (a : QueryAccess) → resolve_query_access user ≡ returns a → Binds user a
unfolding resolve_query_access tenant_groups
resolve_query_access-Binds user a h =
    elim (access_cases (any (includes observability_roles) user.roles)
      (includes user.roles platform_admin) (tenant_groups user) a h) [
        | inl e ↦ inl e
        | inr (e, g, ea, eg) ↦
            inr (e, g, ea, eg, (subst (All IsKey) eg (groups_clean user.groups)).0)
      ]

-- The same answer as that of the other module.
abbrev pub to_context : Answer QueryAccess → Answer TenantContext
to_context (returns a) =
    returns (record { tenant_id = a.tenant_id; platform_admin = a.platform_admin })
to_context (throws e) = throws e

agree_cases :
    (admin observer observer' : Bool) (groups : List Text) (wanted : Option Text)
    → admin ≡ false
    → observer' ≡ observer
    → (if admin
        then returns (record { tenant_id = requested wanted; platform_admin = true })
        else (require observer forbidden >> (only groups >>= bound_context)))
      ≡ to_context (
          require observer' forbidden
          >> (if admin
              then returns (record { platform_admin = true; tenant_id = none })
              else (only groups >>= bound)))
agree_cases true o o' groups wanted h e = cc
agree_cases false true true [] wanted h e = refl
agree_cases false true true (g ∷ []) wanted h e = refl
agree_cases false true true (g ∷ g' ∷ groups) wanted h e = refl
agree_cases false false false groups wanted h e = refl
agree_cases false true false groups wanted h e = cc
agree_cases false false true groups wanted h e = cc

-- The two implementations of the check, that of the proxies and that of the tenant service, agree
-- on every caller who is not a platform admin, whatever tenant is asked for.
pub resolve_agree :
    (user : AuthUser) (wanted : Option Text)
    → includes user.roles platform_admin ≡ false
    → resolve user wanted ≡ to_context (resolve_query_access user)
unfolding resolve resolve_query_access
resolve_agree user wanted h =
    agree_cases (includes user.roles platform_admin)
      (includes user.roles viewer || includes user.roles tenant_admin)
      (any (includes observability_roles) user.roles) (tenant_groups user) wanted h
      (roles_agree user.roles h)
