-- ===== src/Gateway/Reach.antt =====
-- proxy/victoriametrics.controller.ts and proxy/opensearch.controller.ts: what a caller reaches.
use multi_tenant_cloud_obser.Base.{
  ◌≡◌, refl, sym, ap, subst, ◌⊎◌, inl, inr, Bool, true, false, not, ◌&&◌, List, [], ◌∷◌, ◌++◌, map,
  ◌==◌, if◌then◌else◌, Text, codes, includes, cut_first, starts_with, has_unit, ◌∙◌,
}
use multi_tenant_cloud_obser.Gateway.{
  Answer, returns, forbidden, internal, ◌>>=◌, ◌>>◌, require, required_lem, >>=-eq-returns,
}
use multi_tenant_cloud_obser.Gateway.Access.{
  AuthUser, QueryAccess, resolve_query_access, tenant_groups, only, platform_admin,
}
use multi_tenant_cloud_obser.Gateway.Binding.{Binds, IsKey, resolve_query_access-Binds}
use multi_tenant_cloud_obser.Gateway.Filter.{Runtime, one}
use multi_tenant_cloud_obser.Gateway.Search.{Request, read_methods, to_upper, enforce}
use multi_tenant_cloud_obser.Gateway.Endpoint.{IsConfinedAt, KeepsNames, enforce_confines_endpoint}
use multi_tenant_cloud_obser.Gateway.SafePath.{
  UrlParser, assert_safe_relative_path, resolve_downstream_path, pathname,
}
use multi_tenant_cloud_obser.Gateway.Targets.{
  is_numeric, account_ids, multitenant, tenant_segment, tenant_prefix, required_prefix, client_path,
  metrics_target, logs_target,
}

starts_with-append :
    (s t prefix : Text) → starts_with s prefix ≡ true → starts_with (s ++ t) prefix ≡ true
unfolding starts_with
starts_with-append s t [] h = refl
starts_with-append [] t (p ∷ prefix) h = cc
starts_with-append (c ∷ s) t (p ∷ prefix) h =
    both (c == p) (starts_with s prefix) (starts_with (s ++ t) prefix)
      (starts_with-append s t prefix) h
  where
    both : (b r r' : Bool) → (r ≡ true → r' ≡ true) → (b && r) ≡ true → (b && r') ≡ true
    both true r r' f h' = f h'
    both false r r' f h' = cc

resolve_downstream_path_lem :
    (p : UrlParser) (target prefix out : Text)
    → resolve_downstream_path p target prefix ≡ returns out
    → (assert_safe_relative_path target ≡ returns tt)
      × (starts_with out prefix ≡ true)
      × (out ≡ pathname p target ++ p.search target)
unfolding resolve_downstream_path
resolve_downstream_path_lem p target prefix out h =
    let (u, safe, h1) = >>=-eq-returns (assert_safe_relative_path target) _ h in
    let (under, h2) = required_lem (starts_with (pathname p target) prefix) forbidden _ out h1 in
    (
      safe,
      subst (λ o. starts_with o prefix ≡ true) (unreturned _ _ h2)
          (starts_with-append (pathname p target) (p.search target) prefix under),
      sym (unreturned _ _ h2),
    )
  where
    unreturned : (a b : Text) → ◌≡◌ {A = Answer Text} (returns a) (returns b) → a ≡ b
    unreturned a b e = cc

-- The part of the metrics that a caller may read: all of them for a platform admin, else those of the
-- one account in the caller's token.
abbrev pub IsSegmentOf : AuthUser → Text → Type 0
IsSegmentOf user segment =
    ((includes user.roles platform_admin ≡ true) × (segment ≡ multitenant))
    ⊎ ((includes user.roles platform_admin ≡ false)
        × (account_ids user ≡ segment ∷ [])
        × (is_numeric segment ≡ true))

segment_cases :
    (admin : Bool) (accounts : List Text) (segment : Text)
    → (if admin
        then returns multitenant
        else (only accounts >>= λ a. (require (is_numeric a) internal >> returns a)))
      ≡ returns segment
    → ((admin ≡ true) × (segment ≡ multitenant))
      ⊎ ((admin ≡ false) × (accounts ≡ segment ∷ []) × (is_numeric segment ≡ true))
segment_cases true accounts segment h = inl (refl, cc)
segment_cases false [] segment h = cc
segment_cases false (a ∷ b ∷ accounts) segment h = cc
segment_cases false (a ∷ []) segment h =
    let (numeric, e) = required_lem (is_numeric a) internal (returns a) segment h in
    inr (refl, cc, subst (λ s. is_numeric s ≡ true) (unreturned a segment e) numeric)
  where
    unreturned : (x y : Text) → ◌≡◌ {A = Answer Text} (returns x) (returns y) → x ≡ y
    unreturned x y e = cc

tenant_segment-IsSegmentOf :
    (user : AuthUser) (access : QueryAccess) (segment : Text)
    → Binds user access
    → tenant_segment user access ≡ returns segment
    → IsSegmentOf user segment
unfolding tenant_segment
tenant_segment-IsSegmentOf user access segment (inl (role, e)) h =
    elim (segment_cases access.platform_admin (account_ids user) segment h) [
      | inl (admin, s) ↦ inl (role, s)
      | inr (admin, accounts, numeric) ↦ cc (ap (λ a. a.platform_admin) e, admin)
    ]
tenant_segment-IsSegmentOf user access segment (inr (role, g, e, groups, key)) h =
    elim (segment_cases access.platform_admin (account_ids user) segment h) [
      | inl (admin, s) ↦ cc (ap (λ a. a.platform_admin) e, admin)
      | inr (admin, accounts, numeric) ↦ inr (role, accounts, numeric)
    ]

-- A query of metrics that is sent on only reads, and its path, as the URL parser gives it and with
-- the query behind it, stands under the query API of what the caller may read: of all tenants for a
-- platform admin, else of the one numeric account in the caller's token.
pub metrics_target_confined :
    (p : UrlParser) (user : AuthUser) (method original_url target : Text)
    → metrics_target p user method original_url ≡ returns target
    → (includes read_methods (map to_upper method) ≡ true)
      × (segment : Text) × IsSegmentOf user segment
      × (starts_with target (required_prefix segment) ≡ true)
unfolding metrics_target
metrics_target_confined p user method original_url target h =
    let client_path = cut_first original_url (codes "/query/victoriametrics") in
    let (reads, h1) =
      required_lem (includes read_methods (map to_upper method)) forbidden _ target h in
    let (api, h2) =
      required_lem (starts_with client_path (codes "/api/v1/")) forbidden _ target h1 in
    let (user_api, h3) =
      required_lem (not (starts_with client_path (codes "/api/v1/admin/"))) forbidden _ target h2 in
    let (access, ea, h4) = >>=-eq-returns (resolve_query_access user) _ h3 in
    let (segment, es, h5) = >>=-eq-returns (tenant_segment user access) _ h4 in
    (
      reads,
      segment,
      tenant_segment-IsSegmentOf user access segment (resolve_query_access-Binds user access ea) es,
      (resolve_downstream_path_lem p (tenant_prefix segment ++ client_path)
          (required_prefix segment) target h5).1,
    )

-- A query of logs of a caller who is no platform admin, whose target starts with a slash and has no
-- fragment, once it is sent on, where the URL parser encodes no small letter, underscore or slash: its
-- tenant is the one tenant key in the caller's token, the path is what the URL parser makes of the
-- client's path, which is safe, and it is the path of a confined search, of confined searches or of
-- metadata, of which the body is sent, as a GET or a POST.
pub logs_target_confined :
    (p : UrlParser) (rt : Runtime) (user : AuthUser) (req : Request) (t target : Text)
    (out : Request)
    → KeepsNames p
    → rt.is_zero one ≡ false
    → includes user.roles platform_admin ≡ false
    → client_path req ≡ b'/' ∷ t
    → has_unit b'#' (client_path req) ≡ false
    → logs_target p rt user req ≡ returns (target, out)
    → (tenant : Text) × (tenant_groups user ≡ tenant ∷ [])
      × IsKey tenant
      × (path : Text) × (target ≡ path ++ p.search (client_path req))
      × (path ≡ pathname p (client_path req))
      × IsConfinedAt rt tenant path req out
      × (assert_safe_relative_path (client_path req) ≡ returns tt)
unfolding logs_target
logs_target_confined p rt user req t target out names one_counts no_admin slash no_fragment h =
    let (access, ea, h1) = >>=-eq-returns (resolve_query_access user) _ h in
    let (path, ep, h2) =
      >>=-eq-returns (resolve_downstream_path p (client_path req) (codes "/")) _ h1 in
    let (sent, es, h3) =
      >>=-eq-returns (enforce rt req access.tenant_id access.platform_admin) _ h2 in
    let safe = resolve_downstream_path_lem p (client_path req) (codes "/") path ep in
    elim (resolve_query_access-Binds user access ea) [
      | inl (role, e) ↦ cc (role, no_admin)
      | inr (role, g, e, groups, key) ↦ (
        g,
        groups,
        key,
        pathname p (client_path req),
        sym (path_is h3) ∙ safe.2,
        refl,
        subst (IsConfinedAt rt g (pathname p (client_path req)) req) (sent_is h3) (
            enforce_confines_endpoint p rt req t g access.platform_admin sent names one_counts slash
              safe.0 no_fragment
              (subst (λ o. enforce rt req o access.platform_admin ≡ returns sent)
                (ap (λ a. a.tenant_id) e) es)),
        safe.0,
      )
    ]
  where
    sent_is :
        {a : Text} {b : Request}
        → ◌≡◌ {A = Answer (Text × Request)} (returns (a, b)) (returns (target, out))
        → b ≡ out
    sent_is e = cc

    path_is :
        {a : Text} {b : Request}
        → ◌≡◌ {A = Answer (Text × Request)} (returns (a, b)) (returns (target, out))
        → a ≡ target
    path_is e = cc
