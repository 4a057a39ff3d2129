-- ===== src/Gateway/Enforcement.antt =====
-- proxy/opensearch-tenant.service.ts, `enforce`: what of OpenSearch a tenant can reach.
use multi_tenant_cloud_obser.Base.{
  ◌≡◌, ◌∙◌, refl, sym, subst, ◌⊎◌, inl, inr, Bool, true, false, not, ◌&&◌, ◌||◌, none, some, map,
  if◌then◌else◌, Text, includes, is_blank, split, any,
}
use multi_tenant_cloud_obser.Gateway.{
  Answer, returns, throws, forbidden, ◌>>=◌, >>=-eq-returns, required_lem,
}
use multi_tenant_cloud_obser.Gateway.Json.{object, Entries}
use multi_tenant_cloud_obser.Gateway.Filter.{Runtime, one, apply_tenant_filter}
use multi_tenant_cloud_obser.Gateway.Search.{
  Body, value, Request, read_methods, to_upper, to_search_body, rewrite_msearch, is_search,
  is_msearch, is_metadata, is_logs_index, first_segment, assert_logs_index,
  assert_no_query_injection_params, request_path, confine_search, confine_msearch,
  forbidden_query_params, confine, enforce,
}
use multi_tenant_cloud_obser.Gateway.Confinement.{
  IsConfinedSearch, IsConfinedMsearch, apply_tenant_filter_confines, rewrite_msearch_confines,
}

-- The body of a search, and what it is rewritten to.
abbrev pub IsSearchOf : Runtime → Text → Body → Body → Type 0
IsSearchOf rt tenant body out =
    (source : Entries) × (search : Entries) × (to_search_body body ≡ returns source)
    × (out ≡ value (object search))
    × IsConfinedSearch rt tenant source search

-- What a request that passes asks for: a confined search, confined searches, or metadata.
abbrev pub IsWithin : Runtime → Text → Text → Body → Body → Type 0
IsWithin rt tenant path body out =
    ((is_search path ≡ true) × IsSearchOf rt tenant body out)
    ⊎ (((is_msearch path ≡ true) × IsConfinedMsearch rt tenant body out)
        ⊎ ((is_metadata path ≡ true) × (out ≡ body)))

-- What is sent for a tenant, in terms of what was asked.
abbrev pub IsTenantRequest : Runtime → Text → Request → Request → Type 0
IsTenantRequest rt tenant req out =
    (includes read_methods (map to_upper req.method) ≡ true)
    × (is_logs_index (first_segment (split b'/' (request_path req.original_url))) ≡ true)
    × (any (λ p. includes req.params p) forbidden_query_params ≡ false)
    × (out.original_url ≡ req.original_url)
    × (out.method ≡ req.method)
    × IsWithin rt tenant (request_path req.original_url) req.body out.body

abbrev pub IsSent : Runtime → Text → Request → Answer Request → Type 0
IsSent rt tenant req (returns out) = IsTenantRequest rt tenant req out
IsSent rt tenant req (throws e) = Unit

module _ (rt : Runtime) (one_counts : rt.is_zero one ≡ false) where
  confine_search_lem :
      (path tenant : Text) (body out : Body)
      → confine_search rt path tenant body ≡ returns out
      → ((is_search path ≡ true) × IsSearchOf rt tenant body out)
        ⊎ ((is_search path ≡ false) × (out ≡ body))
  unfolding confine_search
  confine_search_lem path tenant body out h = step (is_search path) (to_search_body body) refl h
    where
      step :
          (b : Bool) (r : Answer Entries)
          → to_search_body body ≡ r
          → (if b
              then (r >>= λ es.
                  apply_tenant_filter rt es tenant >>= λ o. returns (value (object o)))
              else returns body)
            ≡ returns out
          → ((b ≡ true) × IsSearchOf rt tenant body out) ⊎ ((b ≡ false) × (out ≡ body))
      step false r e h' = inr (refl, cc)
      step true (throws x) e h' = cc
      step true (returns es) e h' =
          let (o, eo, eq) =
            >>=-eq-returns (apply_tenant_filter rt es tenant) (λ o. returns (value (object o)))
              h' in
          inl (refl, (es, o, e, cc, apply_tenant_filter_confines rt one_counts es tenant o eo))

  rewrite_msearch-object :
      (tenant : Text) (es : Entries) (out : Body)
      → rewrite_msearch rt (value (object es)) tenant ≡ returns out
      → ⊥
  unfolding rewrite_msearch
  rewrite_msearch-object tenant es out h = cc

  confine_bodies :
      (path tenant : Text) (body searched out : Body)
      → (is_search path || is_msearch path || is_metadata path) ≡ true
      → confine_search rt path tenant body ≡ returns searched
      → confine_msearch rt path tenant searched ≡ returns out
      → IsWithin rt tenant path body out
  unfolding confine_msearch
  confine_bodies path tenant body searched out hp hs hm =
      elim (confine_search_lem path tenant body searched hs) [
        | inl (e, found) ↦
            elim (msearch_cases (is_msearch path) (rewrite_msearch rt searched tenant) searched out
              hm) [
                | inl (e', h') ↦ absurd (
                    rewrite_msearch-object tenant (found.1) out
                      (subst (λ z. rewrite_msearch rt z tenant ≡ returns out) (found.3) h'))
                | inr (e', same) ↦ inl (e, subst (IsSearchOf rt tenant body) same found)
              ]
        | inr (e, same) ↦
            elim (msearch_cases (is_msearch path) (rewrite_msearch rt searched tenant) searched out
              hm) [
                | inl (e', h') ↦ inr (
                    inl (
                      e',
                      rewrite_msearch_confines rt one_counts body tenant out
                          (subst (λ z. rewrite_msearch rt z tenant ≡ returns out) same h'),
                    ))
                | inr (e', same') ↦ inr (
                    inr (
                      only_metadata (is_search path) (is_msearch path) (is_metadata path) e e' hp,
                      sym same' ∙ same,
                    ))
              ]
      ]
    where
      only_metadata : (x y z : Bool) → x ≡ false → y ≡ false → (x || y || z) ≡ true → z ≡ true
      only_metadata false false z e e' h = h
      only_metadata true y z e e' h = cc
      only_metadata false true z e e' h = cc

      msearch_cases :
          (b : Bool) (r : Answer Body) (s o : Body)
          → (if b then r else returns s) ≡ returns o
          → ((b ≡ true) × (r ≡ returns o)) ⊎ ((b ≡ false) × (s ≡ o))
      msearch_cases true r s o h = inl (refl, h)
      msearch_cases false r s o h = inr (refl, cc)

  -- A request that `enforce` lets a tenant send is a GET or a POST, addresses the logs as far as its
  -- first path segment says, has no query of its own in the URL, and asks for a confined search, for
  -- confined searches, or for metadata, as far as the end of the path says that the client spells; a
  -- platform admin with a tenant is no exception.
  pub enforce_confines :
      (req : Request) (tenant : Text) (platform_admin : Bool) (out : Request)
      → enforce rt req (some tenant) platform_admin ≡ returns out
      → IsTenantRequest rt tenant req out
  unfolding enforce confine assert_logs_index assert_no_query_injection_params
  enforce_confines req tenant platform_admin out h =
      let path = request_path req.original_url in
      let (reads, h1) =
        required_lem (includes read_methods (map to_upper req.method)) forbidden _ out h in
      let (known, h2) =
        required_lem (is_search path || is_msearch path || is_metadata path) forbidden _ out h1 in
      let (logs, h3) =
        required_lem (is_logs_index (first_segment (split b'/' path))) forbidden _ out h2 in
      let (named, h4) =
        required_lem (not (is_blank tenant)) forbidden _ out
          (bound_admin platform_admin _ _ out h3) in
      let (clean, h5) =
        required_lem (not (any (λ p. includes req.params p) forbidden_query_params)) forbidden _ out
          h4 in
      let (searched, es, h6) = >>=-eq-returns (confine_search rt path tenant req.body) _ h5 in
      let (body, em, eq) = >>=-eq-returns (confine_msearch rt path tenant searched) _ h6 in
      subst (IsSent rt tenant req) eq (
        reads,
        logs,
        negated (any (λ p. includes req.params p) forbidden_query_params) clean,
        refl,
        refl,
        confine_bodies path tenant req.body searched body known es em,
      )
    where
      bound_admin :
          (b : Bool) (x y : Answer Request) (o : Request)
          → (if b && false then x else y) ≡ returns o
          → y ≡ returns o
      bound_admin true x y o h' = h'
      bound_admin false x y o h' = h'

      negated : (b : Bool) → not b ≡ true → b ≡ false
      negated true h' = cc
      negated false h' = refl

-- Without a tenant only a platform admin gets through, and what such a caller asks is sent as it is.
pub enforce_open :
    (rt : Runtime) (req : Request) (platform_admin : Bool) (out : Request)
    → enforce rt req none platform_admin ≡ returns out
    → (platform_admin ≡ true) × (out ≡ req)
unfolding enforce confine assert_logs_index
enforce_open rt req platform_admin out h =
    let path = request_path req.original_url in
    let (reads, h1) =
      required_lem (includes read_methods (map to_upper req.method)) forbidden _ out h in
    let (known, h2) =
      required_lem (is_search path || is_msearch path || is_metadata path) forbidden _ out h1 in
    let (logs, h3) =
      required_lem (is_logs_index (first_segment (split b'/' path))) forbidden _ out h2 in
    admin_only platform_admin h3
  where
    admin_only :
        (b : Bool)
        → (if b && true then returns req else throws forbidden) ≡ returns out
        → (b ≡ true) × (out ≡ req)
    admin_only true h' = (refl, cc)
    admin_only false h' = cc
