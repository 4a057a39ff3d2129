-- ===== src/Gateway/Plain.antt =====
-- proxy/opensearch-tenant.service.ts, `applyTenantFilter`: which searches it does not refuse.
use multi_tenant_cloud_obser.Base.{
  ◌≡◌, refl, Bool, true, false, none, some, if◌then◌else◌, Text, text_eq,
}
use multi_tenant_cloud_obser.Gateway.{Answer, returns, ◌>>=◌}
use multi_tenant_cloud_obser.Gateway.Json.{Json, Entries, empty, entry, get, set}
use multi_tenant_cloud_obser.Gateway.Filter.{
  Runtime, aggs, aggregations, query, check_aggregations, check_at, no_forbidden_key,
  assert_no_tenant_escape, original_query, confined_query, apply_tenant_filter,
}

check_at-absent :
    (rt : Runtime) (key : Text) (es : Entries)
    → get key es ≡ none
    → check_at rt key es ≡ returns none
unfolding get check_at
check_at-absent rt key empty h = refl
check_at-absent rt key (entry k v es) h =
    skip (text_eq k key) (check_aggregations rt v) (check_at-absent rt key es) h
  where
    skip :
        (b : Bool) (r : Answer Json)
        → (get key es ≡ none → check_at rt key es ≡ returns none)
        → (if b then some v else get key es) ≡ none
        → (if b then (r >>= λ w. returns (some w)) else check_at rt key es) ≡ returns none
    skip true r f h' = cc
    skip false r f h' = f h'

-- A search body without aggregations and without a forbidden key is never refused: only its query is
-- replaced, by the conjunction of the query and the filter on the tenant.
pub apply_tenant_filter_plain :
    (rt : Runtime) (body : Entries) (tenant : Text)
    → no_forbidden_key body ≡ true
    → get aggs body ≡ none
    → get aggregations body ≡ none
    → apply_tenant_filter rt body tenant
      ≡ returns (set query (confined_query (original_query (get query body)) tenant) body)
unfolding apply_tenant_filter assert_no_tenant_escape
apply_tenant_filter_plain rt body tenant clean no_aggs no_aggregations =
    rw
      (
        clean,
        check_at-absent rt aggs body no_aggs,
        check_at-absent rt aggregations body no_aggregations,
      )
      refl
