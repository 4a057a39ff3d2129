-- ===== src/Gateway/Tests.antt =====
-- The gateway at concrete requests.
use multi_tenant_cloud_obser.Base.{
  ◌≡◌, refl, true, false, none, some, [], ◌∷◌, if◌then◌else◌, Text, codes, text_eq, includes, any,
  ends_with, starts_with, before, cut_first, drop_prefix, split, trim, trim_start,
}
use multi_tenant_cloud_obser.Base.Tables.{select}
use multi_tenant_cloud_obser.Gateway.{returns}
use multi_tenant_cloud_obser.Gateway.Access.{
  AuthUser, QueryAccess, resolve_query_access, resolve, tenant_groups, strip_slashes,
  platform_admin, viewer,
}
use multi_tenant_cloud_obser.Gateway.Binding.{
  Binds, resolve_query_access-Binds, resolve_agree, to_context,
}
use multi_tenant_cloud_obser.Gateway.Json.{
  Json, number, string, object, Entries, empty, entry, get, set,
}
use multi_tenant_cloud_obser.Gateway.Filter.{
  Runtime, one, aggs, min_doc_count, query, confined_query, apply_tenant_filter,
  assert_no_tenant_escape, no_forbidden_key, check_at, check_types, clamp,
}
use multi_tenant_cloud_obser.Gateway.Search.{
  Body, undefined, buffer, value, Request, enforce, rewrite_msearch, ndjson, request_path,
  first_segment, assert_logs_index, assert_no_query_injection_params, confine, confine_search,
  confine_msearch, even, rewrite_pairs, rewrite_pair, parse_ndjson_line,
}
use multi_tenant_cloud_obser.Gateway.Confinement.{
  IsConfinedSearch, IsConfinedMsearch, apply_tenant_filter_confines, rewrite_msearch_confines,
}
use multi_tenant_cloud_obser.Gateway.Plain.{apply_tenant_filter_plain}
use multi_tenant_cloud_obser.Gateway.Filter.{aggregations, original_query}
use multi_tenant_cloud_obser.Gateway.Enforcement.{enforce_open}

unfoldable pub gateway : Unit {0}
unfolding resolve_query_access any includes text_eq tenant_groups select strip_slashes
    apply_tenant_filter assert_no_tenant_escape no_forbidden_key check_at check_types set get clamp
    enforce ends_with starts_with request_path before cut_first drop_prefix split first_segment
    assert_logs_index assert_no_query_injection_params confine confine_search confine_msearch
    rewrite_msearch even trim trim_start rewrite_pairs rewrite_pair parse_ndjson_line ndjson
gateway = tt

abbrev pub anna : AuthUser
anna = record {
  sub = codes "1";
  username = codes "anna";
  roles = codes "offline_access" ∷ viewer ∷ [];
  groups = codes "/acme" ∷ codes "/" ∷ [];
  vm_account_ids = codes "7" ∷ [];
}

abbrev pub acme : Text
acme = codes "acme"

abbrev pub acme_access : QueryAccess
acme_access = record { platform_admin = false; tenant_id = some acme }

anna_access : resolve_query_access anna ≡ returns acme_access
unfolding gateway
anna_access = refl

resolve_query_access-Binds_example : Binds anna acme_access
resolve_query_access-Binds_example = resolve_query_access-Binds anna acme_access anna_access

pub anna_no_admin : includes anna.roles platform_admin ≡ false
unfolding gateway
anna_no_admin = refl

resolve_agree_example :
    resolve anna (some (codes "globex")) ≡ to_context (resolve_query_access anna)
resolve_agree_example = resolve_agree anna (some (codes "globex")) anna_no_admin

abbrev pub small_runtime : Runtime
small_runtime = record {
  is_zero = λ v. elim v [ number n ↦ text_eq n (codes "0") | _ ↦ false ];
  parse = λ t. if text_eq t (codes "{}") then some (object empty) else none;
  stringify = λ v. codes "{}";
  decode = λ bytes. bytes;
  encode = λ t. t;
}

pub one_counts : small_runtime.is_zero one ≡ false
unfolding text_eq
one_counts = refl

abbrev terms_settings : Json → Json
terms_settings count =
    object (entry (codes "field") (string (codes "service")) (entry min_doc_count count empty))

abbrev by_service : Json → Json
by_service count =
    object (
      entry (codes "by_service") (object (entry (codes "terms") (terms_settings count) empty))
        empty)

abbrev pub search_body : Entries
search_body = entry query (object empty) (entry aggs (by_service (number (codes "0"))) empty)

abbrev pub confined_body : Entries
confined_body = entry query (confined_query (object empty) acme) (entry aggs (by_service one) empty)

search_body_filtered : apply_tenant_filter small_runtime search_body acme ≡ returns confined_body
unfolding gateway
search_body_filtered = refl

apply_tenant_filter_confines_example : IsConfinedSearch small_runtime acme search_body confined_body
apply_tenant_filter_confines_example =
    apply_tenant_filter_confines small_runtime one_counts search_body acme confined_body
      search_body_filtered

abbrev pub search_request : Body → Request
search_request body = record {
  method = codes "post";
  original_url = codes "/query/opensearch/otel-logs-2026/_search?size=10";
  params = codes "size" ∷ [];
  body = body;
}

pub search_enforced :
    enforce small_runtime (search_request (value (object search_body))) (some acme) false
    ≡ returns (search_request (value (object confined_body)))
unfolding gateway
search_enforced = refl

admin_enforced :
    enforce small_runtime (search_request undefined) none true ≡ returns (search_request undefined)
unfolding gateway
admin_enforced = refl

enforce_open_example : (true ≡ true) × (search_request undefined ≡ search_request undefined)
enforce_open_example =
    enforce_open small_runtime (search_request undefined) true (search_request undefined)
      admin_enforced

abbrev msearch_body : Body
msearch_body = value (string (codes "{}\n\n{}\n"))

msearch_rewritten :
    rewrite_msearch small_runtime msearch_body acme ≡ returns (buffer (codes "{}\n{}\n"))
unfolding gateway
msearch_rewritten = refl

rewrite_msearch_confines_example :
    IsConfinedMsearch small_runtime acme msearch_body (buffer (codes "{}\n{}\n"))
rewrite_msearch_confines_example =
    rewrite_msearch_confines small_runtime one_counts msearch_body acme (buffer (codes "{}\n{}\n"))
      msearch_rewritten

abbrev plain_body : Entries
plain_body = entry query (object empty) (entry (codes "size") (number (codes "5")) empty)

plain_clean : no_forbidden_key plain_body ≡ true
unfolding gateway
plain_clean = refl

plain_without : (get aggs plain_body ≡ none) × (get aggregations plain_body ≡ none)
unfolding gateway
plain_without = (refl, refl)

apply_tenant_filter_plain_example :
    apply_tenant_filter small_runtime plain_body acme
    ≡ returns (set query (confined_query (original_query (get query plain_body)) acme) plain_body)
apply_tenant_filter_plain_example =
    apply_tenant_filter_plain small_runtime plain_body acme plain_clean plain_without.0
      plain_without.1
