-- ===== src/Gateway/TargetTests.antt =====
-- The paths that the gateway sends on, at concrete requests.
use multi_tenant_cloud_obser.Base.{
  ◌≡◌, refl, true, false, none, some, [], ◌∷◌, ◌++◌, map, all, Text, codes, includes, has_unit,
  split, before, starts_with,
}
use multi_tenant_cloud_obser.Gateway.{returns, throws, forbidden}
use multi_tenant_cloud_obser.Gateway.Json.{object}
use multi_tenant_cloud_obser.Gateway.Access.{tenant_groups}
use multi_tenant_cloud_obser.Gateway.Binding.{IsKey}
use multi_tenant_cloud_obser.Gateway.Search.{value, Request, read_methods, to_upper}
use multi_tenant_cloud_obser.Gateway.Endpoint.{IsConfinedAt, enforce_confines_endpoint}
use multi_tenant_cloud_obser.Gateway.Percent.{decode_uri_component, pieces, decode_pieces}
use multi_tenant_cloud_obser.Gateway.SafePath.{
  UrlParser, encode, assert_safe_relative_path, is_safe_segment, normalise, join, pathname,
  resolve_downstream_path,
}
use multi_tenant_cloud_obser.Gateway.Normal.{pathname-safe}
use multi_tenant_cloud_obser.Gateway.Targets.{
  is_numeric, account_ids, tenant_segment, tenant_prefix, required_prefix, metrics_target,
  client_path, logs_target,
}
use multi_tenant_cloud_obser.Gateway.Reach.{
  IsSegmentOf, metrics_target_confined, logs_target_confined,
}
use multi_tenant_cloud_obser.Gateway.Tests.{
  gateway, anna, small_runtime, one_counts, anna_no_admin, search_body, confined_body,
  search_request, acme, search_enforced,
}

paths : Unit {0}
unfolding gateway decode_uri_component pieces decode_pieces assert_safe_relative_path
    is_safe_segment normalise join pathname resolve_downstream_path encode has_unit all is_numeric
    account_ids tenant_segment tenant_prefix required_prefix metrics_target logs_target
paths = tt

euro : decode_uri_component (codes "%E2%82%ac") ≡ some (0x20ac ∷ [])
unfolding paths
euro = refl

-- An overlong form of the full stop is no UTF-8.
overlong : decode_uri_component (codes "%c0%ae") ≡ none
unfolding paths
overlong = refl

abbrev plain_urls : UrlParser
plain_urls = record { encode_unit = λ c. c ∷ []; search = λ t. codes "?size=10" }

dots_refused :
    (assert_safe_relative_path (codes "/api/v1/%2E%2e/x") ≡ throws forbidden)
    × (pathname plain_urls (codes "/api/v1/%2E%2e/x") ≡ codes "/api/x")
unfolding paths
dots_refused = (refl, refl)

fields_safe : assert_safe_relative_path (codes "/otel-logs-2026/_search?a=..") ≡ returns tt
unfolding paths
fields_safe = refl

fields_no_fragment : has_unit b'#' (codes "/otel-logs-2026/_search?a=..") ≡ false
unfolding paths
fields_no_fragment = refl

pathname-safe_example :
    pathname plain_urls (codes "/otel-logs-2026/_search?a=..")
    ≡ join
        (map (encode plain_urls) (split b'/' (before b'?' (codes "otel-logs-2026/_search?a=.."))))
pathname-safe_example =
    pathname-safe plain_urls (codes "otel-logs-2026/_search?a=..") fields_safe fields_no_fragment

abbrev range_url : Text
range_url = codes "/query/victoriametrics/api/v1/query?query=up"

abbrev range_target : Text
range_target = codes "/select/7/prometheus/api/v1/query?size=10"

range_sent : metrics_target plain_urls anna (codes "GET") range_url ≡ returns range_target
unfolding paths
range_sent = refl

metrics_target_confined_example :
    (includes read_methods (map to_upper (codes "GET")) ≡ true)
    × (segment : Text) × IsSegmentOf anna segment
    × (starts_with range_target (required_prefix segment) ≡ true)
metrics_target_confined_example =
    metrics_target_confined plain_urls anna (codes "GET") range_url range_target range_sent

abbrev asked : Request
asked = search_request (value (object search_body))

abbrev sent : Request
sent = search_request (value (object confined_body))

abbrev logs_path : Text
logs_path = codes "/otel-logs-2026/_search?size=10"

logs_sent : logs_target plain_urls small_runtime anna asked ≡ returns (logs_path, sent)
unfolding paths
logs_sent = refl

asked_no_fragment : has_unit b'#' (client_path asked) ≡ false
unfolding paths
asked_no_fragment = refl

asked_safe : assert_safe_relative_path (client_path asked) ≡ returns tt
unfolding paths
asked_safe = refl

asked_slash : client_path asked ≡ b'/' ∷ codes "otel-logs-2026/_search?size=10"
unfolding paths
asked_slash = refl

logs_target_confined_example :
    (tenant : Text) × (tenant_groups anna ≡ tenant ∷ [])
    × IsKey tenant
    × (path : Text) × (logs_path ≡ path ++ plain_urls.search (client_path asked))
    × (path ≡ pathname plain_urls (client_path asked))
    × IsConfinedAt small_runtime tenant path asked sent
    × (assert_safe_relative_path (client_path asked) ≡ returns tt)
logs_target_confined_example =
    logs_target_confined plain_urls small_runtime anna asked
      (codes "otel-logs-2026/_search?size=10") logs_path sent (λ c h. refl) one_counts anna_no_admin
      asked_slash asked_no_fragment logs_sent

enforce_confines_endpoint_example :
    IsConfinedAt small_runtime acme (pathname plain_urls (client_path asked)) asked sent
enforce_confines_endpoint_example =
    enforce_confines_endpoint plain_urls small_runtime asked
      (codes "otel-logs-2026/_search?size=10") acme false sent (λ c h. refl) one_counts asked_slash
      asked_safe asked_no_fragment search_enforced

-- A fragment hides the end of the path from the URL parser, but not from `enforce`.
abbrev hidden : Request
hidden = record asked {
  original_url = codes "/query/opensearch/otel-logs-2026/_delete_by_query#/_search";
}

fragment_cut :
    logs_target plain_urls small_runtime anna hidden
    ≡ returns (codes "/otel-logs-2026/_delete_by_query?size=10", record hidden { body = sent.body })
unfolding paths
fragment_cut = refl
