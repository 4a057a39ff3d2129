-- ===== src/Gateway/Targets.antt =====
-- proxy/victoriametrics.controller.ts and proxy/opensearch.controller.ts: from a request to the path and
-- the body that are sent to the store.
use multi_tenant_cloud_obser.Base.{
  Bool, not, ◌&&◌, List, ◌++◌, map, leb, if◌then◌else◌, all, Text, codes, includes, is_blank, trim,
  cut_first, starts_with,
}
use multi_tenant_cloud_obser.Base.Tables.{select}
use multi_tenant_cloud_obser.Gateway.{Answer, returns, forbidden, internal, ◌>>=◌, ◌>>◌, require}
use multi_tenant_cloud_obser.Gateway.Access.{AuthUser, QueryAccess, resolve_query_access, only}
use multi_tenant_cloud_obser.Gateway.Filter.{Runtime}
use multi_tenant_cloud_obser.Gateway.Search.{Request, read_methods, to_upper, enforce}
use multi_tenant_cloud_obser.Gateway.SafePath.{UrlParser, resolve_downstream_path}

-- `/^\d+$/.test(accountId)`.
unfoldable pub is_numeric : Text → Bool
is_numeric t = not (is_blank t) && all (λ c. leb b'0' c && leb c b'9') t

unfoldable pub account_ids : AuthUser → List Text
account_ids user = select (λ a. not (is_blank a)) (map trim user.vm_account_ids)

abbrev pub multitenant : Text
multitenant = codes "multitenant"

unfoldable pub tenant_segment : AuthUser → QueryAccess → Answer Text
tenant_segment user access =
    if access.platform_admin
    then returns multitenant
    else (only (account_ids user) >>= λ account.
        (require (is_numeric account) internal >> returns account))

unfoldable pub tenant_prefix : Text → Text
tenant_prefix segment = codes "/select/" ++ segment ++ codes "/prometheus"

unfoldable pub required_prefix : Text → Text
required_prefix segment = tenant_prefix segment ++ codes "/api/v1/"

-- The target path of a query of metrics.
unfoldable pub metrics_target : UrlParser → AuthUser → Text → Text → Answer Text
metrics_target p user method original_url =
    let client_path = cut_first original_url (codes "/query/victoriametrics") in
    require (includes read_methods (map to_upper method)) forbidden
    >> (require (starts_with client_path (codes "/api/v1/")) forbidden
        >> (require (not (starts_with client_path (codes "/api/v1/admin/"))) forbidden
            >> (resolve_query_access user >>= λ access. tenant_segment user access >>= λ segment.
                resolve_downstream_path p (tenant_prefix segment ++ client_path)
                  (required_prefix segment))))

abbrev pub client_path : Request → Text
client_path req = cut_first req.original_url (codes "/query/opensearch")

-- The target path and the request of a query of logs.
unfoldable pub logs_target : UrlParser → Runtime → AuthUser → Request → Answer (Text × Request)
logs_target p rt user req = resolve_query_access user >>= λ access.
    resolve_downstream_path p (client_path req) (codes "/") >>= λ target.
    enforce rt req access.tenant_id access.platform_admin >>= λ out. returns (target, out)
