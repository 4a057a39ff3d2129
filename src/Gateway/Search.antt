-- ===== src/Gateway/Search.antt =====
-- proxy/opensearch-tenant.service.ts: which OpenSearch requests pass, and how the body of a tenant's
-- search is rewritten. The rewriting of
-- one body is in Filter.
use multi_tenant_cloud_obser.Base.{
  ℕ, Bool, true, false, not, ◌&&◌, ◌||◌, Option, none, some, List, [], ◌∷◌, map, if◌then◌else◌, leb,
  Text, codes, ◌++◌, text_eq, includes, is_blank, is_none, any, starts_with, ends_with, cut_first,
  before, split, trim, ◌-◌,
}
use multi_tenant_cloud_obser.Base.Tables.{select}
use multi_tenant_cloud_obser.Gateway.{
  Answer, returns, throws, forbidden, bad_request, ◌>>=◌, ◌>>◌, require,
}
use multi_tenant_cloud_obser.Gateway.Json.{Json, null, string, object, Entries, empty, set}
use multi_tenant_cloud_obser.Gateway.Filter.{Runtime, apply_tenant_filter}

abbrev pub forbidden_query_params : List Text
forbidden_query_params = codes "q" ∷ codes "source" ∷ codes "source_content_type" ∷ []

-- `req.body`: absent, a Buffer, or a value of the JSON body parser.
pub data Body : Type 0 where
  undefined : Body
  buffer : List ℕ → Body
  value : Json → Body

pub record Request : Type 0 where
  pub method : Text
  pub original_url : Text
  -- The names of the query parameters.
  pub params : List Text
  pub body : Body

-- `toUpperCase`, on the ASCII letters, which the tokens of HTTP methods are made of.
abbrev pub to_upper : ℕ → ℕ
to_upper c = if leb 97 c && leb c 122 then c - 32 else c

abbrev pub to_search_body : Body → Answer Entries
to_search_body undefined = returns empty
to_search_body (value null) = returns empty
to_search_body (value (object es)) = returns es
to_search_body _ = throws bad_request

unfoldable pub parse_ndjson_line : Runtime → Text → Answer Entries
parse_ndjson_line rt line = parsed (rt.parse line)
  where
    parsed : Option Json → Answer Entries
    parsed (some (object es)) = returns es
    parsed _ = throws bad_request

abbrev pub logs_pattern : Json
logs_pattern = string (codes "otel-logs*")

-- The header and the search that one pair of lines is rewritten to.
unfoldable pub rewrite_pair : Runtime → Text → Text → Text → Answer (Entries × Entries)
rewrite_pair rt tenant header_line query_line = parse_ndjson_line rt header_line >>= λ header.
    parse_ndjson_line rt query_line >>= λ search.
    apply_tenant_filter rt search tenant >>= λ confined.
    returns (set (codes "index") logs_pattern header, confined)

-- The loop over the pairs, after the test that the number of lines is even.
unfoldable pub rewrite_pairs : Runtime → Text → List Text → Answer (List (Entries × Entries))
rewrite_pairs rt tenant [] = returns []
rewrite_pairs rt tenant (line ∷ []) = throws bad_request
rewrite_pairs rt tenant (header ∷ search ∷ lines) = rewrite_pair rt tenant header search >>= λ pair.
    rewrite_pairs rt tenant lines >>= λ pairs. returns (pair ∷ pairs)

unfoldable pub even : {A : Type 0} → List A → Bool
even [] = true
even (x ∷ []) = false
even (x ∷ y ∷ xs) = even xs

-- `output.join('\n') + '\n'`.
unfoldable pub ndjson : Runtime → List (Entries × Entries) → Text
ndjson rt [] = 10 ∷ []
ndjson rt (pair ∷ []) =
    rt.stringify (object pair.0) ++ (10 ∷ rt.stringify (object pair.1)) ++ (10 ∷ [])
ndjson rt (pair ∷ pair' ∷ pairs) =
    rt.stringify (object pair.0)
    ++ (10 ∷ rt.stringify (object pair.1))
    ++ (10 ∷ ndjson rt (pair' ∷ pairs))

-- The text of a Buffer or a string body.
abbrev pub msearch_text : Runtime → Body → Answer Text
msearch_text rt (buffer bytes) = returns (rt.decode bytes)
msearch_text rt (value (string text)) = returns text
msearch_text rt _ = throws bad_request

abbrev pub msearch_lines : Text → List Text
msearch_lines text = select (λ line. not (is_blank (trim line))) (split 10 text)

unfoldable pub rewrite_msearch : Runtime → Body → Text → Answer Body
rewrite_msearch rt body tenant = msearch_text rt body >>= λ text.
    (require (even (msearch_lines text)) bad_request
      >> (rewrite_pairs rt tenant (msearch_lines text) >>= λ pairs.
          returns (buffer (rt.encode (ndjson rt pairs)))))

abbrev pub read_methods : List Text
read_methods = codes "GET" ∷ codes "POST" ∷ []

abbrev pub is_search : Text → Bool
is_search path = ends_with path (codes "/_search")

abbrev pub is_msearch : Text → Bool
is_msearch path = text_eq path (codes "/_msearch") || ends_with path (codes "/_msearch")

abbrev pub is_metadata : Text → Bool
is_metadata path =
    ends_with path (codes "/_field_caps")
    || ends_with path (codes "/_mapping")
    || starts_with path (codes "/_resolve/index/")

-- `path.split('/').filter(Boolean)[0]`.
unfoldable pub first_segment : List Text → Option Text
first_segment [] = none
first_segment (s ∷ segments) =
    let later = first_segment segments in if is_blank s then later else some s

abbrev pub is_logs_index : Option Text → Bool
is_logs_index none = true
is_logs_index (some first) = starts_with first (codes "_") || starts_with first (codes "otel-logs")

unfoldable pub assert_logs_index : Text → Answer (Unit {0})
assert_logs_index path = require (is_logs_index (first_segment (split b'/' path))) forbidden

unfoldable pub assert_no_query_injection_params : Request → Answer (Unit {0})
assert_no_query_injection_params req =
    require (not (any (λ p. includes req.params p) forbidden_query_params)) forbidden

-- The path that the decisions are made on.
unfoldable pub request_path : Text → Text
request_path original_url = before b'?' (cut_first original_url (codes "/query/opensearch"))

-- `req.body = …`, for a search and then for a multi-search.
unfoldable pub confine_search : Runtime → Text → Text → Body → Answer Body
confine_search rt path tenant body =
    if is_search path
    then (to_search_body body >>= λ es.
        apply_tenant_filter rt es tenant >>= λ out. returns (value (object out)))
    else returns body

unfoldable pub confine_msearch : Runtime → Text → Text → Body → Answer Body
confine_msearch rt path tenant body =
    if is_msearch path then rewrite_msearch rt body tenant else returns body

unfoldable pub confine : Runtime → Text → Request → Option Text → Answer Request
confine rt path req none = throws forbidden
confine rt path req (some tenant) =
    require (not (is_blank tenant)) forbidden
    >> (assert_no_query_injection_params req
        >> (confine_search rt path tenant req.body >>= λ searched.
            confine_msearch rt path tenant searched >>= λ out. returns (record {
              method = req.method;
              original_url = req.original_url;
              params = req.params;
              body = out;
            })))

unfoldable pub enforce : Runtime → Request → Option Text → Bool → Answer Request
enforce rt req tenant platform_admin =
    let path = request_path req.original_url in
    require (includes read_methods (map to_upper req.method)) forbidden
    >> (require (is_search path || is_msearch path || is_metadata path) forbidden
        >> (assert_logs_index path
            >> (if platform_admin && is_none tenant
                then returns req
                else confine rt path req tenant)))
