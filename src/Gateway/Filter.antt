-- ===== src/Gateway/Filter.antt =====
-- proxy/opensearch-tenant.service.ts: how the body of a tenant's search is checked and confined. What the runtime gives is in the parameters: JSON.parse and JSON.stringify, the
-- UTF-8 codec of Buffer, and the test `Number(v) === 0` on a JSON value.
use multi_tenant_cloud_obser.Base.{
  ℕ, Bool, true, false, not, ◌&&◌, Option, none, some, List, [], ◌∷◌, if◌then◌else◌, Text, codes,
  text_eq, includes,
}
use multi_tenant_cloud_obser.Gateway.{
  Answer, returns, throws, forbidden, bad_request, ◌>>=◌, ◌>>◌, require,
}
use multi_tenant_cloud_obser.Gateway.Json.{
  Json, null, number, string, array, object, end, item, Entries, empty, entry, get, set,
}

abbrev pub forbidden_aggregations : List Text
forbidden_aggregations = codes "global" ∷ codes "significant_terms" ∷ codes "significant_text" ∷ []

abbrev pub term_enumerating_aggregations : List Text
term_enumerating_aggregations = codes "terms" ∷ codes "multi_terms" ∷ []

abbrev pub forbidden_body_keys : List Text
forbidden_body_keys = codes "suggest" ∷ []

abbrev pub aggs : Text
aggs = codes "aggs"

abbrev pub aggregations : Text
aggregations = codes "aggregations"

abbrev pub min_doc_count : Text
min_doc_count = codes "min_doc_count"

abbrev pub query : Text
query = codes "query"

abbrev pub one : Json
one = number (codes "1")

-- The runtime under the service.
pub record Runtime : Type 0 where
  pub is_zero : Json → Bool
  pub parse : Text → Option Json
  pub stringify : Json → Text
  pub decode : List ℕ → Text
  pub encode : Text → List ℕ

-- `Number(n) === 0 && n !== undefined`.
abbrev pub is_zero_count : Runtime → Option Json → Bool
is_zero_count rt none = false
is_zero_count rt (some n) = rt.is_zero n

abbrev pub clamps : Runtime → Text → Entries → Bool
clamps rt type settings =
    includes term_enumerating_aggregations type && is_zero_count rt (get min_doc_count settings)

-- What the loop over one definition does to the settings of an aggregation of a type.
unfoldable pub clamp : Runtime → Text → Json → Json
clamp rt type (object settings) =
    if clamps rt type settings then object (set min_doc_count one settings) else object settings
clamp rt type settings = settings

-- The loop over the entries of one definition, with the clamped settings in their place.
unfoldable pub check_types : Runtime → Entries → Answer Entries
check_types rt empty = returns empty
check_types rt (entry type settings es) =
    require (not (includes forbidden_aggregations type)) forbidden
    >> (check_types rt es >>= λ rest. returns (entry type (clamp rt type settings) rest))

-- The value of a key, where it was written anew.
abbrev pub put : Text → Option Json → Entries → Entries
put key none es = es
put key (some v) es = set key v es

unfoldable mutual
  -- `checkAggregations` on a value that is not undefined: the value with its settings clamped.
  pub check_aggregations : Runtime → Json → Answer Json
  check_aggregations rt (object definitions) =
      check_definitions rt definitions >>= λ es. returns (object es)
  check_aggregations rt v = throws bad_request

  pub check_definitions : Runtime → Entries → Answer Entries
  check_definitions rt empty = returns empty
  check_definitions rt (entry name (object definition) es) = check_types rt definition >>= λ types.
      check_at rt aggs definition >>= λ a. check_at rt aggregations definition >>= λ b.
      check_definitions rt es >>= λ rest.
      returns (entry name (object (put aggregations b (put aggs a types))) rest)
  check_definitions rt (entry name v es) = throws bad_request

  -- `this.checkAggregations(definition[key])`: nothing where the key is undefined.
  pub check_at : Runtime → Text → Entries → Answer (Option Json)
  check_at rt key empty = returns none
  check_at rt key (entry k v es) =
      let here = check_aggregations rt v in
      let later = check_at rt key es in
      if text_eq k key then (here >>= λ w. returns (some w)) else later

unfoldable pub no_forbidden_key : Entries → Bool
no_forbidden_key empty = true
no_forbidden_key (entry k v es) = not (includes forbidden_body_keys k) && no_forbidden_key es

-- The body, with what the check has clamped.
unfoldable pub assert_no_tenant_escape : Runtime → Entries → Answer Entries
assert_no_tenant_escape rt body =
    require (no_forbidden_key body) forbidden
    >> (check_at rt aggs body >>= λ a.
        check_at rt aggregations body >>= λ b. returns (put aggregations b (put aggs a body)))

-- `body.query ?? { match_all: {} }`.
abbrev pub original_query : Option Json → Json
original_query none = object (entry (codes "match_all") (object empty) empty)
original_query (some null) = object (entry (codes "match_all") (object empty) empty)
original_query (some v) = v

abbrev pub tenant_term : Text → Json
tenant_term tenant = object (
    entry (codes "term") (object (entry (codes "resource.tenant.id.keyword") (string tenant) empty))
      empty)

-- The `bool` query around the caller's own.
abbrev pub confined_query : Json → Text → Json
confined_query original tenant = object (
    entry (codes "bool")
      (object (
        entry (codes "must") (array (item original end))
          (entry (codes "filter") (array (item (tenant_term tenant) end)) empty)))
      empty)

unfoldable pub apply_tenant_filter : Runtime → Entries → Text → Answer Entries
apply_tenant_filter rt body tenant = assert_no_tenant_escape rt body >>= λ checked.
    returns (set query (confined_query (original_query (get query body)) tenant) checked)
