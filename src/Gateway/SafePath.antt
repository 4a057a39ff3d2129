-- ===== src/Gateway/SafePath.antt =====
-- proxy/safe-path.ts: which paths may be appended to the URL of a store, and what the URL parser
-- (WHATWG, a special scheme) makes of them. The base URL is an origin, and a target starts with a
-- slash. The percent-encoding of one code unit of a path and the encoded query are parameters; the
-- request targets of HTTP have no white space at the ends and no tabs or line ends, which the parser
-- would cut.
use multi_tenant_cloud_obser.Base.{
  ℕ, Bool, false, not, ◌||◌, Option, none, some, List, [], ◌∷◌, ◌++◌, map, ◌==◌, if◌then◌else◌, all,
  Text, codes, text_eq, includes, has_unit, split, before, starts_with,
}
use mathlib.Core.List.{reverse}
use multi_tenant_cloud_obser.Gateway.{Answer, returns, forbidden, ◌>>◌, require}
use multi_tenant_cloud_obser.Gateway.Percent.{decode_uri_component}

abbrev pub backslash : ℕ
backslash = 92

abbrev pub is_safe_decoded : Option Text → Bool
is_safe_decoded none = false
is_safe_decoded (some s) =
    not (text_eq s (codes ".") || text_eq s (codes "..") || has_unit b'/' s || has_unit backslash s)

-- One round of the loop; both ways out of it are the same exception.
unfoldable pub is_safe_segment : Text → Bool
is_safe_segment raw = is_safe_decoded (decode_uri_component raw)

unfoldable pub assert_safe_relative_path : Text → Answer (Unit {0})
assert_safe_relative_path path_with_query =
    let path = before b'?' path_with_query in
    require (not (has_unit backslash path)) forbidden
    >> require (all is_safe_segment (split b'/' path)) forbidden

-- The spellings of the dot segments.
abbrev pub single_dots : List Text
single_dots = codes "." ∷ codes "%2e" ∷ codes "%2E" ∷ []

abbrev pub double_dots : List Text
double_dots =
    codes ".."
    ∷ codes ".%2e"
    ∷ codes ".%2E"
    ∷ codes "%2e."
    ∷ codes "%2E."
    ∷ codes "%2e%2e"
    ∷ codes "%2e%2E"
    ∷ codes "%2E%2e"
    ∷ codes "%2E%2E"
    ∷ []

pub record UrlParser : Type 0 where
  pub encode_unit : ℕ → Text
  pub search : Text → Text

unfoldable pub encode : UrlParser → Text → Text
encode p [] = []
encode p (c ∷ t) = p.encode_unit c ++ encode p t

abbrev pub shorten : List Text → List Text
shorten [] = []
shorten (s ∷ segments) = segments

abbrev pub push : UrlParser → List Text → Text → List Text
push p path s =
    if includes double_dots s
    then shorten path
    else if includes single_dots s
    then path
    else encode p s ∷ path

abbrev pub push_last : UrlParser → List Text → Text → List Text
push_last p path s =
    if includes double_dots s
    then [] ∷ shorten path
    else if includes single_dots s
    then [] ∷ path
    else encode p s ∷ path

-- The path state of the parser; the path so far is held in reverse.
unfoldable pub normalise : UrlParser → List Text → List Text → List Text
normalise p path [] = path
normalise p path (s ∷ []) = push_last p path s
normalise p path (s ∷ s' ∷ segments) = normalise p (push p path s) (s' ∷ segments)

abbrev pub to_slash : ℕ → ℕ
to_slash c = if c == backslash then b'/' else c

-- A path from its segments.
unfoldable pub join : List Text → Text
join [] = []
join (s ∷ segments) = b'/' ∷ s ++ join segments

-- The segments behind the slash that a target starts with.
abbrev pub behind_slash : List Text → List Text
behind_slash [] = []
behind_slash (s ∷ segments) = segments

-- `new URL(base + target).pathname`.
unfoldable pub pathname : UrlParser → Text → Text
pathname p target = join (
    reverse (
      normalise p [] (behind_slash (split b'/' (map to_slash (before b'?' (before b'#' target)))))))

unfoldable pub resolve_downstream_path : UrlParser → Text → Text → Answer Text
resolve_downstream_path p target required_prefix =
    assert_safe_relative_path target
    >> (require (starts_with (pathname p target) required_prefix) forbidden
        >> returns (pathname p target ++ p.search target))
