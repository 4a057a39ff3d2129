-- ===== src/Gateway/Endpoint.antt =====
-- proxy/opensearch-tenant.service.ts, `enforce`, and proxy/safe-path.ts: the endpoint of OpenSearch that a
-- tenant's request reaches. `enforce` decides on the path as the client spells it, and the endpoint is that
-- of the path that the URL parser makes.
use mathlib.Core.List.{append_assoc}
use multi_tenant_cloud_obser.Base.{
  ==_iff, ℕ, ◌≡◌, ◌∙◌, refl, sym, ap, subst, inl, inr, Bool, true, false, ◌&&◌, ◌||◌, some, List,
  [], ◌∷◌, ◌++◌, map, arith, leb, ◌==◌, if_cases, all, Text, codes, text_eq, text_eq_sound,
  text_eq_refl, includes, any, has_unit, split, before, starts_with, ends_with, Bool-cases, extend,
}
use multi_tenant_cloud_obser.Gateway.{returns}
use multi_tenant_cloud_obser.Gateway.Filter.{Runtime, one}
use multi_tenant_cloud_obser.Gateway.Search.{
  Body, Request, is_search, is_msearch, is_metadata, is_logs_index, first_segment, read_methods,
  to_upper, request_path, forbidden_query_params, enforce,
}
use multi_tenant_cloud_obser.Gateway.SafePath.{
  UrlParser, assert_safe_relative_path, encode, join, pathname,
}
use multi_tenant_cloud_obser.Gateway.Normal.{pathname-safe}
use multi_tenant_cloud_obser.Gateway.Targets.{client_path}
use multi_tenant_cloud_obser.Gateway.Enforcement.{IsWithin, enforce_confines}

ends_with-cut :
    (t suffix : Text) → ends_with t suffix ≡ true → (front : Text) × (t ≡ front ++ suffix)
unfolding ends_with
ends_with-cut [] suffix h = ([], text_eq_sound [] suffix h)
ends_with-cut (c ∷ t) suffix h = elim (Bool-cases (text_eq (c ∷ t) suffix)) [
  | inl e ↦ ([], text_eq_sound (c ∷ t) suffix e)
  | inr e ↦
      let (front, same) = ends_with-cut t suffix (ground (arith, e)) in
      (c ∷ front, ap (λ u. c ∷ u) same)
]

ends_with-append : (front suffix : Text) → ends_with (front ++ suffix) suffix ≡ true
unfolding ends_with
ends_with-append [] [] = text_eq_refl []
ends_with-append [] (c ∷ suffix) = rw (text_eq_refl (c ∷ suffix)) refl
ends_with-append (c ∷ front) suffix = ground (arith, ends_with-append front suffix)

starts_with-cut :
    (t prefix : Text) → starts_with t prefix ≡ true → (back : Text) × (t ≡ prefix ++ back)
unfolding starts_with
starts_with-cut t [] h = (t, refl)
starts_with-cut [] (c ∷ prefix) h = absurd cc
starts_with-cut (d ∷ t) (c ∷ prefix) h = elim (Bool-cases (d == c)) [
  | inl e ↦
      let (back, same) = starts_with-cut t prefix (ground (arith, e)) in
      (back, ground (arith, e, same))
  | inr e ↦ absurd (ground (arith, e))
]

starts_with-front : (prefix back : Text) → starts_with (prefix ++ back) prefix ≡ true
unfolding starts_with
starts_with-front [] back = refl
starts_with-front (c ∷ prefix) back = ground (arith, starts_with-front prefix back)

-- The code units that the names of the endpoints and the slashes are made of.
abbrev pub is_endpoint_unit : ℕ → Bool
is_endpoint_unit c = (leb b'a' c && leb c b'z') || (c == b'_' || c == b'/')

-- The small letters, the underscore and the slash are in no percent-encode set.
abbrev pub KeepsNames : UrlParser → Type 0
KeepsNames p = (c : ℕ) → is_endpoint_unit c ≡ true → p.encode_unit c ≡ c ∷ []

abbrev pub behind_first : Text → Text
behind_first [] = []
behind_first (c ∷ t) = t

module _ (p : UrlParser) (names : KeepsNames p) where
  encode-append : (s t : Text) → encode p (s ++ t) ≡ encode p s ++ encode p t
  unfolding encode
  encode-append [] t = refl
  encode-append (c ∷ s) t =
      ap (λ u. p.encode_unit c ++ u) (encode-append s t)
      ∙ sym (append_assoc (p.encode_unit c) (encode p s) (encode p t))

  encode-name : (t : Text) → all is_endpoint_unit t ≡ true → encode p t ≡ t
  unfolding encode all
  encode-name [] h = refl
  encode-name (c ∷ t) h =
      ap (λ u. u ++ encode p t) (names c (ground (arith, h)))
      ∙ ap (λ u. c ∷ u) (encode-name t (ground (arith, h)))

  join-extend :
      (c : ℕ) (pieces : List Text)
      → join (map (encode p) (extend c pieces))
        ≡ b'/' ∷ p.encode_unit c ++ behind_first (join (map (encode p) pieces))
  unfolding join encode
  join-extend c [] = append_assoc (b'/' ∷ p.encode_unit c) [] []
  join-extend c (s ∷ pieces) = append_assoc (b'/' ∷ p.encode_unit c) (encode p s) _

  join-encode : (t : Text) → join (map (encode p) (split b'/' t)) ≡ b'/' ∷ encode p t
  unfolding join encode split
  join-encode [] = refl
  join-encode (c ∷ t) =
      if_cases (λ pieces. join (map (encode p) pieces) ≡ b'/' ∷ p.encode_unit c ++ encode p t)
        (c == b'/') ([] ∷ split b'/' t) (extend c (split b'/' t)) (slash (join-encode t))
        (other (join-encode t))
    where
      slash :
          join (map (encode p) (split b'/' t)) ≡ b'/' ∷ encode p t
          → c == b'/' ≡ true
          → join (map (encode p) ([] ∷ split b'/' t)) ≡ b'/' ∷ p.encode_unit c ++ encode p t
      slash ih e =
          ap (λ u. b'/' ∷ u)
            (ih
              ∙ ap (λ u. u ++ encode p t)
                  (sym (names c (ground (arith, e)) ∙ ap (λ d. d ∷ []) ((==_iff c b'/').0 e))))

      other :
          join (map (encode p) (split b'/' t)) ≡ b'/' ∷ encode p t
          → c == b'/' ≡ false
          → join (map (encode p) (extend c (split b'/' t))) ≡ b'/' ∷ p.encode_unit c ++ encode p t
      other ih e =
          join-extend c (split b'/' t) ∙ ap (λ u. b'/' ∷ p.encode_unit c ++ behind_first u) ih

  ends-encode :
      (t suffix : Text)
      → all is_endpoint_unit suffix ≡ true
      → ends_with t suffix ≡ true
      → ends_with (encode p t) suffix ≡ true
  ends-encode t suffix kept h =
      let (front, same) = ends_with-cut t suffix h in
      subst (λ u. ends_with u suffix ≡ true)
        (sym (
          ap (encode p) same
          ∙ encode-append front suffix
          ∙ ap (λ u. encode p front ++ u) (encode-name suffix kept)))
        (ends_with-append (encode p front) suffix)

  starts-encode :
      (t prefix : Text)
      → all is_endpoint_unit prefix ≡ true
      → starts_with t prefix ≡ true
      → starts_with (encode p t) prefix ≡ true
  starts-encode t prefix kept h =
      let (back, same) = starts_with-cut t prefix h in
      subst (λ u. starts_with u prefix ≡ true)
        (sym (
          ap (encode p) same
          ∙ encode-append prefix back
          ∙ ap (λ u. u ++ encode p back) (encode-name prefix kept)))
        (starts_with-front prefix (encode p back))

  is_search-encode : (t : Text) → is_search t ≡ true → is_search (encode p t) ≡ true
  unfolding all
  is_search-encode t = ends-encode t (codes "/_search") refl

  is_msearch-encode : (t : Text) → is_msearch t ≡ true → is_msearch (encode p t) ≡ true
  unfolding all text_eq
  is_msearch-encode t h = elim (Bool-cases (ends_with t (codes "/_msearch"))) [
    | inl e ↦ ground (arith, ends-encode t (codes "/_msearch") refl e)
    | inr e ↦
        let whole = text_eq_sound t (codes "/_msearch") (ground (arith, h, e)) in
        subst (λ u. is_msearch u ≡ true)
          (sym (ap (encode p) whole ∙ encode-name (codes "/_msearch") refl)) is_whole
  ]
    where
      is_whole : is_msearch (codes "/_msearch") ≡ true
      is_whole = refl

  is_metadata-encode : (t : Text) → is_metadata t ≡ true → is_metadata (encode p t) ≡ true
  unfolding all
  is_metadata-encode t h = ground (
    arith,
    h,
    ends-encode t (codes "/_field_caps") refl,
    ends-encode t (codes "/_mapping") refl,
    starts-encode t (codes "/_resolve/index/") refl,
  )

  -- Encoding a path leaves its endpoint.
  IsWithin-encode :
      (rt : Runtime) (tenant path : Text) (body out : Body)
      → IsWithin rt tenant path body out
      → IsWithin rt tenant (encode p path) body out
  IsWithin-encode rt tenant path body out (inl (e, found)) = inl (is_search-encode path e, found)
  IsWithin-encode rt tenant path body out (inr (inl (e, found))) =
      inr (inl (is_msearch-encode path e, found))
  IsWithin-encode rt tenant path body out (inr (inr (e, same))) =
      inr (inr (is_metadata-encode path e, same))

  -- The path of a safe target without a fragment, from its first slash on, in terms of what `enforce`
  -- decides on.
  pathname-encode :
      (req : Request) (t : Text)
      → client_path req ≡ b'/' ∷ t
      → assert_safe_relative_path (client_path req) ≡ returns tt
      → has_unit b'#' (client_path req) ≡ false
      → pathname p (client_path req) ≡ encode p (request_path req.original_url)
  unfolding request_path encode before
  pathname-encode req t slash safe no_fragment =
      ap (pathname p) slash
      ∙ (pathname-safe p t (ap assert_safe_relative_path (sym slash) ∙ safe)
            (ap (has_unit b'#') (sym slash) ∙ no_fragment)
          ∙ (join-encode (before b'?' t)
              ∙ (from_slash (before b'?' t) ∙ ap (λ u. encode p (before b'?' u)) (sym slash))))
    where
      from_slash : (u : Text) → ◌≡◌ {A = Text} (b'/' ∷ encode p u) (encode p (b'/' ∷ u))
      from_slash u = ap (λ v. v ++ encode p u) (sym (names b'/' refl))

-- What is sent for a tenant whose request stands at `path` for OpenSearch.
abbrev pub IsConfinedAt : Runtime → Text → Text → Request → Request → Type 0
IsConfinedAt rt tenant path req out =
    (includes read_methods (map to_upper out.method) ≡ true)
    × (is_logs_index (first_segment (split b'/' (request_path req.original_url))) ≡ true)
    × (any (λ name. includes req.params name) forbidden_query_params ≡ false)
    × IsWithin rt tenant path req.body out.body

-- A request that `enforce` lets a tenant send, platform admins with a tenant included, where the target
-- starts with a slash, is safe and has no fragment, and where the URL parser encodes no small letter,
-- underscore or slash: it is a GET or a POST, the first segment that the client names is an index of the
-- logs or starts with an underscore, and the URL has no query of its own. The path that the URL parser
-- makes ends in _search, and the body is that of one confined search; or it ends in _msearch, and the
-- body is of confined searches; or it is that of metadata, and the body is the client's.
pub enforce_confines_endpoint :
    (p : UrlParser) (rt : Runtime) (req : Request) (t tenant : Text) (platform_admin : Bool)
    (out : Request)
    → KeepsNames p
    → rt.is_zero one ≡ false
    → client_path req ≡ b'/' ∷ t
    → assert_safe_relative_path (client_path req) ≡ returns tt
    → has_unit b'#' (client_path req) ≡ false
    → enforce rt req (some tenant) platform_admin ≡ returns out
    → IsConfinedAt rt tenant (pathname p (client_path req)) req out
enforce_confines_endpoint p rt req t tenant platform_admin out names one_counts slash safe
      no_fragment h =
    let (reads, logs, clean, url, method, within) =
      enforce_confines rt one_counts req tenant platform_admin out h in
    (
      subst (λ m. includes read_methods (map to_upper m) ≡ true) (sym method) reads,
      logs,
      clean,
      subst (λ path. IsWithin rt tenant path req.body out.body)
          (sym (pathname-encode p names req t slash safe no_fragment))
          (IsWithin-encode p names rt tenant (request_path req.original_url) req.body out.body
            within),
    )
