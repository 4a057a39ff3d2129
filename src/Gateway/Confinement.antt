-- ===== src/Gateway/Confinement.antt =====
-- proxy/opensearch-tenant.service.ts, `applyTenantFilter` and `rewriteMsearch`: a tenant's search is
-- confined to the documents of the tenant.
use multi_tenant_cloud_obser.Base.{
  ℕ, ◌⊎◌, ◌≡◌, refl, sym, subst, ◌∙◌, inl, inr, Bool, true, false, not, ◌&&◌, ◌||◌, Option, none,
  some, List, [], ◌∷◌, if◌then◌else◌, Text, codes, text_eq, text_eq_sym, includes,
}
use multi_tenant_cloud_obser.Gateway.{
  Answer, returns, throws, forbidden, bad_request, ◌>>=◌, ◌>>◌, require, >>=-eq-returns,
}
use multi_tenant_cloud_obser.Gateway.Json.{
  Json, Entries, empty, entry, get, set, get-set, get-set_other,
}
use multi_tenant_cloud_obser.Gateway.Filter.{
  Runtime, aggs, aggregations, query, one, put, check_at, no_forbidden_key, assert_no_tenant_escape,
  original_query, confined_query, apply_tenant_filter,
}
use multi_tenant_cloud_obser.Gateway.Search.{
  Body, buffer, parse_ndjson_line, logs_pattern, rewrite_pair, rewrite_pairs, even, ndjson,
  msearch_text, msearch_lines, rewrite_msearch,
}
use multi_tenant_cloud_obser.Gateway.Aggregations.{ConfinedOption}
use multi_tenant_cloud_obser.Gateway.Depth.{
  check_at-ConfinedOption, sub_aggregations_confined, get-put_other,
}

abbrev pub suggest : Text
suggest = codes "suggest"

-- A search that is confined to a tenant: a conjunction of the caller's own query and a filter on the
-- tenant, nothing that is evaluated outside of the query, and no key lost on the way.
abbrev pub IsConfinedSearch : Runtime → Text → Entries → Entries → Type 0
IsConfinedSearch rt tenant source search =
    (get query search ≡ some (confined_query (original_query (get query source)) tenant))
    × (get suggest search ≡ none)
    × ConfinedOption rt (get aggs search)
    × ConfinedOption rt (get aggregations search)
    × ((key : Text)
        → (includes (query ∷ aggs ∷ aggregations ∷ []) key ≡ true)
          ⊎ (get key search ≡ get key source))

-- The pair that two lines are rewritten to: a search of the logs, confined to the tenant.
abbrev pub IsConfinedPair : Runtime → Text → Text → Text → Entries × Entries → Type 0
IsConfinedPair rt tenant header_line query_line pair =
    (header : Entries) × (search : Entries) × (parse_ndjson_line rt header_line ≡ returns header)
    × (parse_ndjson_line rt query_line ≡ returns search)
    × (pair.0 ≡ set (codes "index") logs_pattern header)
    × IsConfinedSearch rt tenant search pair.1

-- The pairs that the lines are rewritten to, each line used once and in order.
unfoldable pub ArePairs : Runtime → Text → List Text → List (Entries × Entries) → Type 0
ArePairs rt tenant [] [] = Unit
ArePairs rt tenant (h ∷ s ∷ lines) (p ∷ pairs) =
    IsConfinedPair rt tenant h s p × ArePairs rt tenant lines pairs
ArePairs rt tenant lines pairs = ⊥

-- A multi-search whose every search is confined, as the text that is sent on.
abbrev pub IsConfinedMsearch : Runtime → Text → Body → Body → Type 0
IsConfinedMsearch rt tenant body out =
    (text : Text) × (pairs : List (Entries × Entries)) × (msearch_text rt body ≡ returns text)
    × (out ≡ buffer (rt.encode (ndjson rt pairs)))
    × ArePairs rt tenant (msearch_lines text) pairs

no_forbidden_key-get : (es : Entries) → no_forbidden_key es ≡ true → get suggest es ≡ none
unfolding no_forbidden_key get includes
no_forbidden_key-get empty h = refl
no_forbidden_key-get (entry k v es) h =
    step (text_eq k suggest) (text_eq suggest k) (no_forbidden_key es) (text_eq_sym suggest k)
      (no_forbidden_key-get es) h
  where
    step :
        (b b' rest : Bool) {o : Option Json}
        → b' ≡ b
        → (rest ≡ true → o ≡ none)
        → (not (b' || false) && rest) ≡ true
        → (if b then some v else o) ≡ none
    step true b' rest e f h' = cc
    step false false rest e f h' = f h'
    step false true rest e f h' = cc

escape_inv :
    (b : Bool) (ra rb : Answer (Option Json)) (f : Option Json → Option Json → Entries)
    (out : Entries)
    → (require b forbidden >> (ra >>= λ x. rb >>= λ y. returns (f x y))) ≡ returns out
    → (x : Option Json) × (y : Option Json) × (b ≡ true)
      × (ra ≡ returns x)
      × (rb ≡ returns y)
      × (f x y ≡ out)
escape_inv true (returns x) (returns y) f out h = (x, y, refl, refl, refl, cc)
escape_inv false ra rb f out h = cc
escape_inv true (throws e) rb f out h = cc
escape_inv true (returns x) (throws e) f out h = cc

pair_inv :
    (rh rs : Answer Entries) (f : Entries → Answer Entries) (pair : Entries × Entries)
    → (rh >>= λ header. rs >>= λ search.
        f search >>= λ confined. returns (set (codes "index") logs_pattern header, confined))
      ≡ returns pair
    → (header : Entries) × (search : Entries) × (confined : Entries) × (rh ≡ returns header)
      × (rs ≡ returns search)
      × (f search ≡ returns confined)
      × ((set (codes "index") logs_pattern header, confined) ≡ pair)
pair_inv (returns header) (returns search) f pair h =
    let (confined, e, eq) =
      >>=-eq-returns (f search) (λ c. returns (set (codes "index") logs_pattern header, c)) h in
    (header, search, confined, refl, refl, e, cc)
pair_inv (throws e) rs f pair h = cc
pair_inv (returns header) (throws e) f pair h = cc

pairs_inv :
    {A : Type 0} (r : Answer A) (rs : Answer (List A)) (out : List A)
    → (r >>= λ x. rs >>= λ xs. returns (x ∷ xs)) ≡ returns out
    → (x : A) × (xs : List A) × (r ≡ returns x) × (rs ≡ returns xs) × (x ∷ xs ≡ out)
pairs_inv (returns x) (returns xs) out h = (x, xs, refl, refl, cc)
pairs_inv (throws e) rs out h = cc
pairs_inv (returns x) (throws e) out h = cc

msearch_inv :
    {A : Type 0} (r : Answer Text) (test : Text → Bool) (f : Text → Answer A) (g : A → List ℕ)
    (out : Body)
    → (r >>= λ t. (require (test t) bad_request >> (f t >>= λ x. returns (buffer (g x)))))
      ≡ returns out
    → (t : Text) × (x : A) × (r ≡ returns t) × (f t ≡ returns x) × (out ≡ buffer (g x))
msearch_inv (throws e) test f g out h = cc
msearch_inv (returns t) test f g out h =
    let (u, e, rest) =
      >>=-eq-returns (require (test t) bad_request) (λ u. f t >>= λ x. returns (buffer (g x))) h in
    let (x, ex, eq) = >>=-eq-returns (f t) (λ x. returns (buffer (g x))) rest in
    (t, x, refl, ex, cc)

module _ (rt : Runtime) (one_counts : rt.is_zero one ≡ false) where
  others_kept :
      (body : Entries) (a b : Option Json) (value : Json) (key : Text)
      → text_eq query key ≡ false
      → text_eq aggs key ≡ false
      → text_eq aggregations key ≡ false
      → get key (set query value (put aggregations b (put aggs a body))) ≡ get key body
  others_kept body a b value key hq ha hb =
      get-set_other query key value (put aggregations b (put aggs a body)) hq
      ∙ (get-put_other rt one_counts aggregations key b (put aggs a body) hb
          ∙ get-put_other rt one_counts aggs key a body ha)

  kept :
      (body : Entries) (a b : Option Json) (value : Json) (key : Text)
      → (includes (query ∷ aggs ∷ aggregations ∷ []) key ≡ true)
        ⊎ (get key (set query value (put aggregations b (put aggs a body))) ≡ get key body)
  unfolding includes
  kept body a b value key =
      split_keys (text_eq query key) (text_eq aggs key) (text_eq aggregations key)
        (others_kept body a b value key)
    where
      split_keys :
          {o o' : Option Json} (x y z : Bool)
          → (x ≡ false → y ≡ false → z ≡ false → o ≡ o')
          → ((x || (y || (z || false))) ≡ true) ⊎ (o ≡ o')
      split_keys true y z f = inl refl
      split_keys false true z f = inl refl
      split_keys false false true f = inl refl
      split_keys false false false f = inr (f refl refl refl)

  -- Every search body that `applyTenantFilter` lets through leaves it confined to the tenant.
  pub apply_tenant_filter_confines :
      (body : Entries) (tenant : Text) (out : Entries)
      → apply_tenant_filter rt body tenant ≡ returns out
      → IsConfinedSearch rt tenant body out
  unfolding apply_tenant_filter assert_no_tenant_escape text_eq
  apply_tenant_filter_confines body tenant out h =
      let confined = confined_query (original_query (get query body)) tenant in
      let (checked, he, eq) =
        >>=-eq-returns (assert_no_tenant_escape rt body)
          (λ checked. returns (set query confined checked)) h in
      let (a, b, clean, ea, eb, eq') =
        escape_inv (no_forbidden_key body) (check_at rt aggs body) (check_at rt aggregations body)
          (λ a b. put aggregations b (put aggs a body)) checked he in
      let (sub_a, sub_b) =
        sub_aggregations_confined rt one_counts body body a b (λ key e. e) ea eb
          (check_at-ConfinedOption rt one_counts aggs body a ea)
          (check_at-ConfinedOption rt one_counts aggregations body b eb) in
      let inner = put aggregations b (put aggs a body) in
      subst (IsConfinedSearch rt tenant body) (built confined checked inner out eq eq') (
        get-set query confined inner,
        others_kept body a b confined suggest refl refl refl ∙ no_forbidden_key-get body clean,
        subst (ConfinedOption rt) (sym (get-set_other query aggs confined inner refl)) sub_a,
        subst (ConfinedOption rt) (sym (get-set_other query aggregations confined inner refl))
            sub_b,
        kept body a b confined,
      )
    where
      built :
          (c : Json) (checked inner' out' : Entries)
          → ◌≡◌ {A = Answer Entries} (returns (set query c checked)) (returns out')
          → inner' ≡ checked
          → set query c inner' ≡ out'
      built c checked' inner' out' e e' = cc

  -- The pairs of a multi-search: each searches the logs, and each search is confined.
  pub rewrite_pair_confines :
      (tenant header_line query_line : Text) (pair : Entries × Entries)
      → rewrite_pair rt tenant header_line query_line ≡ returns pair
      → IsConfinedPair rt tenant header_line query_line pair
  unfolding rewrite_pair
  rewrite_pair_confines tenant header_line query_line pair h =
      let (header, search, confined, eh, es, ec, eq) =
        pair_inv (parse_ndjson_line rt header_line) (parse_ndjson_line rt query_line)
          (λ search. apply_tenant_filter rt search tenant) pair h in
      subst (IsConfinedPair rt tenant header_line query_line) eq
        (header, search, eh, es, refl, apply_tenant_filter_confines search tenant confined ec)

  rewrite_pairs_confines :
      (tenant : Text) (lines : List Text) (pairs : List (Entries × Entries))
      → rewrite_pairs rt tenant lines ≡ returns pairs
      → ArePairs rt tenant lines pairs
  unfolding rewrite_pairs ArePairs
  rewrite_pairs_confines tenant [] [] h = tt
  rewrite_pairs_confines tenant [] (pair ∷ pairs) h = cc
  rewrite_pairs_confines tenant (line ∷ []) pairs h = cc
  rewrite_pairs_confines tenant (header ∷ search ∷ lines) pairs h =
      let (pair, rest, ep, er, eq) =
        pairs_inv (rewrite_pair rt tenant header search) (rewrite_pairs rt tenant lines) pairs h in
      subst (ArePairs rt tenant (header ∷ search ∷ lines)) eq (
        rewrite_pair_confines tenant header search pair ep,
        rewrite_pairs_confines tenant lines rest er,
      )

  -- Every multi-search body that is sent on is the lines of searches of the logs, each confined.
  pub rewrite_msearch_confines :
      (body : Body) (tenant : Text) (out : Body)
      → rewrite_msearch rt body tenant ≡ returns out
      → IsConfinedMsearch rt tenant body out
  unfolding rewrite_msearch
  rewrite_msearch_confines body tenant out h =
      let (text, pairs, et, e, eq) =
        msearch_inv (msearch_text rt body) (λ text. even (msearch_lines text))
          (λ text. rewrite_pairs rt tenant (msearch_lines text))
          (λ pairs. rt.encode (ndjson rt pairs)) out h in
      (text, pairs, et, eq, rewrite_pairs_confines tenant (msearch_lines text) pairs e)
