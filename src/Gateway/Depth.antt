-- ===== src/Gateway/Depth.antt =====
-- proxy/opensearch-tenant.service.ts, `checkAggregations`: the aggregations that are let through compute
-- within the search query, however deep they stand.
use multi_tenant_cloud_obser.Base.{
  ◌≡◌, refl, sym, subst, ◌∙◌, Bool, true, false, not, Option, none, some, arith, if◌then◌else◌,
  if_cases, Text, text_eq, includes,
}
use multi_tenant_cloud_obser.Gateway.{
  Answer, returns, throws, forbidden, ◌>>=◌, ◌>>◌, require, >>=-eq-returns,
}
use multi_tenant_cloud_obser.Gateway.Json.{
  Json, null, bool, number, string, array, object, Entries, empty, entry, get, set, AllEntries,
  get-set, get-set_other,
}
use multi_tenant_cloud_obser.Gateway.Filter.{
  Runtime, forbidden_aggregations, aggs, aggregations, min_doc_count, one, clamps, clamp,
  check_types, put, check_aggregations, check_definitions, check_at,
}
use multi_tenant_cloud_obser.Gateway.Aggregations.{
  is_clamped, IsConfinedType, IsConfined, AreConfined, ConfinedOption, ConfinedResult,
  get-ConfinedAt, set-AllEntries, sub_aggregation_lem,
}

step_inv :
    {A : Type 0} (forbids : Bool) (r : Answer A) (f : A → A) (out : A)
    → (require (not forbids) forbidden >> (r >>= λ rest. returns (f rest))) ≡ returns out
    → (forbids ≡ false) × (rest : A) × (r ≡ returns rest) × (f rest ≡ out)
step_inv true r f out h = cc
step_inv false (returns rest) f out h = (refl, rest, refl, cc)
step_inv false (throws e) f out h = cc

definition_inv :
    (name : Text) (t : Answer Entries) (ra rb : Answer (Option Json)) (r : Answer Entries)
    (out : Entries)
    → (t >>= λ types. ra >>= λ a. rb >>= λ b.
        r >>= λ rest. returns (entry name (object (put aggregations b (put aggs a types))) rest))
      ≡ returns out
    → (types : Entries) × (a : Option Json) × (b : Option Json) × (rest : Entries) × (t
        ≡ returns types)
      × (ra ≡ returns a)
      × (rb ≡ returns b)
      × (r ≡ returns rest)
      × (entry name (object (put aggregations b (put aggs a types))) rest ≡ out)
definition_inv name (returns t) (returns a) (returns b) (returns rest) out h =
    (t, a, b, rest, refl, refl, refl, refl, cc)
definition_inv name (throws e) ra rb r out h = cc
definition_inv name (returns t) (throws e) rb r out h = cc
definition_inv name (returns t) (returns a) (throws e) r out h = cc
definition_inv name (returns t) (returns a) (returns b) (throws e) out h = cc

module _ (rt : Runtime) (one_counts : rt.is_zero one ≡ false) where
  clamp-is_clamped : (type : Text) (v : Json) → is_clamped rt type (clamp rt type v) ≡ false
  unfolding clamp
  clamp-is_clamped type (object es) =
      if_cases (λ w. is_clamped rt type w ≡ false) (clamps rt type es)
        (object (set min_doc_count one es)) (object es)
        (λ e. ground (arith, get-set min_doc_count one es, one_counts)) (λ e. e)
  clamp-is_clamped type null = refl
  clamp-is_clamped type (bool b) = refl
  clamp-is_clamped type (number n) = refl
  clamp-is_clamped type (string t) = refl
  clamp-is_clamped type (array vs) = refl

  check_types-AllEntries :
      (es out : Entries) → check_types rt es ≡ returns out → AllEntries (IsConfinedType rt) out
  unfolding check_types AllEntries
  check_types-AllEntries empty empty h = tt
  check_types-AllEntries empty (entry k v out) h = cc
  check_types-AllEntries (entry k v es) out h =
      let (allowed, rest, e, eq) =
        step_inv (includes forbidden_aggregations k) (check_types rt es) (entry k (clamp rt k v))
          out h in
      subst (AllEntries (IsConfinedType rt)) eq
        ((allowed, clamp-is_clamped k v), check_types-AllEntries es rest e)

  check_types-get :
      (key : Text) (es out : Entries)
      → check_types rt es ≡ returns out
      → get key es ≡ none
      → get key out ≡ none
  unfolding check_types get
  check_types-get key empty empty h g = refl
  check_types-get key empty (entry k v out) h g = cc
  check_types-get key (entry k v es) out h g =
      let (allowed, rest, e, eq) =
        step_inv (includes forbidden_aggregations k) (check_types rt es) (entry k (clamp rt k v))
          out h in
      subst (λ o. get key o ≡ none) eq
        (skip (text_eq k key) v (clamp rt k v) (check_types-get key es rest e) g)
    where
      skip :
          (b : Bool) (w w' : Json) {o o' : Option Json}
          → (o ≡ none → o' ≡ none)
          → (if b then some w else o) ≡ none
          → (if b then some w' else o') ≡ none
      skip true w w' f g' = cc
      skip false w w' f g' = f g'

  check_at-get : (key : Text) (es : Entries) → check_at rt key es ≡ returns none → get key es ≡ none
  unfolding check_at get
  check_at-get key empty h = refl
  check_at-get key (entry k v es) h =
      found (text_eq k key) (check_aggregations rt v) (check_at-get key es) h
    where
      found :
          (b : Bool) (r : Answer Json) {later : Answer (Option Json)} {o : Option Json}
          → (later ≡ returns none → o ≡ none)
          → (if b then (r >>= λ w. returns (some w)) else later) ≡ returns none
          → (if b then some v else o) ≡ none
      found true (returns w) f h' = cc
      found true (throws e) f h' = cc
      found false r f h' = f h'

  put-AllEntries {ℓ} :
      (P : Text → Json → Type ℓ) (key : Text) (o : Option Json) (es : Entries)
      → ((v : Json) → P key v)
      → AllEntries P es
      → AllEntries P (put key o es)
  put-AllEntries P key none es p h = h
  put-AllEntries P key (some v) es p h = set-AllEntries P key v es (p v) h

  put-ConfinedOption :
      (key : Text) (o : Option Json) (es : Entries)
      → ConfinedOption rt o
      → (o ≡ none → get key es ≡ none)
      → ConfinedOption rt (get key (put key o es))
  put-ConfinedOption key none es h f = subst (ConfinedOption rt) (sym (f refl)) tt
  put-ConfinedOption key (some v) es h f = subst (ConfinedOption rt) (sym (get-set key v es)) h

  pub get-put_other :
      (key other : Text) (o : Option Json) (es : Entries)
      → text_eq key other ≡ false
      → get other (put key o es) ≡ get other es
  get-put_other key other none es h = refl
  get-put_other key other (some v) es h = get-set_other key other v es h

  -- What stands under the two keys of sub-aggregations, once both have been checked.
  pub sub_aggregations_confined :
      (source es : Entries) (a b : Option Json)
      → ((key : Text) → get key source ≡ none → get key es ≡ none)
      → check_at rt aggs source ≡ returns a
      → check_at rt aggregations source ≡ returns b
      → ConfinedOption rt a
      → ConfinedOption rt b
      → ConfinedOption rt (get aggs (put aggregations b (put aggs a es)))
        × ConfinedOption rt (get aggregations (put aggregations b (put aggs a es)))
  unfolding text_eq
  sub_aggregations_confined source es a b keep ha hb ca cb = (
    subst (ConfinedOption rt) (sym (get-put_other aggregations aggs b (put aggs a es) refl)) (
        put-ConfinedOption aggs a es ca (λ e.
          keep aggs
            (check_at-get aggs source (subst (λ z. check_at rt aggs source ≡ returns z) e ha)))),
    put-ConfinedOption aggregations b (put aggs a es) cb (λ e.
        get-put_other aggs aggregations a es refl
        ∙ keep aggregations (
            check_at-get aggregations source
              (subst (λ z. check_at rt aggregations source ≡ returns z) e hb))),
  )

  at_cases :
      (b : Bool) (r : Answer Json) (later : Answer (Option Json)) (o : Option Json)
      → ((w : Json) → r ≡ returns w → IsConfined rt w)
      → ((o' : Option Json) → later ≡ returns o' → ConfinedOption rt o')
      → (if b then (r >>= λ w. returns (some w)) else later) ≡ returns o
      → ConfinedOption rt o
  at_cases true (returns w) later none f g h = tt
  at_cases true (returns w) later (some w') f g h = f w' cc
  at_cases true (throws e) later o f g h = cc
  at_cases false r later o f g h = g o h

  mutual
    unfolding check_aggregations IsConfined

    check_aggregations-IsConfined :
        (v w : Json) → check_aggregations rt v ≡ returns w → IsConfined rt w
    check_aggregations-IsConfined (object es) w h =
        let (out, e, eq) =
          >>=-eq-returns (check_definitions rt es) (λ out. returns (object out)) h in
        subst (ConfinedResult rt) eq (check_definitions-AreConfined es out e)
    check_aggregations-IsConfined null w h = cc
    check_aggregations-IsConfined (bool b) w h = cc
    check_aggregations-IsConfined (number n) w h = cc
    check_aggregations-IsConfined (string t) w h = cc
    check_aggregations-IsConfined (array vs) w h = cc

    check_definitions-AreConfined :
        (es out : Entries) → check_definitions rt es ≡ returns out → AreConfined rt out
    check_definitions-AreConfined empty empty h = tt
    check_definitions-AreConfined empty (entry k v out) h = cc
    check_definitions-AreConfined (entry name (object def) es) out h =
        let (types, a, b, rest, et, ea, eb, er, eq) =
          definition_inv name (check_types rt def) (check_at rt aggs def)
            (check_at rt aggregations def) (check_definitions rt es) out h in
        let subs =
          sub_aggregations_confined def types a b (λ key. check_types-get key def types et) ea eb
            (check_at-ConfinedOption aggs def a ea)
            (check_at-ConfinedOption aggregations def b eb) in
        subst (AreConfined rt) eq (
          put-AllEntries (IsConfinedType rt) aggregations b (put aggs a types)
              (λ v. (sub_aggregation_lem rt v).1)
              (put-AllEntries (IsConfinedType rt) aggs a types (λ v. (sub_aggregation_lem rt v).0)
                (check_types-AllEntries def types et)),
          get-ConfinedAt rt aggs (put aggregations b (put aggs a types)) subs.0,
          get-ConfinedAt rt aggregations (put aggregations b (put aggs a types)) subs.1,
          check_definitions-AreConfined es rest er,
        )
    check_definitions-AreConfined (entry name null es) out h = cc
    check_definitions-AreConfined (entry name (bool b) es) out h = cc
    check_definitions-AreConfined (entry name (number n) es) out h = cc
    check_definitions-AreConfined (entry name (string t) es) out h = cc
    check_definitions-AreConfined (entry name (array vs) es) out h = cc

    pub check_at-ConfinedOption :
        (key : Text) (es : Entries) (o : Option Json)
        → check_at rt key es ≡ returns o
        → ConfinedOption rt o
    check_at-ConfinedOption key empty none h = tt
    check_at-ConfinedOption key empty (some w) h = cc
    check_at-ConfinedOption key (entry k v es) o h =
        at_cases (text_eq k key) (check_aggregations rt v) (check_at rt key es) o
          (check_aggregations-IsConfined v) (check_at-ConfinedOption key es) h
