-- ===== src/Gateway/Aggregations.antt =====
-- proxy/opensearch-tenant.service.ts, `checkAggregations`: what it means that aggregations compute
-- within the search query.
use multi_tenant_cloud_obser.Base.{
  ◌≡◌, refl, sym, subst, Bool, true, false, Option, none, some, if◌then◌else◌, if_cases, Text,
  text_eq, text_eq_sound, includes,
}
use multi_tenant_cloud_obser.Gateway.{Answer, returns, throws}
use multi_tenant_cloud_obser.Gateway.Json.{
  Json, null, bool, number, string, array, object, Entries, empty, entry, get, set, AllEntries,
}
use multi_tenant_cloud_obser.Gateway.Filter.{
  Runtime, forbidden_aggregations, aggs, aggregations, clamps,
}

abbrev pub is_clamped : Runtime → Text → Json → Bool
is_clamped rt type (object settings) = clamps rt type settings
is_clamped rt type v = false

-- An aggregation that stays within the query: its type is none of those that leave it, and it does
-- not list the terms that no document has.
abbrev pub IsConfinedType : Runtime → Text → Json → Type 0
IsConfinedType rt type settings =
    (includes forbidden_aggregations type ≡ false) × (is_clamped rt type settings ≡ false)

-- Aggregations that stay within the query at every depth.
unfoldable mutual
  pub IsConfined : Runtime → Json → Type 0
  IsConfined rt (object definitions) = AreConfined rt definitions
  IsConfined rt v = ⊥

  pub AreConfined : Runtime → Entries → Type 0
  AreConfined rt empty = Unit
  AreConfined rt (entry name (object definition) es) =
      AllEntries (IsConfinedType rt) definition
      × ConfinedAt rt aggs definition
      × ConfinedAt rt aggregations definition
      × AreConfined rt es
  AreConfined rt (entry name v es) = ⊥

  -- What stands under a key, if anything does.
  pub ConfinedAt : Runtime → Text → Entries → Type 0
  ConfinedAt rt key empty = Unit
  ConfinedAt rt key (entry k v es) = if text_eq k key then IsConfined rt v else ConfinedAt rt key es

abbrev pub ConfinedOption : Runtime → Option Json → Type 0
ConfinedOption rt none = Unit
ConfinedOption rt (some v) = IsConfined rt v

abbrev pub ConfinedResult : Runtime → Answer Json → Type 0
ConfinedResult rt (returns v) = IsConfined rt v
ConfinedResult rt (throws e) = Unit

pub get-ConfinedAt :
    (rt : Runtime) (key : Text) (es : Entries)
    → ConfinedOption rt (get key es)
    → ConfinedAt rt key es
unfolding get ConfinedAt
get-ConfinedAt rt key empty h = tt
get-ConfinedAt rt key (entry k v es) h = choose (text_eq k key) (get-ConfinedAt rt key es) h
  where
    choose :
        (b : Bool)
        → (ConfinedOption rt (get key es) → ConfinedAt rt key es)
        → ConfinedOption rt (if b then some v else get key es)
        → if b then IsConfined rt v else ConfinedAt rt key es
    choose true f h' = h'
    choose false f h' = f h'

pub set-AllEntries {ℓ} :
    (P : Text → Json → Type ℓ) (key : Text) (value : Json) (es : Entries)
    → P key value
    → AllEntries P es
    → AllEntries P (set key value es)
unfolding set AllEntries
set-AllEntries P key value empty p h = (p, tt)
set-AllEntries P key value (entry k v es) p h =
    if_cases (AllEntries P) (text_eq k key) (entry k value es) (entry k v (set key value es))
      (λ e. (subst (λ z. P z value) (sym (text_eq_sound k key e)) p, h.1))
      (λ e. (h.0, set-AllEntries P key value es p h.1))

-- A key under which the loop over the types of one definition never objects or clamps.
pub sub_aggregation_lem :
    (rt : Runtime) (v : Json) → IsConfinedType rt aggs v × IsConfinedType rt aggregations v
unfolding includes text_eq
sub_aggregation_lem rt null = ((refl, refl), (refl, refl))
sub_aggregation_lem rt (bool b) = ((refl, refl), (refl, refl))
sub_aggregation_lem rt (number n) = ((refl, refl), (refl, refl))
sub_aggregation_lem rt (string t) = ((refl, refl), (refl, refl))
sub_aggregation_lem rt (array vs) = ((refl, refl), (refl, refl))
sub_aggregation_lem rt (object es) = ((refl, refl), (refl, refl))
