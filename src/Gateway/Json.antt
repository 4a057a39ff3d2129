-- ===== src/Gateway/Json.antt =====
-- JSON values, as the body parser and JSON.parse give them to proxy/opensearch-tenant.service.ts.
-- A number and a string are texts: the source compares no number except by `Number(…) === 0`, which
-- stands among the parameters of Search.
use multi_tenant_cloud_obser.Base.{
  ◌≡◌, sym, ap, subst, Bool, true, false, Option, none, some, arith, if◌then◌else◌, Text, text_eq,
  text_eq_refl, text_eq_sound, Bool-cases, inl, inr,
}

mutual
  pub data Json : Type 0 where
    null : Json
    bool : Bool → Json
    number string : Text → Json
    array : Items → Json
    object : Entries → Json

  pub data Items : Type 0 where
    end : Items
    item : Json → Items → Items

  -- The own properties of an object, in their order.
  pub data Entries : Type 0 where
    empty : Entries
    entry : Text → Json → Entries → Entries

-- `object[key]`; `none` is `undefined`.
unfoldable pub get : Text → Entries → Option Json
get key empty = none
get key (entry k v es) = let later = get key es in if text_eq k key then some v else later

-- `object[key] = value`.
unfoldable pub set : Text → Json → Entries → Entries
set key value empty = entry key value empty
set key value (entry k v es) =
    let later = entry k v (set key value es) in if text_eq k key then entry k value es else later

-- The test that a value of `undefined` does not reach.
abbrev pub is_plain_object : Json → Bool
is_plain_object (object es) = true
is_plain_object v = false

unfoldable pub AllEntries {ℓ} : (Text → Json → Type ℓ) → Entries → Type ℓ
AllEntries P empty = Unit
AllEntries P (entry k v es) = P k v × AllEntries P es

pub get-set : (key : Text) (value : Json) (es : Entries) → get key (set key value es) ≡ some value
unfolding get set
get-set key value empty = ap (λ b. if b then some value else none) (text_eq_refl key)
get-set key value (entry k v es) = elim (Bool-cases (text_eq k key)) [
  | inl e ↦ ground (arith, e)
  | inr e ↦ ground (arith, e, get-set key value es)
]

pub get-set_other :
    (key other : Text) (value : Json) (es : Entries)
    → text_eq key other ≡ false
    → get other (set key value es) ≡ get other es
unfolding get set
get-set_other key other value empty h = ap (λ b. if b then some value else none) h
get-set_other key other value (entry k v es) h = elim (Bool-cases (text_eq k key)) [
  | inl e ↦ ground (arith, e, subst (λ z. text_eq z other ≡ false) (sym (text_eq_sound k key e)) h)
  | inr e ↦ ground (arith, e, get-set_other key other value es h)
]
