-- ===== src/Keycloak.antt =====
-- services/control-plane/src/integrations/keycloak: the representations of keycloak.types.ts, and the
-- operations of keycloak.client.ts as the mirrors use them: a record of calls of a world outside.
pub mod Sample
use multi_tenant_cloud_obser.Base.{
  ℕ, Bool, Option, none, some, List, [], ◌∷◌, Text, text_eq, codes, if◌then◌else◌,
}
use multi_tenant_cloud_obser.Store.{Call}

abbrev pub Attributes : Type 0
Attributes = List (Text × List Text)

pub record KcGroup : Type 0 where
  pub id : Text
  pub name : Text
  pub attributes : Attributes

pub record KcUser : Type 0 where
  pub id : Text
  pub username : Text
  pub email : Text
  pub first_name : Option Text
  pub last_name : Option Text
  pub enabled : Bool
  pub email_verified : Bool
  pub attributes : Attributes

pub record KcClient : Type 0 where
  pub id : Text
  pub client_id : Text
  pub enabled : Bool
  pub attributes : List (Text × Text)

pub record KcProtocolMapper : Type 0 where
  pub id : Option Text
  pub name : Text

abbrev pub tenant_marker : Text
tenant_marker = codes "mtco_tenant_id"

abbrev pub user_marker : Text
user_marker = codes "mtco_user_id"

abbrev pub agent_marker : Text
agent_marker = codes "mtco_agent_id"

-- `entries[key]`, and the spread that sets one key.
unfoldable pub property : {A : Type 0} → Text → List (Text × A) → Option A
property key [] = none
property key ((k, a) ∷ entries) =
    let later = property key entries in if text_eq k key then some a else later

unfoldable pub with_property : {A : Type 0} → Text → A → List (Text × A) → List (Text × A)
with_property key value [] = (key, value) ∷ []
with_property key value ((k, a) ∷ entries) =
    let later = (k, a) ∷ with_property key value entries in
    if text_eq k key then (key, value) ∷ entries else later

unfoldable pub without_key : {A : Type 0} → Text → List (Text × A) → List (Text × A)
without_key key [] = []
without_key key ((k, a) ∷ entries) =
    let later = without_key key entries in if text_eq k key then later else (k, a) ∷ later

abbrev pub first_value : Option (List Text) → Option Text
first_value none = none
first_value (some []) = none
first_value (some (v ∷ vs)) = some v

-- `attr`: the first value of an attribute.
abbrev pub attr : Attributes → Text → Option Text
attr attributes key = first_value (property key attributes)

-- A text that a test on it takes for present.
abbrev pub truthy : Option Text → Option Text
truthy none = none
truthy (some []) = none
truthy (some (c ∷ t)) = some (c ∷ t)

pub record KeycloakClient (W : Type 0) : Type 0 where
  -- The first result and the number of results of a page.
  pub list_clients : Text → ℕ → ℕ → Call W (List KcClient)
  pub list_users : ℕ → ℕ → Call W (List KcUser)
  pub list_groups : ℕ → ℕ → Call W (List KcGroup)
  pub get_client : Text → Call W (Option KcClient)
  pub find_client : Text → Call W (Option KcClient)
  pub create_client : Text → List (Text × Text) → Call W Text
  pub update_client : KcClient → Call W (Unit {0})
  pub delete_client : Text → Call W (Unit {0})
  pub get_client_secret : Text → Call W Text
  pub get_service_account_user : Text → Call W KcUser
  pub update_user : KcUser → Call W (Unit {0})
  pub get_client_default_scopes : Text → Call W (List Text)
  pub find_client_scope : Text → Call W (Option Text)
  pub add_client_default_scope : Text → Text → Call W (Unit {0})
  pub get_protocol_mappers : Text → Call W (List KcProtocolMapper)
  pub delete_protocol_mapper : Text → Text → Call W (Unit {0})
  pub get_group : Text → Call W (Option KcGroup)
  pub find_top_level_group : Text → Call W (Option KcGroup)
  pub create_group : Text → Attributes → Call W Text
  pub update_group : KcGroup → Call W (Unit {0})
  pub delete_group : Text → Call W (Unit {0})
  pub get_user : Text → Call W (Option KcUser)
  pub find_user_by_username : Text → Call W (Option KcUser)
  -- `none` where Keycloak answers 409.
  pub create_user : KcUser → Call W (Option Text)
  pub delete_user : Text → Call W (Unit {0})
  pub reset_password : Text → Text → Call W (Unit {0})
  pub logout_user : Text → Call W (Unit {0})
  pub get_user_groups : Text → Call W (List KcGroup)
  pub add_user_to_group : Text → Text → Call W (Unit {0})
  pub remove_user_from_group : Text → Text → Call W (Unit {0})
  pub realm_role : Text → Call W Text
  pub get_user_realm_roles : Text → Call W (List Text)
  pub add_user_realm_roles : Text → List Text → Call W (Unit {0})
  pub remove_user_realm_roles : Text → List Text → Call W (Unit {0})

-- What the services are injected with: Keycloak, the texts of ids and numbers, and SHA-256.
pub record Env (W : Type 0) : Type 0 where
  pub keycloak : KeycloakClient W
  pub uuid_text : ℕ → Text
  pub parse_uuid : Text → Option ℕ
  pub number_text : ℕ → Text
  pub hash_token : Text → Text
  -- `text.toLowerCase()` and PostgreSQL's `lower`.
  pub to_lower : Text → Text
