-- ===== src/Keycloak/Sample.antt =====
-- A Keycloak that answers every call, a database with one of everything, and the system of the two: the
-- concrete inputs of the tests. The world outside counts the calls that change it.
use multi_tenant_cloud_obser.Base.{ℕ, suc, true, Option, none, some, [], ◌∷◌, Text, codes}
use multi_tenant_cloud_obser.Guards.{platform_admin, viewer, Actor}
use multi_tenant_cloud_obser.Store.{
  done, Call, Tenant, User, Agent, Enrollment, Grant, Database, System, active, running,
  grant_viewer,
}
use multi_tenant_cloud_obser.Keycloak.{
  KcGroup, KcUser, KeycloakClient, Env, tenant_marker, user_marker,
}

abbrev pub answers : {A : Type 0} → A → Call ℕ A
answers a w = (done a, w)

abbrev pub changes : {A : Type 0} → A → Call ℕ A
changes a w = (done a, suc w)

-- Whoever is asked for is marked as user 20.
abbrev pub account : Text → KcUser
account id = record {
  id = id;
  username = codes "eve";
  email = codes "e";
  first_name = none;
  last_name = none;
  enabled = true;
  email_verified = true;
  attributes = (user_marker, (20 ∷ []) ∷ []) ∷ [];
}

abbrev pub group : KcGroup
group = record {
  id = codes "g";
  name = codes "acme";
  attributes = (tenant_marker, (1 ∷ []) ∷ []) ∷ [];
}

abbrev pub client : KeycloakClient ℕ
client = record {
  list_clients = λ prefix first max. answers [];
  list_users = λ first max. answers (account (codes "u") ∷ []);
  list_groups = λ first max. answers [];
  get_client = λ id. answers none;
  find_client = λ id. answers none;
  create_client = λ id attributes. changes (codes "client");
  update_client = λ c. changes tt;
  delete_client = λ id. changes tt;
  get_client_secret = λ id. answers (codes "secret");
  get_service_account_user = λ id. answers (account (codes "service"));
  update_user = λ u. changes tt;
  get_client_default_scopes = λ id. answers (codes "mtco-agent" ∷ []);
  find_client_scope = λ name. answers (some (codes "scope"));
  add_client_default_scope = λ id scope. changes tt;
  get_protocol_mappers = λ id. answers [];
  delete_protocol_mapper = λ id mapper. changes tt;
  get_group = λ id. answers (some group);
  find_top_level_group = λ name. answers (some group);
  create_group = λ name attributes. changes (codes "g");
  update_group = λ g. changes tt;
  delete_group = λ id. changes tt;
  get_user = λ id. answers (some (account id));
  find_user_by_username = λ name. answers none;
  create_user = λ u. changes (some (codes "k"));
  delete_user = λ id. changes tt;
  reset_password = λ id password. changes tt;
  logout_user = λ id. changes tt;
  get_user_groups = λ id. answers [];
  add_user_to_group = λ id group. changes tt;
  remove_user_from_group = λ id group. changes tt;
  realm_role = λ name. answers name;
  get_user_realm_roles = λ id. answers [];
  add_user_realm_roles = λ id roles. changes tt;
  remove_user_realm_roles = λ id roles. changes tt;
}

abbrev pub number_of : Text → Option ℕ
number_of (n ∷ []) = some n
number_of _ = none

abbrev pub env : Env ℕ
env = record {
  keycloak = client;
  uuid_text = λ n. n ∷ [];
  parse_uuid = number_of;
  number_text = λ n. n ∷ [];
  hash_token = λ t. t;
  to_lower = λ t. t;
}

abbrev pub acme : Tenant
acme = record {
  id = 1;
  tenant_key = codes "acme";
  vm_account_id = 5;
  keycloak_group_id = some (codes "g");
  grafana_org_id = none;
  status = active;
  created_at = 0;
  deleted_at = none;
}

abbrev pub ann : User
ann = record {
  id = 2;
  keycloak_user_id = some (codes "a");
  tenant_id = some 1;
  username = codes "ann";
  email = codes "ann@x";
  first_name = none;
  last_name = none;
  role = viewer;
  enabled = true;
  grafana_user_id = none;
  status = active;
  created_at = 0;
  deleted_at = none;
}

abbrev pub collector : Agent
collector = record {
  id = 4;
  tenant_id = 1;
  keycloak_client_uuid = none;
  status = running;
  created_at = 0;
  revoked_at = none;
  enrollment_id = none;
}

abbrev pub token : Text
token = codes "token"

abbrev pub enrollment : Enrollment
enrollment = record {
  id = 6;
  tenant_id = 1;
  token_hash = token;
  agent_id = 7;
  created_by = 2;
  created_at = 0;
  expires_at = 1000;
  used_at = none;
  revoked_at = none;
  revoked_by = none;
}

-- It has expired at the time of the sample, and its end is not announced.
abbrev pub grant : Grant
grant = record {
  id = 8;
  user_id = 2;
  tenant_id = 1;
  role = grant_viewer;
  reason = codes "TICKET-42 no data";
  granted_by = codes "root";
  created_at = 0;
  expires_at = 50;
  revoked_at = none;
  revoked_by = none;
  expiry_synced_at = none;
}

abbrev pub database : Database
database = record {
  tenants = acme ∷ [];
  users = ann ∷ [];
  agents = collector ∷ [];
  enrollments = enrollment ∷ [];
  grants = grant ∷ [];
  outbox = record { rows = []; next_id = 1 };
  next_id = 20;
  next_account = 6;
}

abbrev pub system : System ℕ
system = record { db = database; world = 0; now = 100; scope_id = none }

abbrev pub admin : Actor
admin = record {
  user_id = 3;
  keycloak_user_id = codes "r";
  username = codes "root";
  email = codes "r@x";
  role = platform_admin;
  tenant_id = none;
  tenant_key = none;
}
