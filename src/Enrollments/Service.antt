-- ===== src/Enrollments/Service.antt =====
-- services/control-plane/src/modules/enrollments/enrollments.service.ts. A view of an enrollment is its
-- record; the random token is an argument.
use multi_tenant_cloud_obser.Base.{
  ℕ, not, Option, none, some, List, ◌==◌, if◌then◌else◌, Text, codes, is_some,
}
use multi_tenant_cloud_obser.Store.{
  Tenant, Action, Failure, domain, invalid, forbidden, not_found, conflict, gone, internal_error,
  give, throw, query, execute, write, attempt, found_or, throw_if, fresh_id, ◌>>=◌, ◌>>◌,
  transaction, is_active,
}
use multi_tenant_cloud_obser.Keycloak.{Env}
use multi_tenant_cloud_obser.Guards.{Actor}
use multi_tenant_cloud_obser.Agents.{agent_client_id, tenant_by_id}
use multi_tenant_cloud_obser.Agents.Service.{issue}
use multi_tenant_cloud_obser.Enrollments.{
  EnrollmentRecord, lock_by_token_hash, find_by_id, insert_enrollment, mark_used, revoke_enrollment,
  list_by_tenant,
}

-- Of the configuration, what the answers name.
pub record EnrollmentConfig : Type 0 where
  pub ttl_minutes : ℕ
  pub token_url : Text
  pub otel_gateway_public_url : Text

pub record ExchangeResult : Type 0 where
  pub agent_id : ℕ
  pub client_id : Text
  pub tenant_key : Text
  pub client_secret : Text
  pub token_url : Text
  pub gateway_endpoint : Text

abbrev pub enrollment_not_found : Failure
enrollment_not_found = domain not_found (codes "enrollment_not_found")

abbrev pub enrollment_invalid : Failure
enrollment_invalid = domain forbidden (codes "enrollment_invalid")

abbrev pub gone_used : Failure
gone_used = domain gone (codes "enrollment_used")

abbrev pub gone_revoked : Failure
gone_revoked = domain gone (codes "enrollment_revoked")

abbrev pub gone_expired : Failure
gone_expired = domain gone (codes "enrollment_expired")

abbrev pub conflict_used : Failure
conflict_used = domain conflict (codes "enrollment_used")

abbrev pub tenant_not_active : Failure
tenant_not_active = domain invalid (codes "tenant_not_active")

module _ {W : Type 0} (env : Env W) (config : EnrollmentConfig) where
  -- `token` is what randomBytes gives; the answer carries it, and the table only its hash.
  unfoldable pub create_enrollment : Actor → Tenant → Text → Action W (EnrollmentRecord × Text)
  create_enrollment actor tenant token = do
    agent_id ← execute (λ now. fresh_id)
    id ← attempt internal_error (
        insert_enrollment tenant.id (env.hash_token token) agent_id actor.user_id
          config.ttl_minutes)
    created ← find_by_id id
    enrollment ← found_or internal_error created
    give (enrollment, token)

  abbrev pub list : Tenant → Action W (List EnrollmentRecord)
  list tenant = list_by_tenant tenant.id

  abbrev pub by_valid_id : Option ℕ → Action W (Option EnrollmentRecord)
  by_valid_id none = give none
  by_valid_id (some id) = find_by_id id

  abbrev pub revoke_found : Actor → Tenant → Option EnrollmentRecord → Action W (Unit {0})
  revoke_found actor tenant none = throw enrollment_not_found
  revoke_found actor tenant (some e) =
      throw_if (not (e.row.tenant_id == tenant.id)) enrollment_not_found
      >> (throw_if (is_some e.row.used_at) conflict_used
          >> write (revoke_enrollment e.row.id actor.user_id))

  -- `none` stands for an id that is no UUID.
  unfoldable pub revoke : Actor → Tenant → Option ℕ → Action W (Unit {0})
  revoke actor tenant enrollment_id = by_valid_id enrollment_id >>= revoke_found actor tenant

  abbrev pub require_active : Option Tenant → Action W Tenant
  require_active none = throw tenant_not_active
  require_active (some t) = if is_active t.status then give t else throw tenant_not_active

  abbrev pub exchange_for : EnrollmentRecord → Action W ExchangeResult
  exchange_for e = do
    found ← query (λ db. tenant_by_id db e.row.tenant_id)
    tenant ← require_active found
    issued ← issue env tenant e.row.agent_id e.row.id
    attempt internal_error (mark_used e.row.id)
    give (record {
      agent_id = issued.agent_record.row.id;
      client_id = agent_client_id env issued.agent_record.row.id;
      tenant_key = tenant.tenant_key;
      client_secret = issued.client_secret;
      token_url = config.token_url;
      gateway_endpoint = config.otel_gateway_public_url;
    })

  abbrev pub exchange_locked : Option EnrollmentRecord → Action W ExchangeResult
  exchange_locked none = throw enrollment_invalid
  exchange_locked (some e) =
      throw_if (is_some e.row.used_at) gone_used
      >> (throw_if (is_some e.row.revoked_at) gone_revoked
          >> (throw_if e.expired gone_expired >> exchange_for e))

  unfoldable pub exchange_in : Text → Action W ExchangeResult
  exchange_in token_hash = lock_by_token_hash token_hash >>= exchange_locked

  unfoldable pub exchange : Text → Action W ExchangeResult
  exchange token = transaction (exchange_in (env.hash_token token))
