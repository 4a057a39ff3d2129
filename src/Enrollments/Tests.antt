-- ===== src/Enrollments/Tests.antt =====
-- Enrollments on concrete inputs.
use multi_tenant_cloud_obser.Base.{ℕ, ◌≡◌, refl, [], ◌∷◌, ◌++◌, codes, text_eq, includes, any}
use multi_tenant_cloud_obser.Base.Tables.{find, update}
use multi_tenant_cloud_obser.Store.{
  System, failed, done, give, throw, query, execute, call, found_or, ◌>>=◌, ◌>>◌, throw_if, when,
  attempt, transaction, enqueue_event,
}
use multi_tenant_cloud_obser.Keycloak.{property, with_property}
use multi_tenant_cloud_obser.Keycloak.Sample.{env, system, token}
use multi_tenant_cloud_obser.Agents.{joined, insert_agent_row, set_agent_status, set_client_uuid}
use multi_tenant_cloud_obser.Agents.Mirror.{
  resolve_client, add_scope, delete_legacy, ensure_claims, issue_credentials,
}
use multi_tenant_cloud_obser.Agents.Service.{issue}
use multi_tenant_cloud_obser.Enrollments.{mark_used, revoke_open_for_tenant}
use multi_tenant_cloud_obser.Enrollments.Service.{
  EnrollmentConfig, ExchangeResult, exchange, exchange_in, enrollment_invalid, gone_used,
}
use multi_tenant_cloud_obser.Enrollments.Cycle.{Grows}
use multi_tenant_cloud_obser.Enrollments.History.{Later, at_once, after, cascaded, Later-Grows}
use multi_tenant_cloud_obser.Enrollments.Exchange.{exchange_refused}
use multi_tenant_cloud_obser.Enrollments.Once.{exchange_once}

abbrev config : EnrollmentConfig
config = record { ttl_minutes = 30; token_url = codes "t"; otel_gateway_public_url = codes "o" }

abbrev exchanged_system : System ℕ
exchanged_system = (exchange env config token system).1

abbrev result : ExchangeResult
result = record {
  agent_id = 7;
  client_id = codes "otel-agent-" ++ (7 ∷ []);
  tenant_key = codes "acme";
  client_secret = codes "secret";
  token_url = codes "t";
  gateway_endpoint = codes "o";
}

abbrev later_system : System ℕ
later_system = record exchanged_system {
  db = revoke_open_for_tenant 1 3 exchanged_system.now exchanged_system.db;
}

first_exchange : exchange env config token system ≡ (done result, exchanged_system)
unfolding exchange exchange_in ◌>>=◌ ◌>>◌ throw_if when throw give query execute call found_or
    attempt transaction enqueue_event find update any text_eq includes property with_property joined
    insert_agent_row set_agent_status set_client_uuid resolve_client add_scope delete_legacy
    ensure_claims issue_credentials issue mark_used
first_exchange = refl

history : Later env config exchanged_system later_system
history = after at_once (cascaded 1 3)

exchange_once_example : exchange env config token later_system ≡ (failed gone_used, later_system)
exchange_once_example =
    exchange_once env config token system exchanged_system later_system result first_exchange
      history

Later-Grows_example : Grows exchanged_system.db.enrollments later_system.db.enrollments
Later-Grows_example = Later-Grows env config exchanged_system later_system history

exchange_refused_example :
    exchange env config (codes "x") system ≡ (failed enrollment_invalid, system)
unfolding find text_eq
exchange_refused_example = exchange_refused env config (codes "x") system enrollment_invalid refl
