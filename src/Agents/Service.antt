-- ===== src/Agents/Service.antt =====
-- services/control-plane/src/modules/agents/agents.service.ts. A view of an agent is its record.
use multi_tenant_cloud_obser.Base.{
  ℕ, Bool, not, Option, none, some, ◌==◌, if◌then◌else◌, Text, codes,
}
use multi_tenant_cloud_obser.Outbox.{agent, mirror_targets}
use multi_tenant_cloud_obser.Store.{
  AgentStatus, provisioning, running, disabled, Tenant, Action, Failure, domain, not_found,
  internal_error, give, throw, write, found_or, when, ◌>>=◌, ◌>>◌, transaction, enqueue_event,
}
use multi_tenant_cloud_obser.Keycloak.{Env}
use multi_tenant_cloud_obser.Agents.{
  AgentRecord, find_agent, find_live_agent, insert_agent, set_agent_status, mark_agent_revoked,
  status_eq,
}
use multi_tenant_cloud_obser.Agents.Mirror.{issue_credentials}

abbrev pub agent_not_found : Failure
agent_not_found = domain not_found (codes "agent_not_found")

-- `findById(…) ?? agent`.
abbrev pub or_record : {A : Type 0} → Option A → A → A
or_record none a = a
or_record (some b) a = b

abbrev pub live_or_none : {W : Type 0} → Option ℕ → Action W (Option AgentRecord)
live_or_none none = give none
live_or_none (some id) = find_live_agent id

abbrev pub of_tenant : {W : Type 0} → Tenant → Option AgentRecord → Action W AgentRecord
of_tenant tenant none = throw agent_not_found
of_tenant tenant (some found) =
    if found.row.tenant_id == tenant.id then give found else throw agent_not_found

unfoldable pub require_agent : {W : Type 0} → Tenant → Option ℕ → Action W AgentRecord
require_agent tenant agent_id = live_or_none agent_id >>= of_tenant tenant

abbrev pub enqueue_agent : {W : Type 0} → ℕ → Action W (Unit {0})
enqueue_agent id = enqueue_event agent id (mirror_targets agent)

abbrev pub change_status : {W : Type 0} → AgentRecord → AgentStatus → Action W (Unit {0})
change_status found status = when (not (status_eq status found.row.status)) (
    transaction (write (λ now. set_agent_status found.row.id status) >> enqueue_agent found.row.id))

abbrev pub update_status : {W : Type 0} → AgentRecord → Option Bool → Action W (Unit {0})
update_status found none = give tt
update_status found (some enabled) =
    when (not (status_eq found.row.status provisioning))
      (change_status found (if enabled then running else disabled))

unfoldable pub update_agent : {W : Type 0} → Tenant → Option ℕ → Option Bool → Action W AgentRecord
update_agent tenant agent_id enabled = require_agent tenant agent_id >>= λ found.
    update_status found enabled >> (find_agent found.row.id >>= λ o. give (or_record o found))

unfoldable pub delete_agent : {W : Type 0} → Tenant → Option ℕ → Action W (Unit {0})
delete_agent tenant agent_id = require_agent tenant agent_id >>= λ found.
    transaction (write (mark_agent_revoked found.row.id) >> enqueue_agent found.row.id)

pub record IssuedAgent : Type 0 where
  pub agent_record : AgentRecord
  pub client_secret : Text

-- Runs in the transaction of the exchange.
unfoldable pub issue : {W : Type 0} → Env W → Tenant → ℕ → ℕ → Action W IssuedAgent
issue env tenant agent_id enrollment_id = do
  row ← insert_agent agent_id tenant.id provisioning (some enrollment_id)
  inserted ← find_agent row.id
  found ← found_or internal_error inserted
  credentials ← issue_credentials env found
  write (λ now. set_agent_status found.row.id running)
  enqueue_agent found.row.id
  issued ← find_agent found.row.id
  give (record { agent_record = or_record issued found; client_secret = credentials.client_secret })
