-- ===== src/Agents.antt =====
-- services/control-plane/src/modules/agents/agent.repository.ts and views.ts: the statements on the table
-- of agents. The record of an agent is its row with the tenant that the query joins.
pub mod Mirror
pub mod Keeps
mod Final
mod Tests
pub mod Service
use multi_tenant_cloud_obser.Base.{
  ℕ, Bool, true, false, not, ◌&&◌, ◌||◌, Option, none, some, List, [], ◌∷◌, ◌++◌, map, ◌==◌,
  if◌then◌else◌, any, Text, codes,
}
use multi_tenant_cloud_obser.Base.Tables.{select, find, update}
use multi_tenant_cloud_obser.Store.{
  Database, Agent, AgentStatus, provisioning, running, disabled, revoked, Tenant, Action, query,
  write, execute, attempt, Failure, internal_error, equal_id, equal_text, coalesce,
}
use multi_tenant_cloud_obser.Keycloak.{Env}

pub record AgentRecord : Type 0 where
  pub row : Agent
  pub tenant : Tenant

abbrev pub is_revoked : AgentStatus → Bool
is_revoked revoked = true
is_revoked _ = false

abbrev pub status_eq : AgentStatus → AgentStatus → Bool
status_eq provisioning provisioning = true
status_eq running running = true
status_eq disabled disabled = true
status_eq revoked revoked = true
status_eq _ _ = false

abbrev pub is_live : Agent → Bool
is_live a = not (is_revoked a.status)

abbrev pub agent_client_prefix : Text
agent_client_prefix = codes "otel-agent-"

abbrev pub agent_client_id : {W : Type 0} → Env W → ℕ → Text
agent_client_id env agent_id = agent_client_prefix ++ env.uuid_text agent_id

-- JOIN tenants t ON t.id = a.tenant_id.
abbrev pub with_tenant : Option Agent → (ℕ → Option Tenant) → Option AgentRecord
with_tenant none tenant_of = none
with_tenant (some a) tenant_of = elim (tenant_of a.tenant_id) [
  | none ↦ none
  | some t ↦ some (record { row = a; tenant = t })
]

abbrev pub tenant_by_id : Database → ℕ → Option Tenant
tenant_by_id db id = find (λ t. t.id == id) db.tenants

unfoldable pub joined : Database → (Agent → Bool) → Option AgentRecord
joined db where_ = with_tenant (find where_ db.agents) (tenant_by_id db)

abbrev pub find_agent : {W : Type 0} → ℕ → Action W (Option AgentRecord)
find_agent id = query (λ db. joined db (λ a. a.id == id))

abbrev pub find_live_agent : {W : Type 0} → ℕ → Action W (Option AgentRecord)
find_live_agent id = query (λ db. joined db (λ a. a.id == id && is_live a))

abbrev pub list_live_agents : {W : Type 0} → ℕ → Action W (List Agent)
list_live_agents tenant_id =
    query (λ db. select (λ a. a.tenant_id == tenant_id && is_live a) db.agents)

abbrev pub same_enrollment : Option ℕ → Option ℕ → Bool
same_enrollment none e = false
same_enrollment (some i) e = equal_id e i

-- The primary key, the client id that is made of it, and uq_agents_enrollment.
abbrev pub agent_taken : ℕ → Option ℕ → Agent → Bool
agent_taken id enrollment_id a = a.id == id || same_enrollment a.enrollment_id enrollment_id

abbrev pub new_agent : ℕ → ℕ → AgentStatus → Option ℕ → ℕ → Agent
new_agent id tenant_id status enrollment_id now = record {
  id = id;
  tenant_id = tenant_id;
  keycloak_client_uuid = none;
  status = status;
  created_at = now;
  revoked_at = none;
  enrollment_id = enrollment_id;
}

unfoldable pub insert_agent_row :
    ℕ → ℕ → AgentStatus → Option ℕ → ℕ → Database → Option (Agent × Database)
insert_agent_row id tenant_id status enrollment_id now db =
    if any (agent_taken id enrollment_id) db.agents
    then none
    else some (
      new_agent id tenant_id status enrollment_id now,
      record db { agents = db.agents ++ (new_agent id tenant_id status enrollment_id now ∷ []) },
    )

abbrev pub insert_agent : {W : Type 0} → ℕ → ℕ → AgentStatus → Option ℕ → Action W Agent
insert_agent id tenant_id status enrollment_id =
    attempt internal_error (insert_agent_row id tenant_id status enrollment_id)

unfoldable pub set_agent_status : ℕ → AgentStatus → Database → Database
set_agent_status id status db = record db {
  agents = update (λ a. a.id == id && is_live a) (λ a. record a { status = status }) db.agents;
}

abbrev pub revoke_agent : ℕ → Agent → Agent
revoke_agent now a = record a { status = revoked; revoked_at = coalesce a.revoked_at now }

unfoldable pub mark_agent_revoked : ℕ → ℕ → Database → Database
mark_agent_revoked id now db = record db {
  agents = update (λ a. a.id == id) (revoke_agent now) db.agents;
}

abbrev pub is_tenant_agent : ℕ → Agent → Bool
is_tenant_agent tenant_id a = a.tenant_id == tenant_id && is_live a

-- The ids that changed, and the table.
unfoldable pub revoke_tenant_agents : ℕ → ℕ → Database → List ℕ × Database
revoke_tenant_agents tenant_id now db = (
  map (λ a. a.id) (select (is_tenant_agent tenant_id) db.agents),
  record db { agents = update (is_tenant_agent tenant_id) (revoke_agent now) db.agents },
)

-- `none` where another row has the client: keycloak_client_uuid is unique.
unfoldable pub set_client_uuid : ℕ → Option Text → ℕ → Database → Option (Unit {0} × Database)
set_client_uuid id uuid now db =
    if any (λ a. not (a.id == id) && equal_text a.keycloak_client_uuid uuid) db.agents
    then none
    else some (
      tt,
      record db {
        agents = update (λ a. a.id == id) (λ a. record a { keycloak_client_uuid = uuid }) db.agents;
      },
    )

unfoldable pub live_agent_ids : Database → List ℕ
live_agent_ids db = map (λ a. a.id) (select is_live db.agents)

abbrev pub has_pointer : {A : Type 0} → Option A → Bool
has_pointer none = false
has_pointer (some a) = true

abbrev pub agent_needs_sync : Agent → Bool
agent_needs_sync a = is_live a || has_pointer a.keycloak_client_uuid

unfoldable pub agents_for_resync : Database → List ℕ
agents_for_resync db = map (λ a. a.id) (select agent_needs_sync db.agents)
