-- ===== src/Agents/Tests.antt =====
-- Agents on concrete inputs.
use multi_tenant_cloud_obser.Base.{ℕ, refl, true, some, [], ◌∷◌, any}
use multi_tenant_cloud_obser.Store.{System, revoked}
use multi_tenant_cloud_obser.Keycloak.Sample.{env, system, database, acme, collector}
use multi_tenant_cloud_obser.Agents.{AgentRecord, revoke_tenant_agents}
use multi_tenant_cloud_obser.Agents.Mirror.{apply_agent}
use multi_tenant_cloud_obser.Agents.Service.{update_agent, delete_agent, issue}
use multi_tenant_cloud_obser.Agents.Final.{IsRevoked, revoked-IsRevoked}

abbrev ended_system : System ℕ
ended_system = record system {
  db = record database { agents = record collector { status = revoked } ∷ [] };
}

abbrev mirrored : AgentRecord
mirrored = record { row = collector; tenant = acme }

ended : IsRevoked 4 ended_system.db
unfolding IsRevoked any
ended = (refl, refl)

revoked-IsRevoked_example :
    IsRevoked 4 (update_agent acme (some 4) (some true) ended_system).1.db
    × IsRevoked 4 (delete_agent acme (some 4) ended_system).1.db
    × IsRevoked 4 (issue env acme 9 6 ended_system).1.db
    × IsRevoked 4 (apply_agent env mirrored ended_system).1.db
    × IsRevoked 4 (revoke_tenant_agents 1 100 ended_system.db).1
revoked-IsRevoked_example =
    revoked-IsRevoked env ended_system 4 acme (some 4) (some true) 9 6 mirrored ended
