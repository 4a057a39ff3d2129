-- ===== src/Agents/Keeps.antt =====
-- What issuing and mirroring an agent leave as it is: a property of the tables that survives the
-- statements on agents that they run, and does not look at the outbox.
use multi_tenant_cloud_obser.Base.{ℕ, Option, none, some, List, [], ◌∷◌, Text}
use multi_tenant_cloud_obser.Outbox.{Outbox}
use multi_tenant_cloud_obser.Store.{
  Database, System, Reply, failed, done, AgentStatus, provisioning, running, disabled, revoked,
  Tenant, call, ◌>>=◌, enqueue_event,
}
use multi_tenant_cloud_obser.Store.Keeps.{
  Keeps, Keeps-bind, Keeps-then, Keeps-write, Keeps-call, Keeps-when, Keeps-found_or, Keeps-give,
  Keeps-throw, Keeps-query, Keeps-attempt, Keeps-if, OnSuccess,
}
use multi_tenant_cloud_obser.Keycloak.{Env, KcClient, KcProtocolMapper}
use multi_tenant_cloud_obser.Agents.{
  AgentRecord, insert_agent, insert_agent_row, set_agent_status, set_client_uuid,
}
use multi_tenant_cloud_obser.Agents.Mirror.{
  kc, save_client_uuid, stored_client, client_by_pointer, resolve_client, forget_scope, scope_found,
  known_scope, the_scope, add_scope, delete_mapper, delete_legacy, ensure_claims, existing_or_new,
  issue_credentials, converge, delete_found, apply_status, apply_agent,
}
use multi_tenant_cloud_obser.Agents.Service.{issue, enqueue_agent}

module _ {ℓ} {W : Type 0} (P : Database → Type ℓ)
    (insert_free : (id tenant_id : ℕ) (enrollment_id : Option ℕ) (now : ℕ) (db : Database)
      → P db
      → OnSuccess P (insert_agent_row id tenant_id provisioning enrollment_id now db))
    (status_free : (id : ℕ) (status : AgentStatus) (db : Database)
      → P db
      → P (set_agent_status id status db))
    (pointer_free : (id : ℕ) (uuid : Option Text) (now : ℕ) (db : Database)
      → P db
      → OnSuccess P (set_client_uuid id uuid now db))
    (outbox_free : (db : Database) (o : Outbox) → P db → P (record db { outbox = o }))
    (env : Env W) where
  Keeps-insert :
      (id tenant_id : ℕ) (enrollment_id : Option ℕ)
      → Keeps {W = W} P (insert_agent id tenant_id provisioning enrollment_id)
  Keeps-insert id tenant_id e = Keeps-attempt _ _ (insert_free id tenant_id e)

  Keeps-save_client_uuid : (id : ℕ) (uuid : Option Text) → Keeps P (save_client_uuid env id uuid)
  Keeps-save_client_uuid id uuid = Keeps-attempt _ _ (pointer_free id uuid)

  Keeps-stored_client : (a : AgentRecord) (o : Option KcClient) → Keeps P (stored_client env a o)
  Keeps-stored_client a none = Keeps-call _
  Keeps-stored_client a (some c) = Keeps-if _ (Keeps-give _) (Keeps-call _)

  Keeps-client_by_pointer :
      (a : AgentRecord) (o : Option Text) → Keeps P (client_by_pointer env a o)
  Keeps-client_by_pointer a none = Keeps-call _
  Keeps-client_by_pointer a (some uuid) = Keeps-bind (Keeps-call _) (Keeps-stored_client a)

  Keeps-resolve_client : (a : AgentRecord) → Keeps P (resolve_client env a)
  unfolding resolve_client
  Keeps-resolve_client a = Keeps-client_by_pointer a a.row.keycloak_client_uuid

  Keeps-known_scope : (o : Option Text) → Keeps P (known_scope env o)
  Keeps-known_scope (some id) = Keeps-give _
  Keeps-known_scope none = Keeps-bind (Keeps-call _) found
    where
      found : (o : Option Text) → Keeps P (scope_found env o)
      found none = Keeps-throw _
      found (some id) = Keeps-then (record { kept = λ s h. h }) (Keeps-give _)

  Keeps-add_scope : (c : Text) → Keeps P (add_scope env c)
  unfolding add_scope
  Keeps-add_scope c = record { kept = λ s h. forgotten _ (scoped.kept s h) }
    where
      scoped : Keeps P (the_scope env >>= λ id. call ((kc env).add_client_default_scope c id))
      scoped =
          Keeps-bind (record { kept = λ s. (Keeps-known_scope s.scope_id).kept s })
            (λ id. Keeps-call _)

      forgotten : (r : Reply (Unit {0}) × System W) → P r.1.db → P (forget_scope env r).1.db
      forgotten (failed e, s) h = h
      forgotten (done a, s) h = h

  Keeps-delete_mapper : (c : Text) (o : Option Text) → Keeps P (delete_mapper env c o)
  Keeps-delete_mapper c none = Keeps-give _
  Keeps-delete_mapper c (some id) = Keeps-call _

  Keeps-delete_legacy : (c : Text) (ms : List KcProtocolMapper) → Keeps P (delete_legacy env c ms)
  unfolding delete_legacy
  Keeps-delete_legacy c [] = Keeps-give _
  Keeps-delete_legacy c (m ∷ ms) = Keeps-then (Keeps-delete_mapper c _) (Keeps-delete_legacy c ms)

  Keeps-ensure_claims : (a : AgentRecord) (c : Text) → Keeps P (ensure_claims env a c)
  unfolding ensure_claims
  Keeps-ensure_claims a c = Keeps-bind (Keeps-call _) (λ account.
      Keeps-then (Keeps-when _ (Keeps-call _)) (
        Keeps-bind (Keeps-call _) (λ scopes.
          Keeps-then (Keeps-when _ (Keeps-add_scope c))
            (Keeps-bind (Keeps-call _) (Keeps-delete_legacy c)))))

  Keeps-existing_or_new :
      (a : AgentRecord) (o : Option KcClient) → Keeps P (existing_or_new env a o)
  Keeps-existing_or_new a none = Keeps-call _
  Keeps-existing_or_new a (some c) = Keeps-give _

  Keeps-issue_credentials : (a : AgentRecord) → Keeps P (issue_credentials env a)
  unfolding issue_credentials
  Keeps-issue_credentials a = Keeps-bind (Keeps-resolve_client a) (λ existing.
      Keeps-bind (Keeps-existing_or_new a existing) (λ c. Keeps-then (Keeps-ensure_claims a c) (
        Keeps-bind (Keeps-call _)
          (λ secret. Keeps-then (Keeps-save_client_uuid a.row.id (some c)) (Keeps-give _)))))

  Keeps-enqueue_agent : (id : ℕ) → Keeps {W = W} P (enqueue_agent id)
  unfolding enqueue_event
  Keeps-enqueue_agent id = Keeps-write _ (λ now db. outbox_free db _)

  -- Issuing the credentials of an agent.
  pub Keeps-issue :
      (t : Tenant) (agent_id enrollment_id : ℕ) → Keeps P (issue env t agent_id enrollment_id)
  unfolding issue
  Keeps-issue t agent_id enrollment_id =
      Keeps-bind (Keeps-insert agent_id t.id (some enrollment_id)) (λ row.
        Keeps-bind (Keeps-query _) (λ inserted. Keeps-bind (Keeps-found_or _ inserted) (λ found.
          Keeps-bind (Keeps-issue_credentials found) (λ credentials.
            Keeps-then (Keeps-write _ (λ now. status_free _ running)) (
              Keeps-then (Keeps-enqueue_agent _)
                (Keeps-bind (Keeps-query _) (λ issued. Keeps-give _)))))))

  Keeps-converge : (a : AgentRecord) (o : Option KcClient) → Keeps P (converge env a o)
  Keeps-converge a none = Keeps-give tt
  Keeps-converge a (some c) = Keeps-then (Keeps-when _ (Keeps-call _)) (
      Keeps-then (Keeps-ensure_claims a c.id)
        (Keeps-when _ (Keeps-save_client_uuid a.row.id (some c.id))))

  Keeps-delete_found : (o : Option KcClient) → Keeps P (delete_found env o)
  Keeps-delete_found none = Keeps-give tt
  Keeps-delete_found (some c) = Keeps-call _

  -- Mirroring an agent.
  pub Keeps-apply_agent : (a : AgentRecord) → Keeps P (apply_agent env a)
  unfolding apply_agent
  Keeps-apply_agent a = by_status a.row.status
    where
      by_status : (status : AgentStatus) → Keeps P (apply_status env a status)
      by_status revoked =
          Keeps-then (Keeps-bind (Keeps-resolve_client a) Keeps-delete_found)
            (Keeps-when _ (Keeps-save_client_uuid a.row.id none))
      by_status provisioning = Keeps-give tt
      by_status running = Keeps-bind (Keeps-resolve_client a) (Keeps-converge a)
      by_status disabled = Keeps-bind (Keeps-resolve_client a) (Keeps-converge a)
