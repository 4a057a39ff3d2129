-- ===== src/Agents/Mirror.antt =====
-- services/control-plane/src/mirrors/keycloak/keycloak-agent.mirror.ts: an agent as a confidential
-- Keycloak client.
use multi_tenant_cloud_obser.Base.{
  ℕ, Bool, false, not, ◌||◌, Option, none, some, List, [], ◌∷◌, map, if◌then◌else◌, any, Text,
  codes, text_eq, includes, is_some,
}
use multi_tenant_cloud_obser.Store.{
  Action, System, AgentStatus, Reply, failed, done, provisioning, running, disabled, revoked,
  internal_error, upstream_bad_response, give, throw, call, attempt, ◌>>=◌, ◌>>◌, when, equal_text,
}
use multi_tenant_cloud_obser.Keycloak.{
  Env, KeycloakClient, KcClient, KcProtocolMapper, Attributes, agent_marker, property,
  with_property,
}
use multi_tenant_cloud_obser.Agents.{
  AgentRecord, agent_client_id, find_agent, status_eq, set_client_uuid,
}

abbrev pub agent_client_scope : Text
agent_client_scope = codes "mtco-agent"

abbrev pub legacy_agent_mappers : List Text
legacy_agent_mappers =
    codes "otel-gateway-audience"
    ∷ codes "agent-id"
    ∷ codes "tenant-id"
    ∷ codes "vm-account-id"
    ∷ []

pub record AgentCredentials : Type 0 where
  pub client_uuid : Text
  pub client_secret : Text

abbrev pub is_single : Option (List Text) → Text → Bool
is_single (some (v ∷ [])) wanted = text_eq v wanted
is_single _ wanted = false

abbrev pub spread : Attributes → Attributes → Attributes
spread current [] = current
spread current ((k, v) ∷ wanted) = spread (with_property k v current) wanted

abbrev pub is_wanted : Attributes → Text × Text → Bool
is_wanted current (k, v) = is_single (property k current) v

abbrev pub deletable : KcProtocolMapper → Option Text
deletable m = if includes legacy_agent_mappers m.name then m.id else none

module _ {W : Type 0} (env : Env W) where
  abbrev pub kc : KeycloakClient W
  kc = env.keycloak

  abbrev pub save_client_uuid : ℕ → Option Text → Action W (Unit {0})
  save_client_uuid id uuid = attempt internal_error (set_client_uuid id uuid)

  abbrev pub stored_client : AgentRecord → Option KcClient → Action W (Option KcClient)
  stored_client agent none = call (kc.find_client (agent_client_id env agent.row.id))
  stored_client agent (some stored) =
      if text_eq stored.client_id (agent_client_id env agent.row.id)
      then give (some stored)
      else call (kc.find_client (agent_client_id env agent.row.id))

  abbrev pub client_by_pointer : AgentRecord → Option Text → Action W (Option KcClient)
  client_by_pointer agent none = call (kc.find_client (agent_client_id env agent.row.id))
  client_by_pointer agent (some uuid) = call (kc.get_client uuid) >>= stored_client agent

  unfoldable pub resolve_client : AgentRecord → Action W (Option KcClient)
  resolve_client agent = client_by_pointer agent agent.row.keycloak_client_uuid

  abbrev pub remember_scope : Option Text → Action W (Unit {0})
  remember_scope id s = (done tt, record s { scope_id = id })

  -- The catch block: any failure forgets the scope.
  abbrev pub forget_scope : {A : Type 0} → Reply A × System W → Reply A × System W
  forget_scope (failed e, s) = (failed e, record s { scope_id = none })
  forget_scope (done a, s) = (done a, s)

  abbrev pub scope_found : Option Text → Action W Text
  scope_found none = throw upstream_bad_response
  scope_found (some id) = remember_scope (some id) >> give id

  abbrev pub known_scope : Option Text → Action W Text
  known_scope (some id) = give id
  known_scope none = call (kc.find_client_scope agent_client_scope) >>= scope_found

  abbrev pub the_scope : Action W Text
  the_scope s = known_scope s.scope_id s

  unfoldable pub add_scope : Text → Action W (Unit {0})
  add_scope client_uuid s =
      forget_scope ((the_scope >>= λ id. call (kc.add_client_default_scope client_uuid id)) s)

  abbrev pub delete_mapper : Text → Option Text → Action W (Unit {0})
  delete_mapper client_uuid none = give tt
  delete_mapper client_uuid (some id) = call (kc.delete_protocol_mapper client_uuid id)

  unfoldable pub delete_legacy : Text → List KcProtocolMapper → Action W (Unit {0})
  delete_legacy client_uuid [] = give tt
  delete_legacy client_uuid (m ∷ mappers) =
      delete_mapper client_uuid (deletable m) >> delete_legacy client_uuid mappers

  abbrev pub wanted_claims : AgentRecord → List (Text × Text)
  wanted_claims agent =
      (codes "agent_id", env.uuid_text agent.row.id)
      ∷ (codes "tenant_id", agent.tenant.tenant_key)
      ∷ (codes "vm_account_id", env.number_text agent.tenant.vm_account_id)
      ∷ []

  unfoldable pub ensure_claims : AgentRecord → Text → Action W (Unit {0})
  ensure_claims agent client_uuid = call (kc.get_service_account_user client_uuid) >>= λ account.
      when (any (λ w. not (is_wanted account.attributes w)) (wanted_claims agent)) (
        call (
          kc.update_user (record account {
            attributes =
                spread account.attributes (map (λ w. (w.0, w.1 ∷ [])) (wanted_claims agent));
          })))
      >> (call (kc.get_client_default_scopes client_uuid) >>= λ scopes.
          when (not (includes scopes agent_client_scope)) (add_scope client_uuid)
          >> (call (kc.get_protocol_mappers client_uuid) >>= delete_legacy client_uuid))

  -- `existing?.id ?? await createClient(…)`.
  abbrev pub existing_or_new : AgentRecord → Option KcClient → Action W Text
  existing_or_new agent none = call (
      kc.create_client (agent_client_id env agent.row.id)
        ((agent_marker, env.uuid_text agent.row.id) ∷ []))
  existing_or_new agent (some client) = give client.id

  unfoldable pub issue_credentials : AgentRecord → Action W AgentCredentials
  issue_credentials agent = do
    existing ← resolve_client agent
    client_uuid ← existing_or_new agent existing
    ensure_claims agent client_uuid
    secret ← call (kc.get_client_secret client_uuid)
    save_client_uuid agent.row.id (some client_uuid)
    give (record { client_uuid = client_uuid; client_secret = secret })

  abbrev pub delete_found : Option KcClient → Action W (Unit {0})
  delete_found none = give tt
  delete_found (some client) = call (kc.delete_client client.id)

  abbrev pub needs_update : AgentRecord → Bool → KcClient → Bool
  needs_update agent enabled client =
      not (if enabled then client.enabled else not client.enabled)
      || not
          (equal_text (property agent_marker client.attributes) (some (env.uuid_text agent.row.id)))

  abbrev pub converge : AgentRecord → Option KcClient → Action W (Unit {0})
  converge agent none = give tt
  converge agent (some client) =
      let enabled = status_eq agent.row.status running in
      when (needs_update agent enabled client) (
        call (
          kc.update_client (record client {
            enabled = enabled;
            attributes = with_property agent_marker (env.uuid_text agent.row.id) client.attributes;
          })))
      >> (ensure_claims agent client.id
          >> when (not (equal_text (some client.id) agent.row.keycloak_client_uuid))
              (save_client_uuid agent.row.id (some client.id)))

  abbrev pub apply_status : AgentRecord → AgentStatus → Action W (Unit {0})
  apply_status agent revoked =
      (resolve_client agent >>= delete_found)
      >> when (is_some agent.row.keycloak_client_uuid) (save_client_uuid agent.row.id none)
  apply_status agent provisioning = give tt
  apply_status agent running = resolve_client agent >>= converge agent
  apply_status agent disabled = resolve_client agent >>= converge agent

  unfoldable pub apply_agent : AgentRecord → Action W (Unit {0})
  apply_agent agent = apply_status agent agent.row.status

  abbrev pub apply_found : Option AgentRecord → Action W (Unit {0})
  apply_found none = give tt
  apply_found (some agent) = apply_agent agent

  unfoldable pub sync_agent : ℕ → Action W (Unit {0})
  sync_agent agent_id = find_agent agent_id >>= apply_found
