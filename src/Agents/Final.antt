-- ===== src/Agents/Final.antt =====
-- A revoked agent stays revoked.
use multi_tenant_cloud_obser.Base.{
  ℕ, ◌≡◌, refl, ap, ◌∙◌, Bool, true, false, ◌&&◌, ◌||◌, Option, none, some, List, [], ◌∷◌, ◌++◌,
  any, arith, if◌then◌else◌, ◌==◌, inl, inr, Bool-cases, Text,
}
use multi_tenant_cloud_obser.Base.Tables.{any-update_same, update}
use multi_tenant_cloud_obser.Outbox.{Outbox}
use multi_tenant_cloud_obser.Store.{
  Database, System, Agent, AgentStatus, provisioning, Tenant, Action, rolled_back, transaction,
}
use multi_tenant_cloud_obser.Store.Keeps.{
  Keeps, OnSuccess, OnSuccess-if, Keeps-bind, Keeps-then, Keeps-give, Keeps-throw, Keeps-query,
  Keeps-write, Keeps-when, Keeps-if, Keeps-transaction, Keeps-enqueue_event,
}
use multi_tenant_cloud_obser.Keycloak.{Env}
use multi_tenant_cloud_obser.Agents.{
  AgentRecord, is_live, agent_taken, insert_agent_row, set_agent_status, set_client_uuid,
  mark_agent_revoked, revoke_tenant_agents,
}
use multi_tenant_cloud_obser.Agents.Mirror.{apply_agent}
use multi_tenant_cloud_obser.Agents.Keeps.{Keeps-issue, Keeps-apply_agent}
use multi_tenant_cloud_obser.Agents.Service.{
  require_agent, live_or_none, of_tenant, update_status, update_agent, delete_agent, issue,
  enqueue_agent,
}

-- There is an agent of the id, and none that is live.
unfoldable pub IsRevoked : ℕ → Database → Type 0
IsRevoked id db =
    (any (λ a. a.id == id) db.agents ≡ true)
    × (any (λ a. a.id == id && is_live a) db.agents ≡ false)

any-update_dead :
    {A : Type 0} (q p : A → Bool) (f : A → A)
    → ((a : A) → q a ≡ false → q (if p a then f a else a) ≡ false)
    → (xs : List A) → any q xs ≡ false
    → any q (update p f xs) ≡ false
unfolding any update
any-update_dead q p f h [] k = refl
any-update_dead q p f h (x ∷ xs) k =
    ground (arith, h x (ground (arith, k)), any-update_dead q p f h xs (ground (arith, k)))

any-append :
    {A : Type 0} (q : A → Bool) (xs : List A) (x : A) → any q (xs ++ (x ∷ [])) ≡ any q xs || q x
unfolding any
any-append q [] x = ground arith
any-append q (y ∷ xs) x = ground (arith, any-append q xs x)

-- An update that keeps the ids, and makes no agent live that is not.
IsRevoked-update :
    (id : ℕ) (p : Agent → Bool) (f : Agent → Agent) (db : Database)
    → ((a : Agent) → (f a).id ≡ a.id)
    → ((a : Agent) → p a ≡ true → is_live a ≡ false → is_live (f a) ≡ false)
    → IsRevoked id db
    → IsRevoked id (record db { agents = update p f db.agents })
unfolding IsRevoked
IsRevoked-update id p f db same dead (there, none_live) = (
  any-update_same (λ a. a.id == id) p f (λ a. ap (λ i. i == id) (same a)) db.agents ∙ there,
  any-update_dead (λ a. a.id == id && is_live a) p f
      (λ a h. elim (Bool-cases (p a)) [ inl e ↦ rw e (kept a e h) | inr e ↦ rw e h ]) db.agents
      none_live,
)
  where
    kept :
        (a : Agent)
        → p a ≡ true
        → (a.id == id) && is_live a ≡ false
        → ((f a).id == id) && is_live (f a) ≡ false
    kept a e h = elim (Bool-cases (a.id == id)) [
      | inl same_id ↦ ground (arith, dead a e (ground (arith, same_id, h)))
      | inr other ↦ ground (arith, ap (λ i. i == id) (same a), other)
    ]

not_taken :
    (new id : ℕ) (e : Option ℕ) (xs : List Agent)
    → any (agent_taken new e) xs ≡ false
    → any (λ a. a.id == id) xs ≡ true
    → (new == id) ≡ false
unfolding any
not_taken new id e [] free there = absurd (ground (arith, there))
not_taken new id e (x ∷ xs) free there = elim (Bool-cases (x.id == id)) [
  | inl same ↦ ground (arith, same, free)
  | inr other ↦ not_taken new id e xs (ground (arith, free)) (ground (arith, other, there))
]

IsRevoked-insert :
    (id agent_id tenant_id : ℕ) (e : Option ℕ) (now : ℕ) (db : Database)
    → IsRevoked id db
    → OnSuccess (IsRevoked id) (insert_agent_row agent_id tenant_id provisioning e now db)
unfolding IsRevoked insert_agent_row
IsRevoked-insert id agent_id tenant_id e now db (there, none_live) =
    OnSuccess-if (IsRevoked id) _ _ _ (λ free. (
      any-append (λ a. a.id == id) db.agents _ ∙ ground (arith, there),
      any-append (λ a. a.id == id && is_live a) db.agents _ ∙ ground (arith, none_live, other free),
    ))
  where
    other : any (agent_taken agent_id e) db.agents ≡ false → (agent_id == id) ≡ false
    other free = not_taken agent_id id e db.agents free there

IsRevoked-status :
    (id agent_id : ℕ) (status : AgentStatus) (db : Database)
    → IsRevoked id db
    → IsRevoked id (set_agent_status agent_id status db)
unfolding set_agent_status
IsRevoked-status id agent_id status db =
    IsRevoked-update id _ _ db (λ a. refl) (λ a h k. absurd (ground (arith, h, k)))

IsRevoked-pointer :
    (id agent_id : ℕ) (uuid : Option Text) (now : ℕ) (db : Database)
    → IsRevoked id db
    → OnSuccess (IsRevoked id) (set_client_uuid agent_id uuid now db)
unfolding set_client_uuid
IsRevoked-pointer id agent_id uuid now db h =
    OnSuccess-if (IsRevoked id) _ _ _
      (λ free. IsRevoked-update id _ _ db (λ a. refl) (λ a k l. l) h)

IsRevoked-mark :
    (id agent_id now : ℕ) (db : Database)
    → IsRevoked id db
    → IsRevoked id (mark_agent_revoked agent_id now db)
unfolding mark_agent_revoked
IsRevoked-mark id agent_id now db = IsRevoked-update id _ _ db (λ a. refl) (λ a h k. refl)

outbox_free :
    (id : ℕ) (db : Database) (o : Outbox)
    → IsRevoked id db
    → IsRevoked id (record db { outbox = o })
unfolding IsRevoked
outbox_free id db o h = h

module _ {W : Type 0} (id : ℕ) where
  IsRevoked-enqueue : (agent_id : ℕ) → Keeps {W = W} (IsRevoked id) (enqueue_agent agent_id)
  unfolding IsRevoked
  IsRevoked-enqueue agent_id = Keeps-enqueue_event _ _ _ (λ db o h. h)

  IsRevoked-transaction :
      {A : Type 0} {m : Action W A} → Keeps (IsRevoked id) m → Keeps (IsRevoked id) (transaction m)
  unfolding IsRevoked rolled_back
  IsRevoked-transaction k = Keeps-transaction (λ before after h. h) k

  IsRevoked-require_agent :
      (tenant : Tenant) (agent_id : Option ℕ)
      → Keeps {W = W} (IsRevoked id) (require_agent tenant agent_id)
  unfolding require_agent
  IsRevoked-require_agent tenant agent_id = Keeps-bind (looked_up agent_id) checked
    where
      looked_up : (o : Option ℕ) → Keeps {W = W} (IsRevoked id) (live_or_none o)
      looked_up none = Keeps-give _
      looked_up (some i) = Keeps-query _

      checked : (o : Option AgentRecord) → Keeps {W = W} (IsRevoked id) (of_tenant tenant o)
      checked none = Keeps-throw _
      checked (some a) = Keeps-if _ (Keeps-give _) (Keeps-throw _)

  IsRevoked-update_agent :
      (tenant : Tenant) (agent_id : Option ℕ) (enabled : Option Bool)
      → Keeps {W = W} (IsRevoked id) (update_agent tenant agent_id enabled)
  unfolding update_agent
  IsRevoked-update_agent tenant agent_id enabled =
      Keeps-bind (IsRevoked-require_agent tenant agent_id) (λ found.
        Keeps-then (changed found enabled) (Keeps-bind (Keeps-query _) (λ o. Keeps-give _)))
    where
      changed :
          (found : AgentRecord) (o : Option Bool)
          → Keeps {W = W} (IsRevoked id) (update_status found o)
      changed found none = Keeps-give tt
      changed found (some b) = Keeps-when _ (
          Keeps-when _ (
            IsRevoked-transaction
              (Keeps-then (Keeps-write _ (λ now. IsRevoked-status id _ _)) (IsRevoked-enqueue _))))

  IsRevoked-delete_agent :
      (tenant : Tenant) (agent_id : Option ℕ)
      → Keeps {W = W} (IsRevoked id) (delete_agent tenant agent_id)
  unfolding delete_agent
  IsRevoked-delete_agent tenant agent_id =
      Keeps-bind (IsRevoked-require_agent tenant agent_id) (λ found.
        IsRevoked-transaction
          (Keeps-then (Keeps-write _ (λ now. IsRevoked-mark id _ now)) (IsRevoked-enqueue _)))

-- An agent that is revoked is never live again: no update, deletion, issue of an agent, mirror or cascade
-- of a tenant's deletion changes that, and no new agent takes its id.
pub revoked-IsRevoked :
    {W : Type 0} (env : Env W) (s : System W) (id : ℕ) (tenant : Tenant) (agent_id : Option ℕ)
    (enabled : Option Bool) (new_id enrollment_id : ℕ) (mirrored : AgentRecord)
    → IsRevoked id s.db
    → IsRevoked id (update_agent tenant agent_id enabled s).1.db
      × IsRevoked id (delete_agent tenant agent_id s).1.db
      × IsRevoked id (issue env tenant new_id enrollment_id s).1.db
      × IsRevoked id (apply_agent env mirrored s).1.db
      × IsRevoked id (revoke_tenant_agents tenant.id s.now s.db).1
unfolding revoke_tenant_agents
revoked-IsRevoked env s id tenant agent_id enabled new_id enrollment_id mirrored h = (
  (IsRevoked-update_agent id tenant agent_id enabled).kept s h,
  (IsRevoked-delete_agent id tenant agent_id).kept s h,
  (Keeps-issue (IsRevoked id) (IsRevoked-insert id) (IsRevoked-status id) (IsRevoked-pointer id)
        (outbox_free id) env tenant new_id enrollment_id).kept
      s h,
  (Keeps-apply_agent (IsRevoked id) (IsRevoked-insert id) (IsRevoked-status id)
        (IsRevoked-pointer id) (outbox_free id) env mirrored).kept
      s h,
  IsRevoked-update id _ _ s.db (λ a. refl) (λ a k l. refl) h,
)
