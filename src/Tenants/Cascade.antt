-- ===== src/Tenants/Cascade.antt =====
-- The deletion of a tenant: what is left of it, and what is announced.
use multi_tenant_cloud_obser.Base.{
  ℕ, ◌≡◌, sym, ap, subst, ◌∙◌, true, false, ◌&&◌, List, ◌++◌, any, map, Memᴰ, arith, ◌==◌, Text,
  text_eq, if_cases,
}
use multi_tenant_cloud_obser.Base.Tables.{
  select, any-update_none, any-update_cleared, Mem-select, Mem-map, Mem-append_left,
}
use multi_tenant_cloud_obser.Guards.{Actor}
use multi_tenant_cloud_obser.Outbox.{Outbox, Key, Aggregate, Target, mirror_targets}
use multi_tenant_cloud_obser.Store.{
  Database, System, Tenant, User, Agent, done, throw_if, give, execute, ◌>>=◌, ◌>>◌, enqueue_event,
  is_active,
}
use multi_tenant_cloud_obser.Store.Keeps.{Keeps-enqueue_all, >>-of-done, transaction-of-done}
use multi_tenant_cloud_obser.Store.Announced.{
  Waits, Waits-enqueue_all, enqueue_event-Waits, enqueue_all-Waits, enqueue_all_succeeds,
}
use multi_tenant_cloud_obser.Agents.{is_tenant_agent, revoke_tenant_agents}
use multi_tenant_cloud_obser.Users.{is_active_of, mark_tenant_users_deleted}
use multi_tenant_cloud_obser.Enrollments.{is_unused, revoke_open_for_tenant}
use multi_tenant_cloud_obser.SupportAccess.{is_open_of, distinct, end_open_for_tenant}
use multi_tenant_cloud_obser.SupportAccess.Sweep.{Mem-distinct}
use multi_tenant_cloud_obser.Tenants.{mark_tenant_deleted}
use multi_tenant_cloud_obser.Tenants.Service.{
  delete_tenant, delete_cascade, enqueue_tenant, enqueue_users, enqueue_agents,
}

-- Nothing of the tenant is left in use.
abbrev pub Gone : ℕ → Database → Type 0
Gone id db =
    (any (λ t. t.id == id && is_active t.status) db.tenants ≡ false)
    × (any (is_active_of id) db.users ≡ false)
    × (any (is_tenant_agent id) db.agents ≡ false)
    × (any (λ e. e.tenant_id == id && is_unused e) db.enrollments ≡ false)
    × (any (is_open_of id) db.grants ≡ false)

module _ {W : Type 0} (actor : Actor) (tenant : Tenant) (s : System W) where
  abbrev users_of : List ℕ
  users_of = distinct (
      map (λ u. u.id) (select (is_active_of tenant.id) s.db.users)
      ++ (end_open_for_tenant tenant.id actor.username s.now s.db).0)

  abbrev agents_of : List ℕ
  agents_of = map (λ a. a.id) (select (is_tenant_agent tenant.id) s.db.agents)

  -- The tables after the statements, before the events.
  ended : Database
  ended =
      revoke_open_for_tenant tenant.id actor.user_id s.now
        (end_open_for_tenant tenant.id actor.username s.now
          (revoke_tenant_agents tenant.id s.now
            (mark_tenant_users_deleted tenant.id s.now
              (mark_tenant_deleted tenant.id s.now s.db)).1).1).1

  ended-Gone : Gone tenant.id ended
  unfolding ended mark_tenant_deleted mark_tenant_users_deleted revoke_tenant_agents
      end_open_for_tenant revoke_open_for_tenant
  ended-Gone = (
    any-update_none (λ t. t.id == tenant.id && is_active t.status) (λ t. t.id == tenant.id) _
        (λ t.
          if_cases (λ u. u.id == tenant.id && is_active u.status ≡ false) (t.id == tenant.id) _ t
            (λ h. ground arith) (λ h. ground (arith, h)))
        s.db.tenants,
    any-update_cleared (is_active_of tenant.id) _ (λ u. ground arith) s.db.users,
    any-update_cleared (is_tenant_agent tenant.id) _ (λ a. ground arith) s.db.agents,
    any-update_cleared (λ e. e.tenant_id == tenant.id && is_unused e) _ (λ e. ground arith)
        s.db.enrollments,
    any-update_cleared (is_open_of tenant.id) _ (λ g. ground arith) s.db.grants,
  )

  announced : System W
  announced = (enqueue_tenant tenant.id (record s { db = ended })).1

  delete_cascade_lem :
      delete_cascade actor tenant s ≡ enqueue_agents agents_of (enqueue_users users_of announced).1
  unfolding announced ended delete_cascade execute ◌>>=◌ ◌>>◌ enqueue_event mark_tenant_deleted
      mark_tenant_users_deleted revoke_tenant_agents end_open_for_tenant revoke_open_for_tenant
  delete_cascade_lem =
      >>-of-done (enqueue_users users_of) (enqueue_agents agents_of) announced
        (enqueue_all_succeeds Aggregate.user users_of _ announced)

  after_events :
      (P : Database → Type 0)
      → ((db : Database) (o : Outbox) → P db → P (record db { outbox = o }))
      → P announced.db
      → P (delete_cascade actor tenant s).1.db
  after_events P other h =
      subst (λ r. P r.1.db) (sym delete_cascade_lem)
        ((Keeps-enqueue_all Aggregate.agent agents_of _ other).kept _
          ((Keeps-enqueue_all Aggregate.user users_of _ other).kept announced h))

  cascade-Gone : Gone tenant.id (delete_cascade actor tenant s).1.db
  unfolding announced enqueue_event execute
  cascade-Gone = after_events (Gone tenant.id) (λ db o h. h) ended-Gone

  user-Waits :
      (u : User) (t : Target)
      → Memᴰ u s.db.users
      → is_active_of tenant.id u ≡ true
      → Memᴰ t (mirror_targets Aggregate.user)
      → Waits
          (record { target = t; aggregate_type = Aggregate.user; aggregate_id = u.id })
          (delete_cascade actor tenant s).1.db
  user-Waits u t m active n =
      subst
        (λ r.
          Waits (record { target = t; aggregate_type = Aggregate.user; aggregate_id = u.id })
            r.1.db)
        (sym delete_cascade_lem)
        ((Waits-enqueue_all _ Aggregate.agent agents_of _).kept _ (
          enqueue_all-Waits Aggregate.user users_of _ u.id t announced
            (Mem-distinct u.id _ (
              Mem-append_left _ _ u.id (
                Mem-map (λ v. v.id) _ u
                  (Mem-select (is_active_of tenant.id) s.db.users u m active))))
            n))

  agent-Waits :
      (a : Agent) (t : Target)
      → Memᴰ a s.db.agents
      → is_tenant_agent tenant.id a ≡ true
      → Memᴰ t (mirror_targets Aggregate.agent)
      → Waits
          (record { target = t; aggregate_type = Aggregate.agent; aggregate_id = a.id })
          (delete_cascade actor tenant s).1.db
  agent-Waits a t m live n =
      subst
        (λ r.
          Waits (record { target = t; aggregate_type = Aggregate.agent; aggregate_id = a.id })
            r.1.db)
        (sym delete_cascade_lem)
        (enqueue_all-Waits Aggregate.agent agents_of _ a.id t _
          (Mem-map (λ b. b.id) _ a (Mem-select (is_tenant_agent tenant.id) s.db.agents a m live)) n)

  tenant-Waits :
      (t : Target)
      → Memᴰ t (mirror_targets Aggregate.tenant)
      → Waits
          (record { target = t; aggregate_type = Aggregate.tenant; aggregate_id = tenant.id })
          (delete_cascade actor tenant s).1.db
  unfolding announced
  tenant-Waits t n =
      subst
        (λ r.
          Waits (record { target = t; aggregate_type = Aggregate.tenant; aggregate_id = tenant.id })
            r.1.db)
        (sym delete_cascade_lem)
        ((Waits-enqueue_all _ Aggregate.agent agents_of _).kept _ (
          (Waits-enqueue_all _ Aggregate.user users_of _).kept announced
            (enqueue_event-Waits Aggregate.tenant tenant.id _ t _ n)))

  cascade_succeeds : (delete_cascade actor tenant s).0 ≡ done tt
  cascade_succeeds =
      ap (λ r. r.0) delete_cascade_lem ∙ enqueue_all_succeeds Aggregate.agent agents_of _ _

  deletion :
      (default_tenant : Text)
      → text_eq tenant.tenant_key default_tenant ≡ false
      → delete_tenant default_tenant actor tenant s ≡ delete_cascade actor tenant s
  unfolding delete_tenant throw_if give ◌>>=◌ ◌>>◌
  deletion default_tenant other = rw other (transaction-of-done _ s tt cascade_succeeds)

-- The deletion of a tenant that is not the platform's succeeds, and leaves nothing of it in use: the
-- tenant is not active, it has no active user, no live agent, no enrollment that could be exchanged and
-- no grant whose end is not recorded.
pub deletion-Gone :
    {W : Type 0} (default_tenant : Text) (actor : Actor) (tenant : Tenant) (s : System W)
    → text_eq tenant.tenant_key default_tenant ≡ false
    → ((delete_tenant default_tenant actor tenant s).0 ≡ done tt)
      × Gone tenant.id (delete_tenant default_tenant actor tenant s).1.db
deletion-Gone default_tenant actor tenant s other = (
  ap (λ r. r.0) (deletion actor tenant s default_tenant other) ∙ cascade_succeeds actor tenant s,
  subst (λ r. Gone tenant.id r.1.db) (sym (deletion actor tenant s default_tenant other))
      (cascade-Gone actor tenant s),
)

-- What a deletion changes for the mirrors: the tenant, its active users and its live agents.
pub data Affected (tenant : Tenant) (db : Database) : Key → Type 0 where
  of_tenant :
      {t : Target}
      → Memᴰ t (mirror_targets Aggregate.tenant)
      → Affected tenant db
          (record { target = t; aggregate_type = Aggregate.tenant; aggregate_id = tenant.id })
  of_user :
      {t : Target} {u : User}
      → Memᴰ u db.users
      → is_active_of tenant.id u ≡ true
      → Memᴰ t (mirror_targets Aggregate.user)
      → Affected tenant db
          (record { target = t; aggregate_type = Aggregate.user; aggregate_id = u.id })
  of_agent :
      {t : Target} {a : Agent}
      → Memᴰ a db.agents
      → is_tenant_agent tenant.id a ≡ true
      → Memᴰ t (mirror_targets Aggregate.agent)
      → Affected tenant db
          (record { target = t; aggregate_type = Aggregate.agent; aggregate_id = a.id })

-- The deletion of a tenant that is not the platform's leaves an event waiting for every mirror of the
-- tenant, of each user that was active in it and of each agent that was live in it.
pub deletion-Waits :
    {W : Type 0} (default_tenant : Text) (actor : Actor) (tenant : Tenant) (s : System W) (k : Key)
    → text_eq tenant.tenant_key default_tenant ≡ false
    → Affected tenant s.db k
    → Waits k (delete_tenant default_tenant actor tenant s).1.db
deletion-Waits default_tenant actor tenant s k other affected =
    subst (λ r. Waits k r.1.db) (sym (deletion actor tenant s default_tenant other))
      (waits k affected)
  where
    waits : (k : Key) → Affected tenant s.db k → Waits k (delete_cascade actor tenant s).1.db
    waits _ (of_tenant {t = t} n) = tenant-Waits actor tenant s t n
    waits _ (of_user {t = t} {u = u} m active n) = user-Waits actor tenant s u t m active n
    waits _ (of_agent {t = t} {a = a} m live n) = agent-Waits actor tenant s a t m live n
