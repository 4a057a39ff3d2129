-- ===== src/Platform/Announces.antt =====
-- What a resync announces.
use multi_tenant_cloud_obser.Base.{
  ℕ, zero, suc, ◌≡◌, sym, subst, ◌∙◌, Bool, true, false, List, [], ◌∷◌, Memᴰ, leb, if_cases,
}
use multi_tenant_cloud_obser.Base.Tables.{Mem-select, Mem-map, Mem-swapped}
use multi_tenant_cloud_obser.Outbox.{Key, Aggregate, Target, mirror_targets}
use multi_tenant_cloud_obser.Store.{
  Database, System, Tenant, User, Agent, Call, Reply, failed, done, call, enqueue_all,
}
use multi_tenant_cloud_obser.Store.Keeps.{
  Keeps, Keeps-bind, Keeps-give, Keeps-call, Keeps-query, Keeps-execute, Keeps-if, >>-of-done,
}
use multi_tenant_cloud_obser.Store.Announced.{
  Waits, Waits-enqueue_all, enqueue_all-Waits, enqueue_all_succeeds,
}
use multi_tenant_cloud_obser.Keycloak.{Env, property}
use multi_tenant_cloud_obser.Agents.{agents_for_resync, agent_needs_sync}
use multi_tenant_cloud_obser.Tenants.{
  insert_by_account, by_account, tenant_needs_sync, tenants_for_resync,
}
use multi_tenant_cloud_obser.Users.{insert_oldest, oldest_first, user_needs_sync, users_for_resync}
use multi_tenant_cloud_obser.Collector.{
  Orphan, Seen, Run, collect, collect_orphans, pages, pages_from, max_pages, orphan_clients,
  orphan_users, orphan_groups, orphans, run_gc, run_on, is_confirmed, add_pending, add_deleted,
  after_removal,
}
use multi_tenant_cloud_obser.Platform.Resync.{resync, enqueue_rows, then_gc}

Mem-insert_by_account :
    (t x : Tenant) (ts : List Tenant) → Memᴰ x (t ∷ ts) → Memᴰ x (insert_by_account t ts)
unfolding insert_by_account
Mem-insert_by_account t x [] m = m
Mem-insert_by_account t x (u ∷ us) m =
    if_cases (Memᴰ x) (leb t.vm_account_id u.vm_account_id) (t ∷ u ∷ us)
      (u ∷ insert_by_account t us) (λ e. m)
      (λ e. Mem-swapped t x u us (insert_by_account t us) m (Mem-insert_by_account t x us))

Mem-by_account : (x : Tenant) (ts : List Tenant) → Memᴰ x ts → Memᴰ x (by_account ts)
unfolding by_account
Mem-by_account x [] m = m
Mem-by_account x (t ∷ ts) (Memᴰ.head e) = Mem-insert_by_account t x _ (Memᴰ.head e)
Mem-by_account x (t ∷ ts) (Memᴰ.tail m) =
    Mem-insert_by_account t x _ (Memᴰ.tail (Mem-by_account x ts m))

Mem-insert_oldest : (t x : User) (ts : List User) → Memᴰ x (t ∷ ts) → Memᴰ x (insert_oldest t ts)
unfolding insert_oldest
Mem-insert_oldest t x [] m = m
Mem-insert_oldest t x (u ∷ us) m =
    if_cases (Memᴰ x) (leb t.created_at u.created_at) (t ∷ u ∷ us) (u ∷ insert_oldest t us) (λ e. m)
      (λ e. Mem-swapped t x u us (insert_oldest t us) m (Mem-insert_oldest t x us))

Mem-oldest_first : (x : User) (ts : List User) → Memᴰ x ts → Memᴰ x (oldest_first ts)
unfolding oldest_first
Mem-oldest_first x [] m = m
Mem-oldest_first x (t ∷ ts) (Memᴰ.head e) = Mem-insert_oldest t x _ (Memᴰ.head e)
Mem-oldest_first x (t ∷ ts) (Memᴰ.tail m) =
    Mem-insert_oldest t x _ (Memᴰ.tail (Mem-oldest_first x ts m))

module _ {W : Type 0} (P : Database → Type 0) where
  Keeps-pages_from :
      {A : Type 0} (fuel page : ℕ) (fetch : ℕ → ℕ → Call W (List A))
      → Keeps P (pages_from fuel page fetch)
  unfolding pages_from
  Keeps-pages_from zero page fetch = Keeps-give _
  Keeps-pages_from (suc fuel) page fetch = Keeps-bind (Keeps-call _) (λ items.
      Keeps-if _ (Keeps-give _)
        (Keeps-bind (Keeps-pages_from fuel (suc page) fetch) (λ more. Keeps-give _)))

  Keeps-pages : {A : Type 0} (fetch : ℕ → ℕ → Call W (List A)) → Keeps P (pages fetch)
  unfolding pages
  Keeps-pages fetch = Keeps-pages_from max_pages 0 fetch

  Keeps-orphans : (env : Env W) → Keeps P (orphans env)
  unfolding orphan_clients orphan_users orphan_groups
  Keeps-orphans env =
      Keeps-bind
        (Keeps-bind (Keeps-pages _) (λ listed.
          Keeps-bind (Keeps-query _)
            (λ live. Keeps-bind (Keeps-execute _ (λ now db h. h)) (λ open_ids. Keeps-give _))))
        (λ clients.
          Keeps-bind
            (Keeps-bind (Keeps-pages _)
              (λ listed. Keeps-bind (Keeps-query _) (λ live. Keeps-give _)))
            (λ users.
              Keeps-bind
                (Keeps-bind (Keeps-pages _)
                  (λ listed. Keeps-bind (Keeps-query _) (λ live. Keeps-give _)))
                (λ groups. Keeps-give _)))

  -- The collector does not write to the database.
  after_collect :
      (now : ℕ) (os : List (Orphan W)) (seen : Seen) (s : System W)
      → P s.db
      → P (collect now os seen s).1.1.db
  unfolding collect
  after_collect now [] seen s h = h
  after_collect now (o ∷ os) seen s h =
      both (is_confirmed now (property o.key seen)) _ _ (pending _ (after_collect now os _ s h)) (
        removed (call o.remove s) ((Keeps-call {P = P} o.remove).kept s h)
          (λ seen' s' h'. after_collect now os seen' s' h'))
    where
      pending : (r : Run W) → P r.1.1.db → P (add_pending r).1.1.db
      pending (failed e, rest) h = h
      pending (done x, rest) h = h

      deleted : (r : Run W) → P r.1.1.db → P (add_deleted r).1.1.db
      deleted (failed e, rest) h = h
      deleted (done x, rest) h = h

      removed :
          (r : Reply (Unit {0}) × System W)
          → P r.1.db
          → ((seen' : Seen) (s' : System W) → P s'.db → P (collect now os seen' s').1.1.db)
          → P (after_removal r o.key seen (collect now os)).1.1.db
      removed (failed e, t) h f = h
      removed (done u, t) h f = deleted _ (f _ t h)

      both :
          (b : Bool) (r r' : Run W)
          → P r.1.1.db
          → P r'.1.1.db
          → P (elim b as (λ x. Run W) [ false ↦ r | true ↦ r' ]).1.1.db
      both false r r' h k = h
      both true r r' h k = k

  after_gc : (env : Env W) (seen : Seen) (s : System W) → P s.db → P (run_gc env seen s).1.1.db
  unfolding run_gc collect_orphans
  after_gc env seen s h = found (orphans env s) ((Keeps-orphans env).kept s h)
    where
      found : (r : Reply (List (Orphan W)) × System W) → P r.1.db → P (run_on env seen r).1.1.db
      found (failed e, t) k = k
      found (done os, t) k = after_collect t.now os _ t k

  after_resync :
      (env : Env W) (seen : Seen) (s : System W)
      → P (enqueue_rows env s.db s).1.db
      → P (resync env false seen s).1.1.db
  unfolding resync
  after_resync env seen s h = queued_or_not (enqueue_rows env s.db s) h
    where
      queued_or_not :
          (r : Reply (Unit {0}) × System W) → P r.1.db → P (then_gc env s.db seen r).1.1.db
      queued_or_not (failed e, t) k = k
      queued_or_not (done u, t) k = after_gc env seen t k

-- The rows that a resync announces: those in use, and those that a mirror may still hold.
pub data Resynced (db : Database) : Key → Type 0 where
  of_tenant :
      {t : Target} {a : Tenant}
      → Memᴰ a db.tenants
      → tenant_needs_sync a ≡ true
      → Memᴰ t (mirror_targets Aggregate.tenant)
      → Resynced db (record { target = t; aggregate_type = Aggregate.tenant; aggregate_id = a.id })
  of_user :
      {t : Target} {a : User}
      → Memᴰ a db.users
      → user_needs_sync a ≡ true
      → Memᴰ t (mirror_targets Aggregate.user)
      → Resynced db (record { target = t; aggregate_type = Aggregate.user; aggregate_id = a.id })
  of_agent :
      {t : Target} {a : Agent}
      → Memᴰ a db.agents
      → agent_needs_sync a ≡ true
      → Memᴰ t (mirror_targets Aggregate.agent)
      → Resynced db (record { target = t; aggregate_type = Aggregate.agent; aggregate_id = a.id })

module _ {W : Type 0} (s : System W) where
  abbrev tenants_queued : System W
  tenants_queued =
      (enqueue_all Aggregate.tenant (tenants_for_resync s.db) (mirror_targets Aggregate.tenant) s).1

  abbrev users_queued : System W
  users_queued =
      (enqueue_all Aggregate.user (users_for_resync s.db) (mirror_targets Aggregate.user)
        tenants_queued).1

  enqueue_rows_lem :
      (env : Env W)
      → enqueue_rows env s.db s
        ≡ enqueue_all Aggregate.agent
            (agents_for_resync s.db)
            (mirror_targets Aggregate.agent)
            users_queued
  unfolding enqueue_rows
  enqueue_rows_lem env =
      >>-of-done _ _ s (enqueue_all_succeeds Aggregate.tenant _ _ s)
      ∙ >>-of-done _ _ tenants_queued (enqueue_all_succeeds Aggregate.user _ _ tenants_queued)

  queued :
      (k : Key)
      → Resynced s.db k
      → Waits k
          (enqueue_all Aggregate.agent
            (agents_for_resync s.db)
            (mirror_targets Aggregate.agent)
            users_queued).1.db
  unfolding tenants_for_resync users_for_resync agents_for_resync
  queued _ (of_tenant {t = t} {a = a} m need n) =
      (Waits-enqueue_all _ Aggregate.agent _ _).kept users_queued (
        (Waits-enqueue_all _ Aggregate.user _ _).kept tenants_queued (
          enqueue_all-Waits Aggregate.tenant _ _ a.id t s
            (Mem-map (λ x. x.id) _ a
              (Mem-by_account a _ (Mem-select tenant_needs_sync s.db.tenants a m need)))
            n))
  queued _ (of_user {t = t} {a = a} m need n) =
      (Waits-enqueue_all _ Aggregate.agent _ _).kept users_queued (
        enqueue_all-Waits Aggregate.user _ _ a.id t tenants_queued
          (Mem-map (λ x. x.id) _ a
            (Mem-oldest_first a _ (Mem-select user_needs_sync s.db.users a m need)))
          n)
  queued _ (of_agent {t = t} {a = a} m need n) =
      enqueue_all-Waits Aggregate.agent _ _ a.id t users_queued
        (Mem-map (λ x. x.id) _ a (Mem-select agent_needs_sync s.db.agents a m need)) n

-- A resync leaves an event waiting for every mirror of each tenant, user and agent that is in use or
-- still held by a mirror, whatever the collection of garbage does.
pub resync-Waits :
    {W : Type 0} (env : Env W) (seen : Seen) (s : System W) (k : Key)
    → Resynced s.db k
    → Waits k (resync env false seen s).1.1.db
resync-Waits env seen s k r =
    after_resync (Waits k) env seen s
      (subst (λ x. Waits k x.1.db) (sym (enqueue_rows_lem s env)) (queued s k r))
