-- ===== src/Enrollments/History.antt =====
-- Enrollments over time: what any sequence of operations of the control plane does to the table.
use multi_tenant_cloud_obser.Base.{ℕ, ◌≡◌, sym, subst, Option, none, some, List, Text}
use multi_tenant_cloud_obser.Guards.{Actor}
use multi_tenant_cloud_obser.Store.{
  Database, System, Enrollment, Tenant, internal_error, attempt, rolled_back,
}
use multi_tenant_cloud_obser.Store.Keeps.{
  Keeps, Keeps-bind, Keeps-then, Keeps-give, Keeps-throw, Keeps-query, Keeps-execute, Keeps-attempt,
  Keeps-write, Keeps-found_or, Keeps-throw_if, Keeps-if, Keeps-transaction, OnSuccess-if,
}
use multi_tenant_cloud_obser.Keycloak.{Env}
use multi_tenant_cloud_obser.Agents.{insert_agent_row, set_agent_status, set_client_uuid}
use multi_tenant_cloud_obser.Agents.Service.{issue}
use multi_tenant_cloud_obser.Agents.Keeps.{Keeps-issue}
use multi_tenant_cloud_obser.Enrollments.{
  EnrollmentRecord, insert_enrollment, mark_used, revoke_enrollment, revoke_open_for_tenant,
}
use multi_tenant_cloud_obser.Enrollments.Service.{
  EnrollmentConfig, create_enrollment, revoke, revoke_found, by_valid_id, exchange, exchange_in,
  exchange_locked, exchange_for, require_active,
}
use multi_tenant_cloud_obser.Enrollments.Cycle.{
  Grows, Grows-refl, Grows-trans, Grows-append, Grows-end, Grows-mark_used,
}

-- The table has grown out of the one at the start.
abbrev pub Since : List Enrollment → Database → Type 0
Since start db = Grows start db.enrollments

module _ {W : Type 0} (env : Env W) (config : EnrollmentConfig) (start : List Enrollment) where
  pub Since-issue :
      (tenant : Tenant) (agent_id id : ℕ) → Keeps (Since start) (issue env tenant agent_id id)
  unfolding insert_agent_row set_agent_status set_client_uuid
  Since-issue tenant agent_id id =
      Keeps-issue (Since start)
        (λ id tenant_id e now db h. OnSuccess-if (Since start) _ _ _ (λ k. h)) (λ id status db h. h)
        (λ id uuid now db h. OnSuccess-if (Since start) _ _ _ (λ k. h)) (λ db o h. h) env tenant
        agent_id id

  Since-mark_used : (id : ℕ) → Keeps {W = W} (Since start) (attempt internal_error (mark_used id))
  unfolding mark_used
  Since-mark_used id = Keeps-attempt _ _ (λ now db h.
      OnSuccess-if (Since start) _ _ _
        (λ k. Grows-trans start _ _ h (Grows-mark_used id now db.enrollments k)))

  pub Since-require_active : (o : Option Tenant) → Keeps (Since start) (require_active env config o)
  Since-require_active none = Keeps-throw _
  Since-require_active (some t) = Keeps-if _ (Keeps-give _) (Keeps-throw _)

  Since-exchange_for : (e : EnrollmentRecord) → Keeps (Since start) (exchange_for env config e)
  Since-exchange_for e = Keeps-bind (Keeps-query _) (λ found.
      Keeps-bind (Since-require_active found) (λ tenant.
        Keeps-bind (Since-issue tenant _ _)
          (λ issued. Keeps-then (Since-mark_used _) (Keeps-give _))))

  Since-exchange_locked :
      (o : Option EnrollmentRecord) → Keeps (Since start) (exchange_locked env config o)
  Since-exchange_locked none = Keeps-throw _
  Since-exchange_locked (some e) =
      Keeps-then (Keeps-throw_if _ _)
        (Keeps-then (Keeps-throw_if _ _) (Keeps-then (Keeps-throw_if _ _) (Since-exchange_for e)))

  Since-exchange : (token : Text) → Keeps (Since start) (exchange env config token)
  unfolding exchange exchange_in rolled_back
  Since-exchange token =
      Keeps-transaction (λ before after h. h)
        (Keeps-bind (Keeps-execute _ (λ now db h. h)) Since-exchange_locked)

  Since-create_enrollment :
      (actor : Actor) (tenant : Tenant) (token : Text)
      → Keeps (Since start) (create_enrollment env config actor tenant token)
  unfolding create_enrollment insert_enrollment
  Since-create_enrollment actor tenant token =
      Keeps-bind (Keeps-execute _ (λ now db h. h)) (λ agent_id.
        Keeps-bind
          (Keeps-attempt _ _ (λ now db h.
            OnSuccess-if (Since start) _ _ _
              (λ k. Grows-trans start _ _ h (Grows-append db.enrollments _))))
          (λ id.
            Keeps-bind (Keeps-execute _ (λ now db h. h))
              (λ created. Keeps-bind (Keeps-found_or _ created) (λ e. Keeps-give _))))

  Since-revoke :
      (actor : Actor) (tenant : Tenant) (id : Option ℕ)
      → Keeps (Since start) (revoke env config actor tenant id)
  unfolding revoke revoke_enrollment
  Since-revoke actor tenant id = Keeps-bind (looked_up id) ended
    where
      looked_up : (o : Option ℕ) → Keeps (Since start) (by_valid_id env config o)
      looked_up none = Keeps-give _
      looked_up (some id) = Keeps-execute _ (λ now db h. h)

      ended :
          (o : Option EnrollmentRecord)
          → Keeps (Since start) (revoke_found env config actor tenant o)
      ended none = Keeps-throw _
      ended (some e) = Keeps-then (Keeps-throw_if _ _) (
          Keeps-then (Keeps-throw_if _ _)
            (Keeps-write _ (λ now db h. Grows-trans start _ _ h (Grows-end _ _ _ db.enrollments))))

-- The operations on enrollments, in any order and number, with anything in between that leaves the
-- table as it is: time that passes, Keycloak, other tables.
pub data Step {W : Type 0} (env : Env W) (config : EnrollmentConfig)
    : System W → System W → Type 0 where
  created :
      {s : System W} (actor : Actor) (tenant : Tenant) (token : Text)
      → Step env config s (create_enrollment env config actor tenant token s).1
  revoked :
      {s : System W} (actor : Actor) (tenant : Tenant) (id : Option ℕ)
      → Step env config s (revoke env config actor tenant id s).1
  exchanged : {s : System W} (token : Text) → Step env config s (exchange env config token s).1
  cascaded :
      {s : System W} (tenant_id user_id : ℕ)
      → Step env config s (record s { db = revoke_open_for_tenant tenant_id user_id s.now s.db })
  elsewhere : {s t : System W} → t.db.enrollments ≡ s.db.enrollments → Step env config s t

pub data Later {W : Type 0} (env : Env W) (config : EnrollmentConfig)
    : System W → System W → Type 0 where
  at_once : {s : System W} → Later env config s s
  after : {s t u : System W} → Later env config s t → Step env config t u → Later env config s u

module _ {W : Type 0} (env : Env W) (config : EnrollmentConfig) where
  Step-Grows :
      (start : List Enrollment) (s t : System W)
      → Step env config s t
      → Since start s.db
      → Since start t.db
  unfolding revoke_open_for_tenant
  Step-Grows start s t (created actor tenant token) h =
      (Since-create_enrollment env config start actor tenant token).kept s h
  Step-Grows start s t (revoked actor tenant id) h =
      (Since-revoke env config start actor tenant id).kept s h
  Step-Grows start s t (exchanged token) h = (Since-exchange env config start token).kept s h
  Step-Grows start s t (cascaded tenant_id user_id) h =
      Grows-trans start _ _ h (Grows-end _ _ _ s.db.enrollments)
  Step-Grows start s t (elsewhere same) h = subst (Grows start) (sym same) h

  -- Whatever operations run, a row of the table is never lost or replaced: it keeps its id, token,
  -- agent and tenant, and moves at most once, from unused to used or to revoked at a time that stays.
  pub Later-Grows :
      (s t : System W) → Later env config s t → Grows s.db.enrollments t.db.enrollments
  Later-Grows s t at_once = Grows-refl s.db.enrollments
  Later-Grows s u (after {t = t} before step) =
      Step-Grows s.db.enrollments t u step (Later-Grows s t before)
