-- ===== src/Store.antt =====
-- services/control-plane/src/common/db (database.service.ts, base.repository.ts) and the tables of
-- kubernetes/base/control/control-plane-db: the database of the control plane, and the actions that the
-- services run on it.
-- A UUID is a number, and the id in a path is one or none. The columns updated_at are left out. A
-- statement is atomic and reads the clock of its transaction.
pub mod Keeps
pub mod Announced
use multi_tenant_cloud_obser.Base.{
  ℕ, suc, ◌*◌, Bool, true, false, Option, none, some, List, [], ◌∷◌, Text, text_eq, ◌==◌,
}
use multi_tenant_cloud_obser.Outbox.{Outbox, Aggregate, Target, enqueue, seconds}
use multi_tenant_cloud_obser.Guards.{Role}

-- The subclasses of DomainError.
pub data ErrorClass : Type 0 where
  invalid unauthenticated forbidden not_found conflict gone too_many_requests : ErrorClass

-- What a handler throws: a business error with its code, an error of Keycloak or Grafana, and the
-- rest, which the client sees as 500.
pub data Failure : Type 0 where
  domain : ErrorClass → Text → Failure
  upstream_unavailable upstream_bad_response internal_error : Failure

pub data Reply {ℓ} (A : Type ℓ) : Type ℓ where
  failed : Failure → Reply A
  done : A → Reply A

pub data RowStatus : Type 0 where
  active deleted : RowStatus

pub record Tenant : Type 0 where
  pub id : ℕ
  pub tenant_key : Text
  pub vm_account_id : ℕ
  pub keycloak_group_id : Option Text
  pub grafana_org_id : Option ℕ
  pub status : RowStatus
  pub created_at : ℕ
  pub deleted_at : Option ℕ

pub record User : Type 0 where
  pub id : ℕ
  pub keycloak_user_id : Option Text
  pub tenant_id : Option ℕ
  pub username : Text
  pub email : Text
  pub first_name : Option Text
  pub last_name : Option Text
  pub role : Role
  pub enabled : Bool
  pub grafana_user_id : Option ℕ
  pub status : RowStatus
  pub created_at : ℕ
  pub deleted_at : Option ℕ

pub data AgentStatus : Type 0 where
  provisioning running disabled revoked : AgentStatus

pub record Agent : Type 0 where
  pub id : ℕ
  pub tenant_id : ℕ
  pub keycloak_client_uuid : Option Text
  pub status : AgentStatus
  pub created_at : ℕ
  pub revoked_at : Option ℕ
  pub enrollment_id : Option ℕ

pub record Enrollment : Type 0 where
  pub id : ℕ
  pub tenant_id : ℕ
  pub token_hash : Text
  pub agent_id : ℕ
  pub created_by : ℕ
  pub created_at : ℕ
  pub expires_at : ℕ
  pub used_at : Option ℕ
  pub revoked_at : Option ℕ
  pub revoked_by : Option ℕ

pub data GrantRole : Type 0 where
  grant_viewer grant_editor : GrantRole

pub record Grant : Type 0 where
  pub id : ℕ
  pub user_id : ℕ
  pub tenant_id : ℕ
  pub role : GrantRole
  pub reason : Text
  pub granted_by : Text
  pub created_at : ℕ
  pub expires_at : ℕ
  pub revoked_at : Option ℕ
  pub revoked_by : Option Text
  pub expiry_synced_at : Option ℕ

-- The tables, in the order of insertion. `next_id` stands for the source of new UUIDs, and
-- `next_account` is the sequence vm_account_id_seq.
pub record Database : Type 0 where
  pub tenants : List Tenant
  pub users : List User
  pub agents : List Agent
  pub enrollments : List Enrollment
  pub grants : List Grant
  pub outbox : Outbox
  pub next_id : ℕ
  pub next_account : ℕ

-- What a service acts on: the database, the systems outside, the clock of the database, and the id of
-- a Keycloak scope that a process keeps.
pub record System (W : Type 0) : Type 0 where
  pub db : Database
  pub world : W
  pub now : ℕ
  pub scope_id : Option Text

module _ (W : Type 0) where
  -- A call of a system outside.
  abbrev pub Call : Type 0 → Type 0
  Call A = W → Reply A × W

  abbrev pub Action : Type 0 → Type 0
  Action A = System W → Reply A × System W

module _ {W A : Type 0} where
  unfoldable pub give : A → Action W A
  give a s = (done a, s)

  unfoldable pub throw : Failure → Action W A
  throw e s = (failed e, s)

  unfoldable pub query : (Database → A) → Action W A
  query read s = (done (read s.db), s)

  -- A statement that writes, given the clock.
  unfoldable pub execute : (ℕ → Database → A × Database) → Action W A
  execute statement s = let (a, db) = statement s.now s.db in (done a, record s { db = db })

  abbrev pub returned : System W → Reply A × W → Reply A × System W
  returned s (reply, w) = (reply, record s { world = w })

  unfoldable pub call : Call W A → Action W A
  call c s = returned s (c s.world)

  unfoldable pub found_or : Failure → Option A → Action W A
  found_or e none = throw e
  found_or e (some a) = give a

abbrev pub write : {W : Type 0} → (ℕ → Database → Database) → Action W (Unit {0})
write statement = execute (λ now db. (tt, statement now db))

module _ {W A B : Type 0} where
  abbrev pub continue : (A → Action W B) → Reply A × System W → Reply B × System W
  continue next (failed e, s) = (failed e, s)
  continue next (done a, s) = next a s

  infixl 5 ◌>>=◌
  unfoldable pub ◌>>=◌ : Action W A → (A → Action W B) → Action W B
  ◌>>=◌ m next s = continue next (m s)

infixl 5 ◌>>◌
unfoldable pub ◌>>◌ : {W B : Type 0} → Action W (Unit {0}) → Action W B → Action W B
first >> rest = first >>= λ u. rest

unfoldable pub throw_if : {W : Type 0} → Bool → Failure → Action W (Unit {0})
throw_if true e = throw e
throw_if false e = give tt

unfoldable pub when : {W : Type 0} → Bool → Action W (Unit {0}) → Action W (Unit {0})
when true m = m
when false m = give tt

-- What ROLLBACK leaves: the tables as they were, and the sequences where they are.
unfoldable pub rolled_back : Database → Database → Database
rolled_back before after = record before {
  next_id = after.next_id;
  next_account = after.next_account;
  outbox = record before.outbox { next_id = after.outbox.next_id };
}

abbrev pub concluded : {W A : Type 0} → System W → Reply A × System W → Reply A × System W
concluded before (done a, s) = (done a, s)
concluded before (failed e, s) = (failed e, record s { db = rolled_back before.db s.db })

-- `DatabaseService.transaction`. What was done outside stays done.
unfoldable pub transaction : {W A : Type 0} → Action W A → Action W A
transaction body s = concluded s (body s)

-- `OutboxRepository.enqueue`, in the transaction of the caller.
unfoldable pub enqueue_event : {W : Type 0} → Aggregate → ℕ → List Target → Action W (Unit {0})
enqueue_event aggregate id targets =
    write (λ now db. record db { outbox = enqueue now aggregate id targets db.outbox })

-- The loop that enqueues an event for each of several ids.
unfoldable pub enqueue_all : {W : Type 0} → Aggregate → List ℕ → List Target → Action W (Unit {0})
enqueue_all aggregate [] targets = give tt
enqueue_all aggregate (id ∷ ids) targets =
    enqueue_event aggregate id targets >> enqueue_all aggregate ids targets

abbrev pub fresh_id : Database → ℕ × Database
fresh_id db = (db.next_id, record db { next_id = suc db.next_id })

-- A statement that a constraint may refuse.
abbrev pub refused_or :
    {W A : Type 0} → Failure → System W → Option (A × Database) → Reply A × System W
refused_or e s none = (failed e, s)
refused_or e s (some (a, db)) = (done a, record s { db = db })

unfoldable pub attempt :
    {W A : Type 0} → Failure → (ℕ → Database → Option (A × Database)) → Action W A
attempt e statement s = refused_or e s (statement s.now s.db)

-- make_interval(mins => n), on a clock of milliseconds.
abbrev pub minutes : ℕ → ℕ
minutes n = seconds (60 * n)

abbrev pub equal_id : Option ℕ → ℕ → Bool
equal_id none id = false
equal_id (some own) id = own == id

abbrev pub equal_text : Option Text → Option Text → Bool
equal_text (some s) (some t) = text_eq s t
equal_text _ _ = false

-- `COALESCE(at, now())`.
abbrev pub coalesce : Option ℕ → ℕ → Option ℕ
coalesce none now = some now
coalesce (some at) now = some at

abbrev pub is_active : RowStatus → Bool
is_active active = true
is_active deleted = false
