-- ===== src/Enrollments.antt =====
-- services/control-plane/src/modules/enrollments/enrollment.repository.ts and views.ts: the statements
-- on the table of enrollments, the one-time tokens of agents.
pub mod Service
pub mod Cycle
pub mod History
pub mod Exchange
pub mod Once
mod Tests
use multi_tenant_cloud_obser.Base.{
  ℕ, suc, ◌+◌, ◌*◌, Bool, true, false, not, ◌&&◌, ◌||◌, Option, none, some, List, [], ◌∷◌, ◌++◌,
  map, ◌==◌, if◌then◌else◌, any, Text, codes, text_eq, ltb, leb, is_none, is_some, take,
}
use multi_tenant_cloud_obser.Base.Tables.{select, find, update}
use multi_tenant_cloud_obser.Store.{
  Database, Enrollment, Tenant, User, Action, minutes, query, write, execute, attempt,
  internal_error, ◌>>=◌,
}
use multi_tenant_cloud_obser.Agents.{tenant_by_id}

pub data EnrollmentState : Type 0 where
  used revoked expired pending : EnrollmentState

-- A row with the tenant and the creator that the query joins, and whether it has expired. The columns
-- are foreign keys to tables that lose no row, so that no join drops an enrollment.
pub record EnrollmentRecord : Type 0 where
  pub row : Enrollment
  pub tenant : Option Tenant
  pub created_by : Option User
  pub expired : Bool

abbrev pub has_expired : ℕ → Enrollment → Bool
has_expired now e = leb e.expires_at now

-- JOIN tenants t ON t.id = e.tenant_id, JOIN users cu ON cu.id = e.created_by.
abbrev pub join_enrollment : ℕ → Database → Enrollment → EnrollmentRecord
join_enrollment now db e = record {
  row = e;
  tenant = tenant_by_id db e.tenant_id;
  created_by = find (λ u. u.id == e.created_by) db.users;
  expired = has_expired now e;
}

abbrev pub joined_row : ℕ → Database → Option Enrollment → Option EnrollmentRecord
joined_row now db none = none
joined_row now db (some e) = some (join_enrollment now db e)

-- A query of one row, which reads the clock of the transaction.
abbrev pub find_enrollment : {W : Type 0} → (Enrollment → Bool) → Action W (Option EnrollmentRecord)
find_enrollment where_ = execute (λ now db. (joined_row now db (find where_ db.enrollments), db))

abbrev pub by_token : Text → Enrollment → Bool
by_token token_hash e = text_eq e.token_hash token_hash

-- The row lock makes a second exchange of the token wait until the first has ended.
abbrev pub lock_by_token_hash : {W : Type 0} → Text → Action W (Option EnrollmentRecord)
lock_by_token_hash token_hash = find_enrollment (by_token token_hash)

abbrev pub find_by_id : {W : Type 0} → ℕ → Action W (Option EnrollmentRecord)
find_by_id id = find_enrollment (λ e. e.id == id)

abbrev pub new_enrollment : ℕ → ℕ → Text → ℕ → ℕ → ℕ → ℕ → Enrollment
new_enrollment id tenant_id token_hash agent_id created_by ttl_minutes now = record {
  id = id;
  tenant_id = tenant_id;
  token_hash = token_hash;
  agent_id = agent_id;
  created_by = created_by;
  created_at = now;
  expires_at = now + minutes ttl_minutes;
  used_at = none;
  revoked_at = none;
  revoked_by = none;
}

-- token_hash is unique, and a window ends after it starts.
abbrev pub enrollment_refused : Text → ℕ → Database → Bool
enrollment_refused token_hash ttl_minutes db =
    any (by_token token_hash) db.enrollments || ttl_minutes == 0

unfoldable pub insert_enrollment : ℕ → Text → ℕ → ℕ → ℕ → ℕ → Database → Option (ℕ × Database)
insert_enrollment tenant_id token_hash agent_id created_by ttl_minutes now db =
    if enrollment_refused token_hash ttl_minutes db
    then none
    else some (
      db.next_id,
      record db {
        enrollments =
            db.enrollments
            ++ (new_enrollment db.next_id tenant_id token_hash agent_id created_by ttl_minutes now
                ∷ []);
        next_id = suc db.next_id;
      },
    )

abbrev pub is_unused : Enrollment → Bool
is_unused e = is_none e.used_at && is_none e.revoked_at

abbrev pub is_usable : ℕ → Enrollment → Bool
is_usable id e = e.id == id && is_none e.used_at

-- A constraint of the table: no row is both used and revoked.
abbrev pub used_too_late : ℕ → Enrollment → Bool
used_too_late id e = is_usable id e && is_some e.revoked_at

abbrev pub use_enrollment : ℕ → Enrollment → Enrollment
use_enrollment now e = record e { used_at = some now }

unfoldable pub mark_used : ℕ → ℕ → Database → Option (Unit {0} × Database)
mark_used id now db =
    if any (used_too_late id) db.enrollments
    then none
    else some
        (tt, record db { enrollments = update (is_usable id) (use_enrollment now) db.enrollments })

abbrev pub end_enrollment : ℕ → ℕ → Enrollment → Enrollment
end_enrollment user_id now e = record e { revoked_at = some now; revoked_by = some user_id }

unfoldable pub revoke_enrollment : ℕ → ℕ → ℕ → Database → Database
revoke_enrollment id user_id now db = record db {
  enrollments = update (λ e. e.id == id && is_unused e) (end_enrollment user_id now) db.enrollments;
}

unfoldable pub revoke_open_for_tenant : ℕ → ℕ → ℕ → Database → Database
revoke_open_for_tenant tenant_id user_id now db = record db {
  enrollments =
      update (λ e. e.tenant_id == tenant_id && is_unused e) (end_enrollment user_id now)
        db.enrollments;
}

-- The ids of the agents that an exchange may still create.
unfoldable pub open_agent_ids : ℕ → Database → List ℕ
open_agent_ids now db =
    map (λ e. e.agent_id) (select (λ e. is_unused e && ltb now e.expires_at) db.enrollments)

abbrev pub list_limit : ℕ
list_limit = 100

unfoldable pub insert_newest : EnrollmentRecord → List EnrollmentRecord → List EnrollmentRecord
insert_newest e [] = e ∷ []
insert_newest e (f ∷ fs) =
    let rest = insert_newest e fs in
    if leb f.row.created_at e.row.created_at then e ∷ f ∷ fs else f ∷ rest

-- ORDER BY e.created_at DESC.
unfoldable pub newest_first : List EnrollmentRecord → List EnrollmentRecord
newest_first [] = []
newest_first (e ∷ es) = insert_newest e (newest_first es)

abbrev pub list_by_tenant : {W : Type 0} → ℕ → Action W (List EnrollmentRecord)
list_by_tenant tenant_id = execute (λ now db. (
  take list_limit (
      newest_first
        (map (join_enrollment now db) (select (λ e. e.tenant_id == tenant_id) db.enrollments))),
  db,
))

abbrev pub state_of : Option ℕ → Option ℕ → Bool → EnrollmentState
state_of (some at) revoked_at late = used
state_of none (some at) late = revoked
state_of none none late = if late then expired else pending

-- `enrollmentState`.
abbrev pub enrollment_state : EnrollmentRecord → EnrollmentState
enrollment_state e = state_of e.row.used_at e.row.revoked_at e.expired
