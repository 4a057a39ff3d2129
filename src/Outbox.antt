-- ===== src/Outbox.antt =====
-- services/control-plane/src/sync/outbox.repository.ts and mirror.ts: the transactional outbox.
-- The table is the list of its rows in the order of their ids, which `INSERT` appends to. Time is in
-- milliseconds. Ids of aggregates are opaque and compared only for equality, so they are numbers.
-- Each statement is atomic and takes the database's clock as an argument.
pub mod Core
pub mod Steps
pub mod Invariant
pub mod Safe
pub mod History
pub mod NoLoss
pub mod Unique
pub mod Claims
pub mod Exclusive
pub mod Delay
pub mod Worker
pub mod Announced
mod Tests
use multi_tenant_cloud_obser.Base.{
  ℕ, suc, ◌+◌, ◌-◌, ◌*◌, ◌^◌, Bool, true, false, not, ◌&&◌, ◌||◌, Option, none, some, List, [], ◌∷◌,
  ltb, leb, ◌==◌, if◌then◌else◌, min, take, Text, any, is_none,
}
use multi_tenant_cloud_obser.Base.Tables.{select, update}

pub data Target : Type 0 where
  keycloak grafana : Target

pub data Aggregate : Type 0 where
  tenant user agent : Aggregate

-- MIRROR_TARGETS.
unfoldable pub mirror_targets : Aggregate → List Target
mirror_targets tenant = keycloak ∷ grafana ∷ []
mirror_targets user = keycloak ∷ grafana ∷ []
mirror_targets agent = keycloak ∷ []

abbrev pub target_eq : Target → Target → Bool
target_eq keycloak keycloak = true
target_eq grafana grafana = true
target_eq _ _ = false

abbrev pub aggregate_eq : Aggregate → Aggregate → Bool
aggregate_eq tenant tenant = true
aggregate_eq user user = true
aggregate_eq agent agent = true
aggregate_eq _ _ = false

-- What a row is about: (target, aggregate_type, aggregate_id).
pub record Key : Type 0 where
  pub target : Target
  pub aggregate_type : Aggregate
  pub aggregate_id : ℕ

pub key_eq : Key → Key → Bool
key_eq k j =
    target_eq k.target j.target
    && (aggregate_eq k.aggregate_type j.aggregate_type && k.aggregate_id == j.aggregate_id)

pub record Row : Type 0 where
  pub id : ℕ
  pub key : Key
  pub attempts : ℕ
  pub next_attempt_at : ℕ
  pub locked_until : Option ℕ
  pub last_error : Option Text
  pub created_at : ℕ
  pub processed_at : Option ℕ
  pub requested_seq : ℕ
  pub claimed_seq : Option ℕ

-- The table, and the sequence of its ids.
pub record Outbox : Type 0 where
  pub rows : List Row
  pub next_id : ℕ

pub record Event : Type 0 where
  pub id : ℕ
  pub key : Key
  pub attempts : ℕ
  pub claimed_seq : ℕ

abbrev pub seconds : ℕ → ℕ
seconds n = n * 1000

abbrev pub lease_seconds : ℕ
lease_seconds = 120

abbrev pub failing_attempts : ℕ
failing_attempts = 3

pub retry_delay_seconds : ℕ → ℕ
retry_delay_seconds attempts = min (5 * 2 ^ (attempts - 1)) 600

abbrev pub is_pending : Row → Bool
is_pending r = is_none r.processed_at

-- The partial unique index of migration 005.
pub conflicts : Key → Row → Bool
conflicts k r = is_pending r && key_eq r.key k

abbrev pub bump : ℕ → Row → Row
bump now r = record r {
  requested_seq = r.requested_seq + 1;
  next_attempt_at = min r.next_attempt_at now;
}

abbrev pub new_row : ℕ → ℕ → Key → Row
new_row now id k = record {
  id = id;
  key = k;
  attempts = 0;
  next_attempt_at = now;
  locked_until = none;
  last_error = none;
  created_at = now;
  processed_at = none;
  requested_seq = 1;
  claimed_seq = none;
}

append : List Row → Row → List Row
append [] r = r ∷ []
append (x ∷ xs) r = x ∷ append xs r

-- INSERT … ON CONFLICT … DO UPDATE. The id is drawn from the sequence in both cases.
pub enqueue_one : ℕ → Key → Outbox → Outbox
enqueue_one now k o = record {
  rows =
      if any (conflicts k) o.rows
      then update (conflicts k) (bump now) o.rows
      else append o.rows (new_row now o.next_id k);
  next_id = suc o.next_id;
}

-- The loop of `enqueue` over the targets.
pub enqueue : ℕ → Aggregate → ℕ → List Target → Outbox → Outbox
enqueue now a id [] o = o
enqueue now a id (t ∷ ts) o =
    enqueue now a id ts
      (enqueue_one now (record { target = t; aggregate_type = a; aggregate_id = id }) o)

abbrev pub is_free : ℕ → Row → Bool
is_free now r = elim r.locked_until [ none ↦ true | some until ↦ ltb until now ]

pub is_due : ℕ → Row → Bool
is_due now r = is_pending r && (leb r.next_attempt_at now && is_free now r)

abbrev pub lease : ℕ → Row → Row
lease now r = record r {
  locked_until = some (now + seconds lease_seconds);
  attempts = r.attempts + 1;
  claimed_seq = some r.requested_seq;
}

-- The row as `map` returns it after `lease`.
abbrev pub to_event : Row → Event
to_event r = record {
  id = r.id;
  key = r.key;
  attempts = r.attempts + 1;
  claimed_seq = r.requested_seq;
}

-- The first `limit` rows in the order of ids that are due and that no other transaction holds (SKIP
-- LOCKED) are leased and returned.
pub claim_rows : (ℕ → Bool) → ℕ → ℕ → List Row → List Row × List Event
claim_rows held now limit [] = ([], [])
claim_rows held now limit (r ∷ rest) =
    let hit = is_due now r && (not (held r.id) && ltb 0 limit) in
    let (rest', events) = claim_rows held now (if hit then limit - 1 else limit) rest in
    if hit then (lease now r ∷ rest', to_event r ∷ events) else (r ∷ rest', events)

pub claim : (ℕ → Bool) → ℕ → ℕ → Outbox → Outbox × List Event
claim held now limit o =
    let (rows, events) = claim_rows held now limit o.rows in (record o { rows = rows }, events)

abbrev pub is_claimed : Event → Row → Bool
is_claimed e r = r.id == e.id && r.requested_seq == e.claimed_seq

abbrev pub finish : ℕ → Row → Row
finish now r = record r { processed_at = some now; locked_until = none; last_error = none }

abbrev pub is_open : Event → Row → Bool
is_open e r = r.id == e.id && is_pending r

abbrev pub run_again : ℕ → Row → Row
run_again now r = record r { locked_until = none; next_attempt_at = now; attempts = 0 }

-- `true` if the event is finished, `false` if the aggregate was enqueued again in the meantime.
pub mark_done : ℕ → Event → Outbox → Outbox × Bool
mark_done now e o =
    if any (is_claimed e) o.rows
    then (record o { rows = update (is_claimed e) (finish now) o.rows }, true)
    else (record o { rows = update (is_open e) (run_again now) o.rows }, false)

abbrev pub postpone : ℕ → ℕ → Text → Row → Row
postpone now attempts error r = record r {
  locked_until = none;
  last_error = some (take 2000 error);
  next_attempt_at = now + seconds (retry_delay_seconds attempts);
}

pub mark_failed : ℕ → Event → Text → Outbox → Outbox
mark_failed now e error o = record o {
  rows = update (λ r. r.id == e.id) (postpone now e.attempts error) o.rows;
}

abbrev pub week : ℕ
week = seconds (7 * 24 * 60 * 60)

abbrev pub is_stale : ℕ → Row → Bool
is_stale now r = elim r.processed_at [ none ↦ false | some at ↦ ltb (at + week) now ]

-- DELETE … WHERE processed_at < now() - interval '7 days'.
pub purge_processed : ℕ → Outbox → Outbox
purge_processed now o = record o { rows = select (λ r. not (is_stale now r)) o.rows }
