-- ===== src/Outbox/Core.antt =====
-- What decides whether a change can be lost: of each row its id, its key, whether it is processed
-- and how often it was requested. Leases, retries and errors are left out.
use multi_tenant_cloud_obser.Base.{
  ℕ, suc, ◌+◌, ◌-◌, ◌≡◌, refl, ap, Bool, true, false, not, ◌&&◌, Option, none, some, List, [], ◌∷◌,
  map, arith, ltb, ◌==◌, if◌then◌else◌, any, is_none, Text,
}
use multi_tenant_cloud_obser.Base.Tables.{
  select, update, map-update, map-update_same, map-select, any-map,
}
use multi_tenant_cloud_obser.Outbox.{
  Key, key_eq, Row, Outbox, Event, target_eq, aggregate_eq, conflicts, bump, new_row, append,
  enqueue_one, claim_rows, claim, is_claimed, finish, is_open, run_again, mark_done, postpone,
  mark_failed, week, is_stale, purge_processed, Target, Aggregate, keycloak, grafana,
}

pub record Core : Type 0 where
  pub id : ℕ
  pub key : Key
  pub processed_at : Option ℕ
  pub requested_seq : ℕ

abbrev pub core : Row → Core
core r = record {
  id = r.id;
  key = r.key;
  processed_at = r.processed_at;
  requested_seq = r.requested_seq;
}

abbrev pub cores : List Row → List Core
cores = map core

abbrev pub is_waiting : Core → Bool
is_waiting c = is_none c.processed_at

abbrev pub blocks : Key → Core → Bool
blocks k c = is_waiting c && key_eq c.key k

abbrev pub request : Core → Core
request c = record c { requested_seq = c.requested_seq + 1 }

abbrev pub matches : Event → Core → Bool
matches e c = c.id == e.id && c.requested_seq == e.claimed_seq

abbrev pub close : ℕ → Core → Core
close now c = record c { processed_at = some now }

unfoldable pub push : List Core → Core → List Core
push [] c = c ∷ []
push (x ∷ xs) c = x ∷ push xs c

target_eq_sound : (s t : Target) → target_eq s t ≡ true → s ≡ t
target_eq_sound keycloak keycloak h = refl
target_eq_sound grafana grafana h = refl
target_eq_sound keycloak grafana h = cc
target_eq_sound grafana keycloak h = cc

aggregate_eq_sound : (a b : Aggregate) → aggregate_eq a b ≡ true → a ≡ b
aggregate_eq_sound a b h = ground arith

pub key_eq_sound : (k j : Key) → key_eq k j ≡ true → k ≡ j
unfolding key_eq
key_eq_sound k j h =
    ground (
      arith,
      target_eq_sound k.target j.target,
      aggregate_eq_sound k.aggregate_type j.aggregate_type,
    )

pub key_eq_refl : (k : Key) → key_eq k k ≡ true
unfolding key_eq
key_eq_refl k = ground arith

cores-append : (rows : List Row) (r : Row) → cores (append rows r) ≡ push (cores rows) (core r)
unfolding append push
cores-append [] r = refl
cores-append (x ∷ rows) r = ap (◌∷◌ (core x)) (cores-append rows r)

pub any-conflicts :
    (k : Key) (rows : List Row) → any (conflicts k) rows ≡ any (blocks k) (cores rows)
unfolding conflicts
any-conflicts k rows = any-map core (conflicts k) (blocks k) (λ a. refl) rows

-- An enqueue on the cores.
pub cores-enqueue_one :
    (now : ℕ) (k : Key) (o : Outbox)
    → cores (enqueue_one now k o).rows ≡ (
        if any (blocks k) (cores o.rows)
        then update (blocks k) request (cores o.rows)
        else push (cores o.rows) (core (new_row now o.next_id k)))
unfolding enqueue_one conflicts
cores-enqueue_one now k o = ground (
  arith,
  any-conflicts k o.rows,
  cores-append o.rows (new_row now o.next_id k),
  map-update core (conflicts k) (bump now) (blocks k) request (λ a. refl) (λ a. refl) o.rows,
)

-- A claim changes no core.
pub cores-claim_rows :
    (held : ℕ → Bool) (now limit : ℕ) (rows : List Row)
    → cores (claim_rows held now limit rows).0 ≡ cores rows
unfolding claim_rows
cores-claim_rows held now limit [] = refl
cores-claim_rows held now limit (r ∷ rows) =
    ground (arith, cores-claim_rows held now (limit - 1) rows, cores-claim_rows held now limit rows)

pub cores-claim :
    (held : ℕ → Bool) (now limit : ℕ) (o : Outbox)
    → cores (claim held now limit o).0.rows ≡ cores o.rows
unfolding claim
cores-claim held now limit o = cores-claim_rows held now limit o.rows

-- A finished event closes the rows that it matches; one that is run again changes no core.
pub cores-mark_done :
    (now : ℕ) (e : Event) (o : Outbox)
    → cores (mark_done now e o).0.rows ≡ (
        if any (matches e) (cores o.rows)
        then update (matches e) (close now) (cores o.rows)
        else cores o.rows)
unfolding mark_done
cores-mark_done now e o = ground (
  arith,
  any-map core (is_claimed e) (matches e) (λ a. refl) o.rows,
  map-update core (is_claimed e) (finish now) (matches e) (close now) (λ a. refl) (λ a. refl)
      o.rows,
  map-update_same core (is_open e) (run_again now) (λ a. refl) o.rows,
)

pub cores-mark_failed :
    (now : ℕ) (e : Event) (error : Text) (o : Outbox)
    → cores (mark_failed now e error o).rows ≡ cores o.rows
unfolding mark_failed
cores-mark_failed now e error o =
    map-update_same core (λ r. r.id == e.id) (postpone now e.attempts error) (λ a. refl) o.rows

abbrev pub is_kept : ℕ → Core → Bool
is_kept now c = not (elim c.processed_at [ none ↦ false | some at ↦ ltb (at + week) now ])

-- A purge drops rows that are processed.
pub cores-purge_processed :
    (now : ℕ) (o : Outbox)
    → cores (purge_processed now o).rows ≡ select (is_kept now) (cores o.rows)
unfolding purge_processed
cores-purge_processed now o =
    map-select core (λ r. not (is_stale now r)) (is_kept now) (λ a. refl) o.rows

-- What the operations do to the sequence of ids.
pub next_id-enqueue_one :
    (now : ℕ) (k : Key) (o : Outbox) → (enqueue_one now k o).next_id ≡ suc o.next_id
unfolding enqueue_one
next_id-enqueue_one now k o = refl

pub next_id-mark_done :
    (now : ℕ) (e : Event) (o : Outbox) → (mark_done now e o).0.next_id ≡ o.next_id
unfolding mark_done
next_id-mark_done now e o = ground arith
