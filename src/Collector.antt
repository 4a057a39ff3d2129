-- ===== src/Collector.antt =====
-- services/control-plane/src/mirrors/keycloak/keycloak-gc.ts: the collection of what is ours in Keycloak and
-- has no live row. The times at which orphans were first seen are kept by the process, across runs.
mod Spares
mod Tests
use multi_tenant_cloud_obser.Base.{
  ℕ, zero, suc, ◌+◌, ◌*◌, ◌-◌, Bool, true, false, not, ◌&&◌, ◌||◌, Option, none, some, List, [],
  ◌∷◌, ◌++◌, map, length, ltb, any, ◌==◌, if◌then◌else◌, Text, codes, text_eq, starts_with,
  drop_prefix,
}
use multi_tenant_cloud_obser.Base.Tables.{select}
use multi_tenant_cloud_obser.Store.{
  Database, System, Action, Call, Reply, failed, done, give, call, query, execute, ◌>>=◌, returned,
  minutes,
}
use multi_tenant_cloud_obser.Keycloak.{
  Env, KeycloakClient, KcClient, KcUser, KcGroup, property, with_property, without_key, attr,
  user_marker, tenant_marker,
}
use multi_tenant_cloud_obser.Users.{active_user_ids}
use multi_tenant_cloud_obser.Tenants.{active_tenant_ids}
use multi_tenant_cloud_obser.Agents.{agent_client_prefix, live_agent_ids}
use multi_tenant_cloud_obser.Enrollments.{open_agent_ids}

abbrev pub gc_confirm : ℕ
gc_confirm = minutes 2

abbrev pub page_size : ℕ
page_size = 100

abbrev pub max_pages : ℕ
max_pages = 100

abbrev pub always_allowed : ℕ
always_allowed = 5

pub record GcResult : Type 0 where
  pub deleted : ℕ
  pub pending : ℕ

pub record Orphan (W : Type 0) : Type 0 where
  pub key : Text
  pub remove : Call W (Unit {0})

-- `firstSeen`.
abbrev pub Seen : Type 0
Seen = List (Text × ℕ)

-- Refuses a kind of which more than half, and more than five, look orphaned.
unfoldable pub sane : {W : Type 0} → List (Orphan W) → ℕ → List (Orphan W)
sane orphans total =
    if ltb always_allowed (length orphans) && ltb total (2 * length orphans) then [] else orphans

abbrev pub has_key : {W : Type 0} → List (Orphan W) → Text × ℕ → Bool
has_key orphans (key, at) = any (λ o. text_eq o.key key) orphans

-- Whether it was first seen, and at least two minutes before.
abbrev pub is_confirmed : ℕ → Option ℕ → Bool
is_confirmed now none = false
is_confirmed now (some at) = not (ltb (now - at) gc_confirm)

-- `if (seen === undefined) firstSeen.set(key, now)`.
abbrev pub remembered : Text → ℕ → Option ℕ → Seen → Seen
remembered key now none seen = with_property key now seen
remembered key now (some at) seen = seen

module _ (W : Type 0) where
  abbrev pub Run : Type 0
  Run = Reply GcResult × (Seen × System W)

module _ {W : Type 0} where
  abbrev pub add_pending : Run W → Run W
  add_pending (failed e, rest) = (failed e, rest)
  add_pending (done r, rest) = (done (record r { pending = suc r.pending }), rest)

  abbrev pub add_deleted : Run W → Run W
  add_deleted (failed e, rest) = (failed e, rest)
  add_deleted (done r, rest) = (done (record r { deleted = suc r.deleted }), rest)

  abbrev pub after_removal :
      Reply (Unit {0}) × System W → Text → Seen → (Seen → System W → Run W) → Run W
  after_removal (failed e, s) key seen rest = (failed e, (seen, s))
  after_removal (done u, s) key seen rest = add_deleted (rest (without_key key seen) s)

  -- The loop over the orphans. A removal that fails ends the run, and what was seen stays.
  unfoldable pub collect : ℕ → List (Orphan W) → Seen → System W → Run W
  collect now [] seen s = (done (record { deleted = 0; pending = 0 }), (seen, s))
  collect now (o ∷ os) seen s = elim (is_confirmed now (property o.key seen)) [
    | false ↦ add_pending (collect now os (remembered o.key now (property o.key seen) seen) s)
    | true ↦ after_removal (call o.remove s) o.key seen (collect now os)
  ]

  -- Forgets what is no orphan any more, and goes through the orphans.
  unfoldable pub collect_orphans : List (Orphan W) → Seen → System W → Run W
  collect_orphans orphans seen s = collect s.now orphans (select (has_key orphans) seen) s

  unfoldable pub pages_from : {A : Type 0} → ℕ → ℕ → (ℕ → ℕ → Call W (List A)) → Action W (List A)
  pages_from zero page fetch = give []
  pages_from (suc fuel) page fetch = call (fetch (page * page_size) page_size) >>= λ items.
      let rest = pages_from fuel (suc page) fetch in
      if ltb (length items) page_size then give items else (rest >>= λ more. give (items ++ more))

  -- One unit of fuel for each page that may be read.
  unfoldable pub pages : {A : Type 0} → (ℕ → ℕ → Call W (List A)) → Action W (List A)
  pages fetch = pages_from max_pages 0 fetch

module _ {W : Type 0} (env : Env W) where
  abbrev pub kc : KeycloakClient W
  kc = env.keycloak

  abbrev pub is_in : List ℕ → Option ℕ → Bool
  is_in ids none = true
  is_in ids (some id) = any (λ i. i == id) ids

  abbrev pub agent_id_of : KcClient → Option ℕ
  agent_id_of client = env.parse_uuid (drop_prefix client.client_id agent_client_prefix)

  abbrev pub is_ours : KcClient → Bool
  is_ours client = starts_with client.client_id agent_client_prefix

  abbrev pub client_orphan : KcClient → Orphan W
  client_orphan client = record {
    key = codes "client:" ++ client.id;
    remove = kc.delete_client client.id;
  }

  unfoldable pub orphan_clients : Action W (List (Orphan W))
  orphan_clients = do
    listed ← pages (kc.list_clients agent_client_prefix)
    live ← query live_agent_ids
    open_ids ← execute (λ now db. (open_agent_ids now db, db))
    give (
        sane
          (map client_orphan
            (select (λ c. not (is_in (live ++ open_ids) (agent_id_of c))) (select is_ours listed)))
          (length (select is_ours listed)))

  abbrev pub id_of_marker : Option Text → Option ℕ
  id_of_marker none = none
  id_of_marker (some marker) = env.parse_uuid marker

  abbrev pub user_id_of : KcUser → Option ℕ
  user_id_of user = id_of_marker (attr user.attributes user_marker)

  abbrev pub group_id_of : KcGroup → Option ℕ
  group_id_of group = id_of_marker (attr group.attributes tenant_marker)

  abbrev pub is_given : Option ℕ → Bool
  is_given none = false
  is_given (some id) = true

  unfoldable pub ids_of : List (Option ℕ) → List ℕ
  ids_of [] = []
  ids_of (none ∷ ids) = ids_of ids
  ids_of (some id ∷ ids) = id ∷ ids_of ids

  abbrev pub user_orphan : KcUser → Orphan W
  user_orphan user = record { key = codes "user:" ++ user.id; remove = kc.delete_user user.id }

  abbrev pub group_orphan : KcGroup → Orphan W
  group_orphan group = record {
    key = codes "group:" ++ group.id;
    remove = kc.delete_group group.id;
  }

  unfoldable pub orphan_users : Action W (List (Orphan W))
  orphan_users = do
    listed ← pages kc.list_users
    live ← query (active_user_ids (ids_of (map user_id_of listed)))
    give (
        sane (map user_orphan (select (λ u. not (is_in live (user_id_of u))) listed))
          (length (select (λ u. is_given (user_id_of u)) listed)))

  unfoldable pub orphan_groups : Action W (List (Orphan W))
  orphan_groups = do
    listed ← pages kc.list_groups
    live ← query (active_tenant_ids (ids_of (map group_id_of listed)))
    give (
        sane (map group_orphan (select (λ g. not (is_in live (group_id_of g))) listed))
          (length (select (λ g. is_given (group_id_of g)) listed)))

  abbrev pub orphans : Action W (List (Orphan W))
  orphans = orphan_clients >>= λ clients.
      orphan_users >>= λ users. orphan_groups >>= λ groups. give (clients ++ users ++ groups)

  abbrev pub run_on : Seen → Reply (List (Orphan W)) × System W → Run W
  run_on seen (failed e, s) = (failed e, (seen, s))
  run_on seen (done found, s) = collect_orphans found seen s

  unfoldable pub run_gc : Seen → System W → Run W
  run_gc seen s = run_on seen (orphans s)
