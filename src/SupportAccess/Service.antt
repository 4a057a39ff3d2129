-- ===== src/SupportAccess/Service.antt =====
-- services/control-plane/src/modules/support-access/support-access.service.ts.
use multi_tenant_cloud_obser.Base.{
  ℕ, Bool, Option, none, some, List, [], ◌∷◌, map, length, ltb, ◌==◌, if◌then◌else◌, Text, codes,
}
use multi_tenant_cloud_obser.Guards.{Actor}
use multi_tenant_cloud_obser.Outbox.{user, grafana}
use multi_tenant_cloud_obser.Store.{
  Grant, GrantRole, grant_viewer, Tenant, Action, Failure, domain, invalid, not_found, conflict,
  internal_error, give, throw, query, execute, attempt, found_or, throw_if, ◌>>=◌, ◌>>◌,
  transaction, enqueue_event, enqueue_all, equal_id,
}
use multi_tenant_cloud_obser.SupportAccess.{
  NewSupportAccess, insert_grant, grant_by_id, list_grants, distinct, claim_expired, in_effect,
  revoke_in_effect,
}

abbrev pub default_grant_minutes : ℕ
default_grant_minutes = 60

-- DEFAULT_GRAFANA_ORG_ID of mirrors/grafana.
abbrev pub default_grafana_org_id : ℕ
default_grafana_org_id = 1

abbrev pub tenant_is_platform : Failure
tenant_is_platform = domain conflict (codes "tenant_is_platform")

abbrev pub validation_failed : Failure
validation_failed = domain invalid (codes "validation_failed")

abbrev pub grant_not_found : Failure
grant_not_found = domain not_found (codes "grant_not_found")

pub record GrantDto : Type 0 where
  pub reason : Text
  pub role : Option GrantRole
  pub minutes : Option ℕ

pub record GrantView : Type 0 where
  pub row : Grant
  pub active : Bool

abbrev pub to_grant_view : ℕ → Grant → GrantView
to_grant_view now g = record { row = g; active = in_effect now g }

abbrev pub or_default : {A : Type 0} → Option A → A → A
or_default none a = a
or_default (some b) a = b

abbrev pub new_support_access : Actor → Tenant → GrantDto → NewSupportAccess
new_support_access actor tenant dto = record {
  user_id = actor.user_id;
  tenant_id = tenant.id;
  role = or_default dto.role grant_viewer;
  reason = dto.reason;
  granted_by = actor.username;
  minutes = or_default dto.minutes default_grant_minutes;
}

module _ {W : Type 0} where
  -- The application and the database read the same clock here.
  abbrev pub view : Grant → Action W GrantView
  view g = execute (λ now db. (to_grant_view now g, db))

  abbrev pub require_grant : ℕ → Action W Grant
  require_grant id = query (grant_by_id id) >>= found_or grant_not_found

  abbrev pub create_grant : Actor → Tenant → GrantDto → Action W ℕ
  create_grant actor tenant dto =
      attempt internal_error (insert_grant (new_support_access actor tenant dto)) >>= λ id.
      enqueue_event user actor.user_id (grafana ∷ []) >> give id

  -- `max_minutes` is of the configuration.
  unfoldable pub grant : ℕ → Actor → Tenant → GrantDto → Action W GrantView
  grant max_minutes actor tenant dto =
      throw_if (equal_id tenant.grafana_org_id default_grafana_org_id) tenant_is_platform
      >> (throw_if (ltb max_minutes (or_default dto.minutes default_grant_minutes))
            validation_failed
          >> (transaction (create_grant actor tenant dto) >>= λ id. require_grant id >>= view))

  abbrev pub list_for_tenant : Tenant → Bool → Action W (List GrantView)
  list_for_tenant tenant active_only =
      execute
        (λ now db. (map (to_grant_view now) (list_grants (some tenant.id) active_only now db), db))

  abbrev pub list_all : Bool → Action W (List GrantView)
  list_all active_only =
      execute (λ now db. (map (to_grant_view now) (list_grants none active_only now db), db))

  abbrev pub of_tenant : Tenant → Option Grant → Action W Grant
  of_tenant tenant none = throw grant_not_found
  of_tenant tenant (some g) = if g.tenant_id == tenant.id then give g else throw grant_not_found

  abbrev pub by_valid_id : Option ℕ → Action W (Option Grant)
  by_valid_id none = give none
  by_valid_id (some id) = query (grant_by_id id)

  -- The user of the grant that was in effect, if it was.
  abbrev pub announce : Option ℕ → Action W (Unit {0})
  announce none = give tt
  announce (some user_id) = enqueue_event user user_id (grafana ∷ [])

  unfoldable pub revoke : Actor → Tenant → Option ℕ → Action W GrantView
  revoke actor tenant grant_id = by_valid_id grant_id >>= λ found.
      of_tenant tenant found >>= λ existing.
      transaction (execute (revoke_in_effect existing.id actor.username) >>= announce)
      >> (require_grant existing.id >>= view)

  -- `held`: the rows that other transactions have locked.
  abbrev pub sweep : (ℕ → Bool) → Action W (List Grant)
  sweep held = execute (claim_expired held) >>= λ claimed.
      enqueue_all user (distinct (map (λ g. g.user_id) claimed)) (grafana ∷ []) >> give claimed

  -- `sweeping`: another sweep of this process runs.
  unfoldable pub sweep_expired : (ℕ → Bool) → Bool → Action W ℕ
  sweep_expired held sweeping =
      if sweeping then give 0 else (transaction (sweep held) >>= λ expired. give (length expired))
