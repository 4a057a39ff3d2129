-- ===== src/SupportAccess.antt =====
-- services/control-plane/src/modules/support-access (support-access.repository.ts, views.ts): the
-- statements on the table of support grants. The record of a grant is its row.

pub mod Service
mod Sound
pub mod Sweep
mod Tests
use multi_tenant_cloud_obser.Base.{
  ℕ, suc, ◌+◌, Bool, true, false, not, ◌&&◌, ◌||◌, Option, none, some, List, [], ◌∷◌, ◌++◌, map,
  ◌==◌, if◌then◌else◌, any, Text, ltb, leb, is_none, is_some, take,
}
use multi_tenant_cloud_obser.Base.Tables.{select, find, update, count}
use multi_tenant_cloud_obser.Store.{
  Database, Grant, GrantRole, Tenant, equal_id, coalesce, minutes, is_active,
}
use multi_tenant_cloud_obser.Agents.{tenant_by_id}

-- Neither revoked nor expired.
abbrev pub in_effect : ℕ → Grant → Bool
in_effect now g = is_none g.revoked_at && ltb now g.expires_at

abbrev pub is_unsynced : Grant → Bool
is_unsynced g = is_none g.expiry_synced_at

pub record NewSupportAccess : Type 0 where
  pub user_id : ℕ
  pub tenant_id : ℕ
  pub role : GrantRole
  pub reason : Text
  pub granted_by : Text
  pub minutes : ℕ

abbrev pub new_grant : ℕ → NewSupportAccess → ℕ → Grant
new_grant id grant now = record {
  id = id;
  user_id = grant.user_id;
  tenant_id = grant.tenant_id;
  role = grant.role;
  reason = grant.reason;
  granted_by = grant.granted_by;
  created_at = now;
  expires_at = now + minutes grant.minutes;
  revoked_at = none;
  revoked_by = none;
  expiry_synced_at = none;
}

-- A window ends after it starts.
unfoldable pub insert_grant : NewSupportAccess → ℕ → Database → Option (ℕ × Database)
insert_grant grant now db =
    if grant.minutes == 0
    then none
    else some (
      db.next_id,
      record db {
        grants = db.grants ++ (new_grant db.next_id grant now ∷ []);
        next_id = suc db.next_id;
      },
    )

abbrev pub grant_by_id : ℕ → Database → Option Grant
grant_by_id id db = find (λ g. g.id == id) db.grants

abbrev pub is_listed : Option ℕ → Bool → ℕ → Grant → Bool
is_listed tenant_id active_only now g =
    (is_none tenant_id || equal_id tenant_id g.tenant_id) && (not active_only || in_effect now g)

unfoldable pub insert_newest : Grant → List Grant → List Grant
insert_newest g [] = g ∷ []
insert_newest g (h ∷ hs) =
    let rest = insert_newest g hs in if leb h.created_at g.created_at then g ∷ h ∷ hs else h ∷ rest

unfoldable pub newest_first : List Grant → List Grant
newest_first [] = []
newest_first (g ∷ gs) = insert_newest g (newest_first gs)

abbrev pub list_limit : ℕ
list_limit = 200

unfoldable pub list_grants : Option ℕ → Bool → ℕ → Database → List Grant
list_grants tenant_id active_only now db =
    take list_limit (newest_first (select (is_listed tenant_id active_only now) db.grants))

unfoldable pub count_active : ℕ → Database → ℕ
count_active now db = count (in_effect now) db.grants

-- Removes what repeats, as `new Set` and DISTINCT do.
unfoldable pub distinct : List ℕ → List ℕ
distinct [] = []
distinct (x ∷ xs) = let rest = distinct xs in if any (λ y. y == x) rest then rest else x ∷ rest

unfoldable pub open_user_ids_by_tenant : ℕ → Database → List ℕ
open_user_ids_by_tenant tenant_id db =
    distinct
      (map (λ g. g.user_id) (select (λ g. g.tenant_id == tenant_id && is_unsynced g) db.grants))

pub record ActiveSupportGrant : Type 0 where
  pub grafana_org_id : ℕ
  pub role : GrantRole

abbrev pub org_of : Option Tenant → GrantRole → List ActiveSupportGrant
org_of none role = []
org_of (some t) role = elim t.grafana_org_id [
  | none ↦ []
  | some org ↦
      if is_active t.status then (record { grafana_org_id = org; role = role }) ∷ [] else []
]

unfoldable pub join_orgs : Database → List Grant → List ActiveSupportGrant
join_orgs db [] = []
join_orgs db (g ∷ gs) = org_of (tenant_by_id db g.tenant_id) g.role ++ join_orgs db gs

unfoldable pub active_grants_for_user : ℕ → ℕ → Database → List ActiveSupportGrant
active_grants_for_user user_id now db =
    join_orgs db (select (λ g. g.user_id == user_id && in_effect now g) db.grants)

abbrev pub revoke_grant : Text → ℕ → Grant → Grant
revoke_grant by now g = record g {
  revoked_at = some now;
  revoked_by = some by;
  expiry_synced_at = some now;
}

abbrev pub is_revocable : ℕ → ℕ → Grant → Bool
is_revocable id now g = g.id == id && in_effect now g

abbrev pub user_of : Option Grant → Option ℕ
user_of none = none
user_of (some g) = some g.user_id

-- The user of the row that changed, and the table.
unfoldable pub revoke_in_effect : ℕ → Text → ℕ → Database → Option ℕ × Database
revoke_in_effect id by now db = (
  user_of (find (is_revocable id now) db.grants),
  record db { grants = update (is_revocable id now) (revoke_grant by now) db.grants },
)

-- CASE WHEN expires_at > now() THEN a END.
abbrev pub if_running : {A : Type 0} → ℕ → Grant → A → Option A
if_running now g a = if ltb now g.expires_at then some a else none

abbrev pub or_value : {A : Type 0} → Option A → Option A → Option A
or_value (some a) other = some a
or_value none other = other

abbrev pub end_grant : Text → ℕ → Grant → Grant
end_grant by now g = record g {
  revoked_at = or_value g.revoked_at (if_running now g now);
  revoked_by = or_value g.revoked_by (if_running now g by);
  expiry_synced_at = some now;
}

abbrev pub is_open_of : ℕ → Grant → Bool
is_open_of tenant_id g = g.tenant_id == tenant_id && is_unsynced g

unfoldable pub end_open_for_tenant : ℕ → Text → ℕ → Database → List ℕ × Database
end_open_for_tenant tenant_id by now db = (
  distinct (map (λ g. g.user_id) (select (is_open_of tenant_id) db.grants)),
  record db { grants = update (is_open_of tenant_id) (end_grant by now) db.grants },
)

-- Expired, and the end not yet announced.
abbrev pub is_overdue : ℕ → Grant → Bool
is_overdue now g = is_unsynced g && leb g.expires_at now

unfoldable pub insert_earliest : Grant → List Grant → List Grant
insert_earliest g [] = g ∷ []
insert_earliest g (h ∷ hs) =
    let rest = insert_earliest g hs in
    if leb g.expires_at h.expires_at then g ∷ h ∷ hs else h ∷ rest

unfoldable pub earliest_first : List Grant → List Grant
earliest_first [] = []
earliest_first (g ∷ gs) = insert_earliest g (earliest_first gs)

abbrev pub claim_limit : ℕ
claim_limit = 100

-- Overdue, and not skipped: `held` are the ids of the rows that other transactions have locked.
abbrev pub is_claimable : (ℕ → Bool) → ℕ → Grant → Bool
is_claimable held now g = is_overdue now g && not (held g.id)

abbrev pub claimed_ids : (ℕ → Bool) → ℕ → Database → List ℕ
claimed_ids held now db =
    map (λ g. g.id) (take claim_limit (earliest_first (select (is_claimable held now) db.grants)))

abbrev pub is_in : List ℕ → Grant → Bool
is_in ids g = any (λ id. id == g.id) ids

abbrev pub sync_expiry : ℕ → Grant → Grant
sync_expiry now g = record g { expiry_synced_at = some now }

-- The rows claimed, and the table.
unfoldable pub claim_expired : (ℕ → Bool) → ℕ → Database → List Grant × Database
claim_expired held now db = (
  select (is_in (claimed_ids held now db)) db.grants,
  record db { grants = update (is_in (claimed_ids held now db)) (sync_expiry now) db.grants },
)
