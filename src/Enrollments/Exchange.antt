-- ===== src/Enrollments/Exchange.antt =====
-- The exchange of a token for the credentials of an agent: when it is refused, and that it succeeds once.
use multi_tenant_cloud_obser.Base.{
  ℕ, ◌≡◌, refl, Bool, true, false, Option, none, some, Text, is_some, if◌then◌else◌,
}
use multi_tenant_cloud_obser.Base.Tables.{find}
use multi_tenant_cloud_obser.Store.{
  Database, System, Action, failed, Failure, Enrollment, Tenant, give, throw, query, execute,
  throw_if, ◌>>=◌, ◌>>◌, rolled_back, transaction, concluded, is_active,
}
use multi_tenant_cloud_obser.Keycloak.{Env}
use multi_tenant_cloud_obser.Agents.{tenant_by_id}
use multi_tenant_cloud_obser.Enrollments.{
  EnrollmentRecord, EnrollmentState, used, revoked, expired, pending, by_token, join_enrollment,
  joined_row, enrollment_state, state_of,
}
use multi_tenant_cloud_obser.Enrollments.Service.{
  EnrollmentConfig, exchange, exchange_in, exchange_locked, exchange_for, require_active, gone_used,
  gone_revoked, gone_expired, enrollment_invalid, tenant_not_active,
}

abbrev pub active_tenant : Option Tenant → Bool
active_tenant none = false
active_tenant (some t) = is_active t.status

abbrev pub refusal_in : EnrollmentState → Bool → Option Failure
refusal_in used active = some gone_used
refusal_in revoked active = some gone_revoked
refusal_in expired active = some gone_expired
refusal_in pending active = if active then none else some tenant_not_active

-- Why a token is refused, by the state of its enrollment.
abbrev pub refusal : ℕ → Database → Option Enrollment → Option Failure
refusal now db none = some enrollment_invalid
refusal now db (some e) =
    refusal_in (enrollment_state (join_enrollment now db e))
      (active_tenant (tenant_by_id db e.tenant_id))

abbrev pub holder : {W : Type 0} → Env W → Text → Database → Option Enrollment
holder env token db = find (by_token (env.hash_token token)) db.enrollments

-- The checks, in their order, before an action that refuses what is left.
refused_by_guards :
    {W A : Type 0} (s : System W) (f : Failure) (u r : Option ℕ) (late active : Bool)
    (m : Action W A)
    → (active ≡ false → m s ≡ (failed tenant_not_active, s))
    → refusal_in (state_of u r late) active ≡ some f
    → concluded s (
        (throw_if (is_some u) gone_used
            >> (throw_if (is_some r) gone_revoked >> (throw_if late gone_expired >> m)))
          s)
      ≡ (failed f, s)
unfolding ◌>>=◌ ◌>>◌ throw_if throw give rolled_back
refused_by_guards s f (some t) r late active m hm h = cc
refused_by_guards s f none (some t) late active m hm h = cc
refused_by_guards s f none none true active m hm h = cc
refused_by_guards s f none none false true m hm h = absurd cc
refused_by_guards s f none none false false m hm h = rw (hm refl) cc

module _ {W : Type 0} (env : Env W) (config : EnrollmentConfig) where
  inactive_refused :
      {A : Type 0} (o : Option Tenant) (next : Tenant → Action W A) (s : System W)
      → active_tenant o ≡ false
      → (require_active env config o >>= next) s ≡ (failed tenant_not_active, s)
  unfolding ◌>>=◌ throw
  inactive_refused none next s h = refl
  inactive_refused (some t) next s h = rw h refl

  exchange_for-inactive :
      (e : EnrollmentRecord) (s : System W)
      → active_tenant (tenant_by_id s.db e.row.tenant_id) ≡ false
      → exchange_for env config e s ≡ (failed tenant_not_active, s)
  unfolding query ◌>>=◌
  exchange_for-inactive e s = inactive_refused (tenant_by_id s.db e.row.tenant_id) _ s

  -- A token that no enrollment has, or whose enrollment is used, revoked or expired, or belongs to a
  -- tenant that is not active, is refused with the error for that, and the refusal changes nothing.
  pub exchange_refused :
      (token : Text) (s : System W) (f : Failure)
      → refusal s.now s.db (holder env token s.db) ≡ some f
      → exchange env config token s ≡ (failed f, s)
  unfolding exchange exchange_in ◌>>=◌ execute throw transaction rolled_back
  exchange_refused token s f = locked (holder env token s.db)
    where
      locked :
          (o : Option Enrollment)
          → refusal s.now s.db o ≡ some f
          → concluded s (exchange_locked env config (joined_row s.now s.db o) s) ≡ (failed f, s)
      locked none h = cc
      locked (some e) h =
          refused_by_guards s f e.used_at e.revoked_at _ _ _
            (exchange_for-inactive (join_enrollment s.now s.db e) s) h
