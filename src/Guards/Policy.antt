-- ===== src/Guards/Policy.antt =====
-- modules/users/users.policy.ts: who creates and manages whom.
use multi_tenant_cloud_obser.Base.{ℕ, ◌<◌, ◌≡◌, ◌↔◌, refl, ◌&&◌, arith, if◌then◌else◌}
use multi_tenant_cloud_obser.Guards.{
  Role, platform_admin, tenant_admin, viewer, role_eq, Actor, UserRecord, Denial, Decision, denied,
  allowed, assert_can_create_user, assert_can_manage_user,
}

-- The order of the roles.
abbrev pub rank : Role → ℕ
rank platform_admin = 2
rank tenant_admin = 1
rank viewer = 0

abbrev by_role : Role → Role → Decision (Unit {0})
by_role mine other =
    if role_eq other platform_admin
    then denied Denial.forbidden
    else if role_eq mine platform_admin
    then allowed tt
    else if role_eq mine tenant_admin && role_eq other viewer
    then allowed tt
    else denied Denial.forbidden

by_rank : (mine other : Role) → (by_role mine other ≡ allowed tt) ↔ (rank other < rank mine)
by_rank platform_admin platform_admin = ((λ h. cc), λ h. absurd (omega arith))
by_rank platform_admin tenant_admin = ((λ h. omega arith), λ h. refl)
by_rank platform_admin viewer = ((λ h. omega arith), λ h. refl)
by_rank tenant_admin platform_admin = ((λ h. cc), λ h. absurd (omega arith))
by_rank tenant_admin tenant_admin = ((λ h. cc), λ h. absurd (omega arith))
by_rank tenant_admin viewer = ((λ h. omega arith), λ h. refl)
by_rank viewer platform_admin = ((λ h. cc), λ h. absurd (omega arith))
by_rank viewer tenant_admin = ((λ h. cc), λ h. absurd (omega arith))
by_rank viewer viewer = ((λ h. cc), λ h. absurd (omega arith))

-- Users are created and managed from above: each operation is allowed exactly to the actors whose role
-- ranks above the role of the user.
pub policy_iff :
    (actor : Actor) (role : Role) (target : UserRecord)
    → ((assert_can_create_user actor role ≡ allowed tt) ↔ (rank role < rank actor.role))
      × ((assert_can_manage_user actor target ≡ allowed tt) ↔ (rank target.role < rank actor.role))
unfolding assert_can_create_user assert_can_manage_user
policy_iff actor role target = (by_rank actor.role role, by_rank actor.role target.role)
