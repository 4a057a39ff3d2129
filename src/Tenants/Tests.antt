-- ===== src/Tenants/Tests.antt =====
-- Tenants on concrete inputs.
use multi_tenant_cloud_obser.Base.{ℕ, ◌≡◌, refl, List, codes, any, text_eq, Memᴰ}
use multi_tenant_cloud_obser.Outbox.{Key, user, keycloak, mirror_targets}
use multi_tenant_cloud_obser.Store.{
  Tenant, deleted, done, transaction, rolled_back, execute, found_or, throw, give, call, when,
  attempt, ◌>>=◌, ◌>>◌,
}
use multi_tenant_cloud_obser.Store.Announced.{Waits}
use multi_tenant_cloud_obser.Keycloak.{property}
use multi_tenant_cloud_obser.Keycloak.Sample.{env, system, acme, admin, ann}
use multi_tenant_cloud_obser.Tenants.{insert_active, set_keycloak_group_id}
use multi_tenant_cloud_obser.Tenants.Service.{create_tenant, delete_tenant}
use multi_tenant_cloud_obser.Tenants.Mirror.{owned_group, apply_tenant}
use multi_tenant_cloud_obser.Tenants.Cascade.{Gone, of_user, deletion-Gone, deletion-Waits}

abbrev platform : List ℕ
platform = codes "admin-tenant"

deletion-Gone_example :
    ((delete_tenant platform admin acme system).0 ≡ done tt)
    × Gone 1 (delete_tenant platform admin acme system).1.db
unfolding text_eq
deletion-Gone_example = deletion-Gone platform admin acme system refl

abbrev ann_key : Key
ann_key = record { target = keycloak; aggregate_type = user; aggregate_id = 2 }

deletion-Waits_example : Waits ann_key (delete_tenant platform admin acme system).1.db
unfolding text_eq mirror_targets
deletion-Waits_example =
    deletion-Waits platform admin acme system ann_key refl
      (of_user {u = ann} (Memᴰ.head refl) refl (Memᴰ.head refl))

abbrev ended : Tenant
ended = record acme { status = deleted }

removed_sample : (apply_tenant env ended system).1.world ≡ 1
unfolding apply_tenant owned_group call give ◌>>=◌ ◌>>◌ property text_eq when attempt
    set_keycloak_group_id any
removed_sample = refl

-- A key that is refused uses up an account.
refused_draws : (create_tenant env (codes "acme") system).1.db.next_account ≡ 7
unfolding create_tenant insert_active transaction rolled_back execute found_or throw ◌>>=◌ any
    text_eq
refused_draws = refl
