-- ===== src/SupportAccess/Tests.antt =====
-- Support access on concrete inputs.
use multi_tenant_cloud_obser.Base.{◌≡◌, refl, false, none, some, codes, any, Memᴰ, arith, ◌⊎◌, ◌==◌}
use multi_tenant_cloud_obser.Base.Tables.{count}
use multi_tenant_cloud_obser.Outbox.{Key, user, grafana}
use multi_tenant_cloud_obser.Store.Announced.{Waits}
use multi_tenant_cloud_obser.Keycloak.Sample.{system, database, acme, admin, grant}
use multi_tenant_cloud_obser.SupportAccess.{is_claimable, end_open_for_tenant}
use multi_tenant_cloud_obser.SupportAccess.Service.{GrantDto, revoke, sweep_expired}
use multi_tenant_cloud_obser.SupportAccess.Sound.{IsSound, Sound, grants-Sound}
use multi_tenant_cloud_obser.SupportAccess.Sweep.{sweep_complete, sweep-announces}

abbrev request : GrantDto
request = record { reason = codes "TICKET-7 slow"; role = none; minutes = some 30 }

sample_Sound : Sound database
unfolding IsSound
sample_Sound = (refl, tt)

grants-Sound_example :
    Sound (multi_tenant_cloud_obser.SupportAccess.Service.grant 240 admin acme request system).1.db
    × Sound (revoke admin acme (some 8) system).1.db
    × Sound (sweep_expired (λ id. false) false system).1.db
    × Sound (end_open_for_tenant 1 (codes "root") 100 system.db).1
grants-Sound_example =
    grants-Sound 240 admin acme request (some 8) (λ id. false) false 1 100 (codes "root") system
      sample_Sound

abbrev announced : Key
announced = record { target = grafana; aggregate_type = user; aggregate_id = 2 }

sweep_complete_example :
    (any (is_claimable (λ id. false) 100) (sweep_expired (λ id. false) false system).1.db.grants
      ≡ false)
    × Waits announced (sweep_expired (λ id. false) false system).1.db
unfolding count
sweep_complete_example =
    sweep_complete (λ id. false) system grant (omega arith) (Memᴰ.head refl) refl

-- Another replica holds the row.
sweep-announces_example :
    Memᴰ grant (sweep_expired (λ id. id == 8) false system).1.db.grants
    ⊎ Waits announced (sweep_expired (λ id. id == 8) false system).1.db
sweep-announces_example = sweep-announces (λ id. id == 8) system grant (Memᴰ.head refl)
