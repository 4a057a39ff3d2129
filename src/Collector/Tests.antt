-- ===== src/Collector/Tests.antt =====
-- The collector on concrete inputs.
use multi_tenant_cloud_obser.Base.{ℕ, ◌≡◌, ◌<◌, ◌+◌, subst, arith, some, [], ◌∷◌, codes, text_eq}
use mathlib.Core.Option.{some-injective}
use multi_tenant_cloud_obser.Store.{done}
use multi_tenant_cloud_obser.Keycloak.{property}
use multi_tenant_cloud_obser.Keycloak.Sample.{system, client}
use multi_tenant_cloud_obser.Collector.{Orphan, Seen, collect}
use multi_tenant_cloud_obser.Collector.Spares.{collect-spares}

abbrev orphan : Orphan ℕ
orphan = record { key = codes "user:u"; remove = client.delete_user (codes "u") }

-- First seen a minute before.
abbrev seen : Seen
seen = (codes "user:u", 40000) ∷ []

collect-spares_example :
    ((collect 100000 (orphan ∷ []) seen system).0 ≡ done (record { deleted = 0; pending = 1 }))
    × ((collect 100000 (orphan ∷ []) seen system).1.1 ≡ system)
unfolding property text_eq
collect-spares_example = collect-spares 100000 (orphan ∷ []) seen system ((λ at h. just at h), tt)
  where
    just : (at : ℕ) → some 40000 ≡ some at → 100000 < at + 120000
    just at h = subst (λ n. 100000 < n + 120000) (some-injective _ _ h) (omega arith)
