-- ===== src/Tenants/Numbers.antt =====
-- modules/tenants: the keys of tenants and their accounts in VictoriaMetrics, which separate the metrics of
-- the tenants, over time.
use multi_tenant_cloud_obser.Base.{
  ℕ, ◌<◌, ◌≤◌, ◌≡◌, ◌≢◌, false, List, [], ◌∷◌, map, All, Text, text_eq,
}
use multi_tenant_cloud_obser.Outbox.{Outbox}
use multi_tenant_cloud_obser.Store.{Database, Tenant}
use multi_tenant_cloud_obser.Store.Keeps.{Keeps}

-- The key and the account of a tenant.
abbrev pub Number : Type 0
Number = Text × ℕ

abbrev pub number : Tenant → Number
number t = (t.tenant_key, t.vm_account_id)

abbrev pub IsOther : Number → Number → Type 0
IsOther (key, account) (key', account') = (text_eq key key' ≡ false) × (account ≢ account')

abbrev pub Distinct : List Number → Type 0
Distinct [] = Unit
Distinct (n ∷ ns) = All (λ m. IsOther m n) ns × Distinct ns

-- No two tenants, of any status, have the same key or the same account, and no account is ahead of the
-- sequence.
unfoldable pub Numbered : Database → Type 0
Numbered db =
    Distinct (map number db.tenants)
    × All (λ (n : Number). n.1 < db.next_account) (map number db.tenants)

-- What a transaction keeps, also when it is rolled back: the sequence does not go back.
abbrev From : ℕ → Database → Type 0
From n db = Numbered db × (n ≤ db.next_account)
