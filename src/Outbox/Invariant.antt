-- ===== src/Outbox/Invariant.antt =====
-- Facts on the cores that the invariants rest on: ids ascend, and what an enqueue, a finished event
-- and a purge do to the rows that wait for a key.
use multi_tenant_cloud_obser.Base.{
  ℕ, suc, ◌≤◌, ◌≡◌, refl, Bool, true, false, List, [], ◌∷◌, arith, if◌then◌else◌, any, Bool-cases,
  inl, inr, Memᴰ,
}
use multi_tenant_cloud_obser.Base.Tables.{select, update}
use multi_tenant_cloud_obser.Outbox.Core.{Core, push}

-- The ids ascend from `lo` on and stay below `hi`.
abbrev pub Ids : ℕ → List Core → ℕ → Type 0
Ids lo [] hi = lo ≤ hi
Ids lo (c ∷ cs) hi = (lo ≤ c.id) × Ids (suc c.id) cs hi

Ids-lower : (lo lo' hi : ℕ) (cs : List Core) → lo ≤ lo' → Ids lo' cs hi → Ids lo cs hi
Ids-lower lo lo' hi [] h i = omega arith
Ids-lower lo lo' hi (c ∷ cs) h i = (omega arith, i.1)

pub Ids-push :
    (lo hi : ℕ) (cs : List Core) (c : Core) → c.id ≡ hi → Ids lo cs hi → Ids lo (push cs c) (suc hi)
unfolding push
Ids-push lo hi [] c e i = (omega arith, omega arith)
Ids-push lo hi (x ∷ cs) c e i = (i.0, Ids-push (suc x.id) hi cs c e i.1)

pub Ids-raise : (lo hi : ℕ) (cs : List Core) → Ids lo cs hi → Ids lo cs (suc hi)
Ids-raise lo hi [] i = omega arith
Ids-raise lo hi (c ∷ cs) i = (i.0, Ids-raise (suc c.id) hi cs i.1)

pub Ids-update :
    (p : Core → Bool) (f : Core → Core) (lo hi : ℕ) (cs : List Core)
    → ((c : Core) → (f c).id ≡ c.id)
    → Ids lo cs hi
    → Ids lo (update p f cs) hi
unfolding update
Ids-update p f lo hi [] h i = i
Ids-update p f lo hi (c ∷ cs) h i = elim (Bool-cases (p c)) [
  | inl e ↦ rw (e, h c) (i.0, Ids-update p f (suc c.id) hi cs h i.1)
  | inr e ↦ rw e (i.0, Ids-update p f (suc c.id) hi cs h i.1)
]

pub Ids-select :
    (p : Core → Bool) (lo hi : ℕ) (cs : List Core) → Ids lo cs hi → Ids lo (select p cs) hi
unfolding select
Ids-select p lo hi [] i = i
Ids-select p lo hi (c ∷ cs) i = elim (Bool-cases (p c)) [
  | inl e ↦ rw e (i.0, Ids-select p (suc c.id) hi cs i.1)
  | inr e ↦
      rw e
        (Ids-lower lo (suc c.id) hi (select p cs) (omega arith) (Ids-select p (suc c.id) hi cs i.1))
]

pub any-push :
    (p : Core → Bool) (cs : List Core) (c : Core)
    → any p (push cs c) ≡ (if p c then true else any p cs)
unfolding any push
any-push p [] c = ground arith
any-push p (x ∷ cs) c = ground (arith, any-push p cs c)

-- Where an update takes the last row that passes `q` away, it has changed such a row.
pub any-update_lost :
    (q p : Core → Bool) (f : Core → Core) (cs : List Core)
    → any q cs ≡ true
    → any q (update p f cs) ≡ false
    → (c : Core) × Memᴰ c cs × (q c ≡ true) × (p c ≡ true)
unfolding any update
any-update_lost q p f [] h g = cc
any-update_lost q p f (c ∷ cs) h g = elim (Bool-cases (p c)) [
  | inl e ↦ elim (Bool-cases (q c)) [
    | inl hit ↦ (c, Memᴰ.head refl, hit, e)
    | inr miss ↦
        let (d, m, hit, gone) = any-update_lost q p f cs (ground arith) (ground arith) in
        (d, Memᴰ.tail m, hit, gone)
  ]
  | inr e ↦
      let (d, m, hit, gone) = any-update_lost q p f cs (ground arith) (ground arith) in
      (d, Memᴰ.tail m, hit, gone)
]

-- Updates that keep the answer of a test, row by row.
pub any-update_same :
    (q p : Core → Bool) (f : Core → Core) (cs : List Core)
    → ((c : Core) → p c ≡ true → q (f c) ≡ q c)
    → any q (update p f cs) ≡ any q cs
unfolding any update
any-update_same q p f [] h = refl
any-update_same q p f (c ∷ cs) h = ground (arith, h c, any-update_same q p f cs h)

pub any-select_same :
    (q p : Core → Bool) (cs : List Core)
    → ((c : Core) → p c ≡ false → q c ≡ false)
    → any q (select p cs) ≡ any q cs
unfolding any select
any-select_same q p [] h = refl
any-select_same q p (c ∷ cs) h = ground (arith, h c, any-select_same q p cs h)
