-- ===== src/Store/Announced.antt =====
-- The events that a transaction of the control plane announces.
use multi_tenant_cloud_obser.Base.{ℕ, ◌≡◌, refl, sym, subst, List, [], ◌∷◌, Memᴰ}
use multi_tenant_cloud_obser.Outbox.{Key, Aggregate, Target}
use multi_tenant_cloud_obser.Outbox.Announced.{Announced, Announced-enqueue, enqueue-Announced}
use multi_tenant_cloud_obser.Store.{
  Database, System, done, enqueue_event, enqueue_all, execute, give, ◌>>=◌, ◌>>◌,
}
use multi_tenant_cloud_obser.Store.Keeps.{Keeps, Keeps-then, Keeps-write, Keeps-give}

abbrev pub Waits : Key → Database → Type 0
Waits k db = Announced k db.outbox

pub Waits-enqueue_event :
    {W : Type 0} (k : Key) (a : Aggregate) (id : ℕ) (ts : List Target)
    → Keeps {W = W} (Waits k) (enqueue_event a id ts)
unfolding enqueue_event
Waits-enqueue_event k a id ts = Keeps-write _ (λ now db. Announced-enqueue now a id ts k db.outbox)

pub Waits-enqueue_all :
    {W : Type 0} (k : Key) (a : Aggregate) (ids : List ℕ) (ts : List Target)
    → Keeps {W = W} (Waits k) (enqueue_all a ids ts)
unfolding enqueue_all
Waits-enqueue_all k a [] ts = Keeps-give tt
Waits-enqueue_all k a (id ∷ ids) ts =
    Keeps-then (Waits-enqueue_event k a id ts) (Waits-enqueue_all k a ids ts)

pub enqueue_event-Waits :
    {W : Type 0} (a : Aggregate) (id : ℕ) (ts : List Target) (t : Target) (s : System W)
    → Memᴰ t ts
    → Waits
        (record { target = t; aggregate_type = a; aggregate_id = id })
        (enqueue_event a id ts s).1.db
unfolding enqueue_event execute
enqueue_event-Waits a id ts t s m = enqueue-Announced s.now a id ts t s.db.outbox m

-- The loop leaves an event of each of its ids for each target.
pub enqueue_all-Waits :
    {W : Type 0} (a : Aggregate) (ids : List ℕ) (ts : List Target) (id : ℕ) (t : Target)
    (s : System W)
    → Memᴰ id ids
    → Memᴰ t ts
    → Waits
        (record { target = t; aggregate_type = a; aggregate_id = id })
        (enqueue_all a ids ts s).1.db
unfolding enqueue_all ◌>>◌ ◌>>=◌ enqueue_event execute
enqueue_all-Waits a [] ts id t s m n = elim m [ ]
enqueue_all-Waits a (x ∷ ids) ts id t s (Memᴰ.tail m) n = enqueue_all-Waits a ids ts id t _ m n
enqueue_all-Waits a (x ∷ ids) ts id t s (Memᴰ.head e) n = (Waits-enqueue_all _ a ids ts).kept _ (
    subst
      (λ y.
        Waits (record { target = t; aggregate_type = a; aggregate_id = y })
          (enqueue_event a x ts s).1.db)
      (sym e) (enqueue_event-Waits a x ts t s n))

pub enqueue_all_succeeds :
    {W : Type 0} (a : Aggregate) (ids : List ℕ) (ts : List Target) (s : System W)
    → (enqueue_all a ids ts s).0 ≡ done tt
unfolding enqueue_all ◌>>◌ ◌>>=◌ enqueue_event execute give
enqueue_all_succeeds a [] ts s = refl
enqueue_all_succeeds a (id ∷ ids) ts s = enqueue_all_succeeds a ids ts _
