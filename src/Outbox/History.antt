-- ===== src/Outbox/History.antt =====
-- What the workers' steps do to the invariant: claims, syncs, finished events and purges.
use multi_tenant_cloud_obser.Base.{
  ℕ, suc, ◌-◌, ◌≤◌, ◌<◌, ◌≡◌, refl, ap, ◌∙◌, sym, Bool, false, not, ◌&&◌, List, [], ◌∷◌, ◌++◌,
  arith, ltb, Bool-cases, inl, inr, Memᴰ, All, All-of-mem, All-mono, All-append,
}
use multi_tenant_cloud_obser.Outbox.{Key, Row, Event, claim_rows, is_due}
use multi_tenant_cloud_obser.Outbox.Core.{Core, core, cores}
use multi_tenant_cloud_obser.Outbox.Invariant.{Ids}
use multi_tenant_cloud_obser.Outbox.Safe.{Tracks, IsSafe}
use multi_tenant_cloud_obser.Outbox.Steps.{Job, take_on}

pub Ids-above : (lo hi : ℕ) (cs : List Core) (c : Core) → Ids lo cs hi → Memᴰ c cs → lo ≤ c.id
Ids-above lo hi [] c i m = elim m [ ]
Ids-above lo hi (x ∷ cs) c i (Memᴰ.head e) = rw e i.0
Ids-above lo hi (x ∷ cs) c i (Memᴰ.tail m) = omega (arith, i.0, Ids-above (suc x.id) hi cs c i.1 m)

pub Ids-below : (lo hi : ℕ) (cs : List Core) (c : Core) → Ids lo cs hi → Memᴰ c cs → c.id < hi
Ids-below lo hi [] c i m = elim m [ ]
Ids-below lo hi (x ∷ cs) c i (Memᴰ.head e) = rw e (Ids-le (suc x.id) hi cs i.1)
  where
    Ids-le : (lo hi : ℕ) (cs : List Core) → Ids lo cs hi → lo ≤ hi
    Ids-le lo hi [] i = i
    Ids-le lo hi (y ∷ cs) i = omega (arith, i.0, Ids-le (suc y.id) hi cs i.1)
Ids-below lo hi (x ∷ cs) c i (Memᴰ.tail m) = Ids-below (suc x.id) hi cs c i.1 m

-- A row is known by its id.
Ids-unique :
    (lo hi : ℕ) (cs : List Core) (c d : Core)
    → Ids lo cs hi
    → Memᴰ c cs
    → Memᴰ d cs
    → c.id ≡ d.id
    → c ≡ d
Ids-unique lo hi [] c d i m n e = elim m [ ]
Ids-unique lo hi (x ∷ cs) c d i (Memᴰ.head p) (Memᴰ.head q) e = p ∙ sym q
Ids-unique lo hi (x ∷ cs) c d i (Memᴰ.head p) (Memᴰ.tail n) e =
    absurd (omega (arith, ap (λ (y : Core). y.id) p, Ids-above (suc x.id) hi cs d i.1 n))
Ids-unique lo hi (x ∷ cs) c d i (Memᴰ.tail m) (Memᴰ.head q) e =
    absurd (omega (arith, ap (λ (y : Core). y.id) q, Ids-above (suc x.id) hi cs c i.1 m))
Ids-unique lo hi (x ∷ cs) c d i (Memᴰ.tail m) (Memᴰ.tail n) e =
    Ids-unique (suc x.id) hi cs c d i.1 m n e

-- The row that an event was claimed from.
abbrev pub Origin : List Core → Event → Type 0
Origin cs e =
    (c : Core) × Memᴰ c cs × (c.id ≡ e.id) × (c.key ≡ e.key) × (c.requested_seq ≡ e.claimed_seq)

pub claim_rows-Origin :
    (held : ℕ → Bool) (now limit : ℕ) (rows : List Row)
    → All (Origin (cores rows)) (claim_rows held now limit rows).1
unfolding claim_rows
claim_rows-Origin held now limit [] = tt
claim_rows-Origin held now limit (r ∷ rows) =
    elim (Bool-cases (is_due now r && (not (held r.id) && ltb 0 limit))) [
      | inl hit ↦ rw hit (
        (core r, Memᴰ.head refl, refl, refl, refl),
        All-mono _ _ _ later (claim_rows-Origin held now (limit - 1) rows),
      )
      | inr miss ↦ rw miss (All-mono _ _ _ later (claim_rows-Origin held now limit rows))
    ]
  where
    later : (e : Event) → Origin (cores rows) e → Origin (cores (r ∷ rows)) e
    later e (c, m, id, key, seq) = (c, Memᴰ.tail m, id, key, seq)

module _ (cs : List Core) (n : ℕ) (changes mirrored : Key → ℕ) (jobs : List Job)
    (s : IsSafe cs n changes mirrored jobs) where
  take_on-Tracks :
      (e : Event)
      → Origin cs e
      → Tracks cs n changes mirrored (record { event = e; seen = changes e.key; synced = false })
  take_on-Tracks e (c, m, id, key, seq) = record {
    older = omega (arith, Ids-below 0 n cs c s.ids m);
    rows = All-of-mem _ cs λ d dm same.
        let one : d ≡ c = Ids-unique 0 n cs d c s.ids dm m (same ∙ sym id) in
        rw one (key, omega arith, λ w q. rw key);
    seen_le = omega arith;
    mirrored_ge = λ h. cc;
  }

  pub claim-IsSafe :
      (events : List Event)
      → All (Origin cs) events
      → IsSafe cs n changes mirrored (take_on changes events ++ jobs)
  claim-IsSafe events o = record {
    ids = s.ids;
    settled = s.settled;
    behind = s.behind;
    tracked = All-append _ (take_on changes events) jobs (fresh events o) s.tracked;
  }
    where
      fresh :
          (events : List Event)
          → All (Origin cs) events
          → All (Tracks cs n changes mirrored) (take_on changes events)
      fresh [] o = tt
      fresh (e ∷ events) o = (take_on-Tracks e o.0, fresh events o.1)
