-- ===== src/Outbox/Safe.antt =====
-- The invariant behind it that no change is lost, on the cores, and that an enqueue keeps it.
use multi_tenant_cloud_obser.Base.{
  ℕ, suc, ◌≤◌, ◌<◌, ◌≡◌, refl, ◌∙◌, sym, subst, true, false, List, [], ◌∷◌, arith, if◌then◌else◌,
  any, Bool-cases, inl, inr, All, All-mono,
}
use multi_tenant_cloud_obser.Base.Tables.{update, All-update}
use multi_tenant_cloud_obser.Outbox.{Key, key_eq}
use multi_tenant_cloud_obser.Outbox.Core.{
  Core, blocks, request, push, is_waiting, key_eq_sound, key_eq_refl,
}
use multi_tenant_cloud_obser.Outbox.Invariant.{
  Ids, Ids-push, Ids-raise, Ids-update, any-push, any-update_same,
}
use multi_tenant_cloud_obser.Outbox.Steps.{Job, count_change}

-- What a job knows of the row that it was claimed from: if nothing was requested since and the row
-- still waits, nothing has changed since.
abbrev pub Knows : (Key → ℕ) → Job → Core → Type 0
Knows changes j c =
    c.id ≡ j.event.id
    → (c.key ≡ j.event.key)
      × (j.event.claimed_seq ≤ c.requested_seq)
      × (is_waiting c ≡ true → c.requested_seq ≡ j.event.claimed_seq → changes c.key ≡ j.seen)

pub record Tracks (cs : List Core) (next_id : ℕ) (changes mirrored : Key → ℕ) (j : Job)
    : Type 0 where
  pub older : j.event.id < next_id
  pub rows : All (Knows changes j) cs
  pub seen_le : j.seen ≤ changes j.event.key
  pub mirrored_ge : j.synced ≡ true → j.seen ≤ mirrored j.event.key

pub record IsSafe (cs : List Core) (next_id : ℕ) (changes mirrored : Key → ℕ) (jobs : List Job)
    : Type 0 where
  pub ids : Ids 0 cs next_id
  pub settled : (k : Key) → any (blocks k) cs ≡ false → mirrored k ≡ changes k
  pub behind : (k : Key) → mirrored k ≤ changes k
  pub tracked : All (Tracks cs next_id changes mirrored) jobs

module _ (k : Key) (changes : Key → ℕ) where
  -- A row that does not wait for `k` is none of the change's business.
  push-Knows :
      (j : Job) (c : Core)
      → blocks k c ≡ false
      → Knows changes j c
      → Knows (count_change k changes) j c
  push-Knows j c b h e =
      let (same, le, unchanged) = h e in
      (
        same,
        le,
        λ w q. let other : key_eq c.key k ≡ false = ground arith in rw other (unchanged w q),
      )

  request-Knows :
      (j : Job) (c : Core)
      → Knows changes j c
      → Knows (count_change k changes) j (if blocks k c then request c else c)
  request-Knows j c h = elim (Bool-cases (blocks k c)) [
    | inl hit ↦
        rw hit
          λ e. let (same, le, unchanged) = h e in (same, omega arith, λ w q. absurd (omega arith))
    | inr miss ↦ rw miss (push-Knows j c miss h)
  ]

  count_change-ge : (j : Key) → changes j ≤ count_change k changes j
  count_change-ge j = ground arith

  fresh-Knows : (j : Job) (c : Core) → j.event.id < c.id → Knows (count_change k changes) j c
  fresh-Knows j c h e = absurd (omega arith)

Knows-push :
    (changes : Key → ℕ) (j : Job) (cs : List Core) (c : Core)
    → All (Knows changes j) cs
    → Knows changes j c
    → All (Knows changes j) (push cs c)
unfolding push
Knows-push changes j [] c h k = (k, tt)
Knows-push changes j (x ∷ cs) c h k = (h.0, Knows-push changes j cs c h.1 k)

All-push-Knows :
    (k : Key) (changes : Key → ℕ) (j : Job) (cs : List Core)
    → any (blocks k) cs ≡ false
    → All (Knows changes j) cs
    → All (Knows (count_change k changes) j) cs
unfolding any
All-push-Knows k changes j [] none_wait h = tt
All-push-Knows k changes j (c ∷ cs) none_wait (h, hs) =
    (push-Knows k changes j c (ground arith) h, All-push-Knows k changes j cs (ground arith) hs)

-- A key that nothing waits for after an enqueue of `k` is another key.
settled_other :
    (k i : Key) (changes : Key → ℕ) (m : ℕ)
    → (i ≡ k → ⊥)
    → m ≡ changes i
    → m ≡ count_change k changes i
settled_other k i changes m ne e = ground (arith, key_eq_sound i k)

module _ (k : Key) (cs : List Core) (n : ℕ) (changes mirrored : Key → ℕ) (jobs : List Job)
    (s : IsSafe cs n changes mirrored jobs) where
  pub request-IsSafe :
      any (blocks k) cs ≡ true
      → IsSafe (update (blocks k) request cs) (suc n) (count_change k changes) mirrored jobs
  request-IsSafe some_wait = record {
    ids = Ids-update (blocks k) request 0 (suc n) cs (λ c. refl) (Ids-raise 0 n cs s.ids);
    settled = λ i idle.
        let before : any (blocks i) cs ≡ false =
          sym (any-update_same (blocks i) (blocks k) request cs (λ c _. refl)) ∙ idle in
        settled_other k i changes (mirrored i)
          (λ same. cc (subst (λ (x : Key). any (blocks x) cs ≡ false) same before, some_wait))
          (s.settled i before);
    behind = λ i. omega (arith, s.behind i, count_change-ge k changes i);
    tracked = All-mono _ _ jobs tracks s.tracked;
  }
    where
      tracks :
          (j : Job)
          → Tracks cs n changes mirrored j
          → Tracks (update (blocks k) request cs) (suc n) (count_change k changes) mirrored j
      tracks j t = record {
        older = omega (arith, t.older);
        rows = All-update _ _ (blocks k) request cs (request-Knows k changes j) t.rows;
        seen_le = omega (arith, t.seen_le, count_change-ge k changes j.event.key);
        mirrored_ge = t.mirrored_ge;
      }

  pub push-IsSafe :
      (c : Core)
      → c.id ≡ n
      → c.key ≡ k
      → is_waiting c ≡ true
      → any (blocks k) cs ≡ false
      → IsSafe (push cs c) (suc n) (count_change k changes) mirrored jobs
  push-IsSafe c id key w none_wait = record {
    ids = Ids-push 0 n cs c id s.ids;
    settled = λ i idle.
        let split : (if blocks i c then true else any (blocks i) cs) ≡ false =
          sym (any-push (blocks i) cs c) ∙ idle in
        settled_other k i changes (mirrored i) (λ same. ground (arith, key_eq_refl k))
          (s.settled i (ground arith));
    behind = λ i. omega (arith, s.behind i, count_change-ge k changes i);
    tracked = All-mono _ _ jobs tracks s.tracked;
  }
    where
      tracks :
          (j : Job)
          → Tracks cs n changes mirrored j
          → Tracks (push cs c) (suc n) (count_change k changes) mirrored j
      tracks j t = record {
        older = omega (arith, t.older);
        rows =
            Knows-push (count_change k changes) j cs c
              (All-push-Knows k changes j cs none_wait t.rows)
              (fresh-Knows k changes j c (omega (arith, t.older)));
        seen_le = omega (arith, t.seen_le, count_change-ge k changes j.event.key);
        mirrored_ge = t.mirrored_ge;
      }
