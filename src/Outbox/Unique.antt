-- ===== src/Outbox/Unique.antt =====
-- At most one row waits for a key.
use multi_tenant_cloud_obser.Base.{
  ℕ, ◌+◌, ◌≤◌, ◌≡◌, refl, Bool, true, false, List, [], ◌∷◌, arith, if◌then◌else◌, any, Bool-cases,
  inl, inr,
}
use multi_tenant_cloud_obser.Base.Tables.{select, update, count, count-map}
use multi_tenant_cloud_obser.Outbox.{Key, key_eq, conflicts}
use multi_tenant_cloud_obser.Outbox.Core.{
  Core, core, cores, blocks, request, matches, close, push, is_kept, key_eq_sound,
  cores-enqueue_one, cores-claim, cores-mark_done, cores-mark_failed, cores-purge_processed,
}
use multi_tenant_cloud_obser.Outbox.Steps.{
  System, Step, enqueues, claims, syncs, finishes, fails, purges, Reach, here, next, start,
}

abbrev waiting : Key → List Core → ℕ
waiting k = count (blocks k)

module _ (q p : Core → Bool) (f : Core → Core) where
  count-update-le :
      (cs : List Core)
      → ((c : Core) → q (f c) ≡ true → q c ≡ true)
      → count q (update p f cs) ≤ count q cs
  unfolding count update
  count-update-le [] h = omega arith
  count-update-le (c ∷ cs) h = ground (arith, h c, count-update-le cs h)

count-select-le : (q p : Core → Bool) (cs : List Core) → count q (select p cs) ≤ count q cs
unfolding count select
count-select-le q p [] = omega arith
count-select-le q p (c ∷ cs) = ground (arith, count-select-le q p cs)

count-push :
    (q : Core → Bool) (cs : List Core) (c : Core)
    → count q (push cs c) ≡ count q cs + (if q c then 1 else 0)
unfolding count push
count-push q [] c = ground arith
count-push q (x ∷ cs) c = ground (arith, count-push q cs c)

count_of_any : (q : Core → Bool) (cs : List Core) → any q cs ≡ false → count q cs ≡ 0
unfolding any count
count_of_any q [] h = refl
count_of_any q (c ∷ cs) h = ground (arith, count_of_any q cs)

abbrev IsLone : System → Type 0
IsLone s = (k : Key) → waiting k (cores s.outbox.rows) ≤ 1

push-lone :
    (k i : Key) (cs : List Core) (c : Core)
    → c.key ≡ k
    → any (blocks k) cs ≡ false
    → waiting i cs ≤ 1
    → waiting i (push cs c) ≤ 1
push-lone k i cs c e idle h = elim (Bool-cases (key_eq c.key i)) [
  | inl same ↦
      let one : c.key ≡ i = key_eq_sound c.key i same in
      let none_wait : any (blocks i) cs ≡ false = rw (← one, e) idle in
      omega (
        arith,
        count-push (blocks i) cs c,
        count_of_any (blocks i) cs none_wait,
        at_most (blocks i c),
      )
  | inr other ↦ ground (arith, count-push (blocks i) cs c)
]
  where
    at_most : (b : Bool) → (if b then 1 else 0) ≤ 1
    at_most b = ground arith

Step-IsLone : {s t : System} → Step s t → IsLone s → IsLone t
Step-IsLone {s} (enqueues now k) v i =
    rw (cores-enqueue_one now k s.outbox)
      (elim (Bool-cases (any (blocks k) (cores s.outbox.rows))) [
        | inl waits ↦ rw waits (
            omega (
              arith,
              v i,
              count-update-le (blocks i) (blocks k) request (cores s.outbox.rows) (λ c h. h),
            ))
        | inr idle ↦ rw idle (push-lone k i (cores s.outbox.rows) _ refl idle (v i))
      ])
Step-IsLone {s} (claims held now limit) v i = rw (cores-claim held now limit s.outbox) (v i)
Step-IsLone (syncs j m) v i = v i
Step-IsLone {s} (finishes now j m synced) v i =
    rw (cores-mark_done now j.event s.outbox)
      (elim (Bool-cases (any (matches j.event) (cores s.outbox.rows))) [
        | inl hit ↦ rw hit (
            omega (
              arith,
              v i,
              count-update-le (blocks i) (matches j.event) (close now) (cores s.outbox.rows)
                  (λ c h. cc),
            ))
        | inr miss ↦ rw miss (v i)
      ])
Step-IsLone {s} (fails now error j m) v i = rw (cores-mark_failed now j.event error s.outbox) (v i)
Step-IsLone {s} (purges now) v i =
    rw (cores-purge_processed now s.outbox)
      (omega (arith, v i, count-select-le (blocks i) (is_kept now) (cores s.outbox.rows)))

Reach-IsLone : {s : System} → Reach start s → IsLone s
unfolding count
Reach-IsLone here k = omega arith
Reach-IsLone (next r st) k = Step-IsLone st (Reach-IsLone r) k

-- In every state that is reached, at most one row waits for a key.
pub one_pending : {s : System} (k : Key) → Reach start s → count (conflicts k) s.outbox.rows ≤ 1
unfolding conflicts
one_pending {s} k r =
    rw (count-map core (conflicts k) (blocks k) (λ a. refl) s.outbox.rows) (Reach-IsLone r k)
