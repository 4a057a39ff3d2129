-- ===== src/Outbox/NoLoss.antt =====
-- No change is lost: whenever no row of a key waits, its mirror has seen the last change.
use multi_tenant_cloud_obser.Base.{
  ℕ, ◌≤◌, ◌≡◌, refl, ◌∙◌, sym, subst, Bool, true, false, List, ◌∷◌, arith, if◌then◌else◌, any,
  Bool-cases, inl, inr, Memᴰ, All-mem, All-mono,
}
use multi_tenant_cloud_obser.Base.Tables.{select, update, All-update, All-select}
use multi_tenant_cloud_obser.Outbox.{
  Key, Outbox, enqueue_one, claim, mark_done, mark_failed, purge_processed, conflicts,
}
use multi_tenant_cloud_obser.Outbox.Core.{
  Core, cores, blocks, matches, close, is_kept, key_eq_sound, key_eq_refl, cores-enqueue_one,
  next_id-enqueue_one, next_id-mark_done, cores-mark_done, cores-mark_failed, cores-purge_processed,
  any-conflicts, cores-claim_rows,
}
use multi_tenant_cloud_obser.Outbox.Invariant.{
  Ids-update, Ids-select, any-update_lost, any-select_same,
}
use multi_tenant_cloud_obser.Outbox.History.{claim_rows-Origin, claim-IsSafe}
use multi_tenant_cloud_obser.Outbox.Safe.{Knows, Tracks, IsSafe, request-IsSafe, push-IsSafe}
use multi_tenant_cloud_obser.Outbox.Steps.{
  Job, System, Step, enqueues, claims, syncs, finishes, fails, purges, Reach, here, next, start,
  count_change, catch_up, after_claim,
}

module _ (cs : List Core) (n : ℕ) (changes mirrored : Key → ℕ) (jobs : List Job)
    (s : IsSafe cs n changes mirrored jobs) where
  catch_up-ge : (k i : Key) → mirrored i ≤ catch_up k changes mirrored i
  catch_up-ge k i = ground (arith, s.behind i)

  sync-IsSafe :
      (j : Job)
      → Memᴰ j jobs
      → IsSafe cs n changes
          (catch_up j.event.key changes mirrored)
          (record j { synced = true } ∷ jobs)
  sync-IsSafe j m = record {
    ids = s.ids;
    settled = λ i idle. ground (arith, s.settled i idle);
    behind = λ i. ground (arith, s.behind i);
    tracked = (now_synced, All-mono _ _ jobs tracks s.tracked);
  }
    where
      tracks :
          (i : Job)
          → Tracks cs n changes mirrored i
          → Tracks cs n changes (catch_up j.event.key changes mirrored) i
      tracks i t = record {
        older = t.older;
        rows = t.rows;
        seen_le = t.seen_le;
        mirrored_ge = λ h. omega (arith, t.mirrored_ge h, catch_up-ge j.event.key i.event.key);
      }

      now_synced :
          Tracks cs n changes (catch_up j.event.key changes mirrored) (record j { synced = true })
      now_synced =
          let t = All-mem _ jobs j s.tracked m in
          record {
            older = t.older;
            rows = t.rows;
            seen_le = t.seen_le;
            mirrored_ge = λ h. rw (key_eq_refl j.event.key) t.seen_le;
          }

  close-IsSafe :
      (now : ℕ) (j : Job)
      → Memᴰ j jobs
      → j.synced ≡ true
      → IsSafe (update (matches j.event) (close now) cs) n changes mirrored jobs
  close-IsSafe now j m synced = record {
    ids = Ids-update (matches j.event) (close now) 0 n cs (λ c. refl) s.ids;
    settled = λ i idle. elim (Bool-cases (any (blocks i) cs)) [
      | inr before ↦ s.settled i before
      | inl waited ↦
          let t = All-mem _ jobs j s.tracked m in
          let (c, cm, waits, matched) =
            any-update_lost (blocks i) (matches j.event) (close now) cs waited idle in
          let (key, le, unchanged) = All-mem _ cs c t.rows cm (ground arith) in
          let same : c.key ≡ i = key_eq_sound c.key i (ground arith) in
          let latest : changes i ≡ j.seen =
            subst (λ (k : Key). changes k ≡ j.seen) same
              (unchanged (ground arith) (ground arith)) in
          let reached : j.seen ≤ mirrored i =
            subst (λ (k : Key). j.seen ≤ mirrored k) (sym key ∙ same) (t.mirrored_ge synced) in
          omega (arith, s.behind i)
    ];
    behind = s.behind;
    tracked = All-mono _ _ jobs tracks s.tracked;
  }
    where
      closed :
          (i : Job) (c : Core)
          → Knows changes i c
          → Knows changes i (if matches j.event c then close now c else c)
      closed i c h = elim (Bool-cases (matches j.event c)) [
        | inl hit ↦ rw hit λ e. let (key, le, unchanged) = h e in (key, le, λ w q. cc)
        | inr miss ↦ rw miss h
      ]

      tracks :
          (i : Job)
          → Tracks cs n changes mirrored i
          → Tracks (update (matches j.event) (close now) cs) n changes mirrored i
      tracks i t = record {
        older = t.older;
        rows = All-update _ _ (matches j.event) (close now) cs (closed i) t.rows;
        seen_le = t.seen_le;
        mirrored_ge = t.mirrored_ge;
      }

  purge-IsSafe : (now : ℕ) → IsSafe (select (is_kept now) cs) n changes mirrored jobs
  purge-IsSafe now = record {
    ids = Ids-select (is_kept now) 0 n cs s.ids;
    settled = λ i idle.
        s.settled i
          (sym (any-select_same (blocks i) (is_kept now) cs (λ c. dropped now i c)) ∙ idle);
    behind = s.behind;
    tracked =
        All-mono _ _ jobs
          (λ j t. record {
            older = t.older;
            rows = All-select _ (is_kept now) cs t.rows;
            seen_le = t.seen_le;
            mirrored_ge = t.mirrored_ge;
          })
          s.tracked;
  }
    where
      dropped : (now : ℕ) (i : Key) (c : Core) → is_kept now c ≡ false → blocks i c ≡ false
      dropped now i c h = ground arith

abbrev pub Inv : System → Type 0
Inv s = IsSafe (cores s.outbox.rows) s.outbox.next_id s.changes s.mirrored s.jobs

enqueue-Inv :
    (now : ℕ) (k : Key) (o : Outbox) (changes mirrored : Key → ℕ) (jobs : List Job)
    → IsSafe (cores o.rows) o.next_id changes mirrored jobs
    → IsSafe
        (cores (enqueue_one now k o).rows)
        (enqueue_one now k o).next_id
        (count_change k changes)
        mirrored
        jobs
enqueue-Inv now k o changes mirrored jobs s =
    rw (cores-enqueue_one now k o, next_id-enqueue_one now k o)
      (elim (Bool-cases (any (blocks k) (cores o.rows))) [
        | inl waits ↦ rw waits (request-IsSafe k _ _ _ _ jobs s waits)
        | inr idle ↦ rw idle (push-IsSafe k _ _ _ _ jobs s _ refl refl refl idle)
      ])

-- A step that leaves the cores alone.
same-cores :
    (cs cs' : List Core) (n : ℕ) (changes mirrored : Key → ℕ) (jobs : List Job)
    → cs' ≡ cs
    → IsSafe cs n changes mirrored jobs
    → IsSafe cs' n changes mirrored jobs
same-cores cs cs' n changes mirrored jobs e s = rw e s

claim-Inv :
    (held : ℕ → Bool) (now limit : ℕ) (s : System) → Inv s → Inv (after_claim held now limit s)
unfolding claim
claim-Inv held now limit s v =
    same-cores (cores s.outbox.rows) _ s.outbox.next_id s.changes s.mirrored _
      (cores-claim_rows held now limit s.outbox.rows)
      (claim-IsSafe _ _ _ _ _ v _ (claim_rows-Origin held now limit s.outbox.rows))

finish-Inv :
    (now : ℕ) (j : Job) (s : System)
    → Memᴰ j s.jobs
    → j.synced ≡ true
    → Inv s
    → Inv (record s { outbox = (mark_done now j.event s.outbox).0 })
finish-Inv now j s m synced v =
    rw (cores-mark_done now j.event s.outbox, next_id-mark_done now j.event s.outbox)
      (elim (Bool-cases (any (matches j.event) (cores s.outbox.rows))) [
        | inl hit ↦ rw hit (close-IsSafe _ _ _ _ _ v now j m synced)
        | inr miss ↦ rw miss v
      ])

pub Step-Inv : {s t : System} → Step s t → Inv s → Inv t
unfolding mark_failed purge_processed
Step-Inv {s} (enqueues now k) v = enqueue-Inv now k s.outbox s.changes s.mirrored s.jobs v
Step-Inv {s} (claims held now limit) v = claim-Inv held now limit s v
Step-Inv {s} (syncs j m) v = sync-IsSafe _ _ _ _ _ v j m
Step-Inv {s} (finishes now j m synced) v = finish-Inv now j s m synced v
Step-Inv {s} (fails now error j m) v =
    same-cores _ _ _ _ _ _ (cores-mark_failed now j.event error s.outbox) v
Step-Inv {s} (purges now) v =
    same-cores _ _ _ _ _ _ (cores-purge_processed now s.outbox) (purge-IsSafe _ _ _ _ _ v now)

start-Inv : Inv start
unfolding any
start-Inv = record {
  ids = omega arith;
  settled = λ k h. refl;
  behind = λ k. omega arith;
  tracked = tt;
}

pub Reach-Inv : {s : System} → Reach start s → Inv s
Reach-Inv here = start-Inv
Reach-Inv (next r st) = Step-Inv st (Reach-Inv r)

-- In every state that workers and business transactions reach from the empty outbox, in whatever
-- order their steps come and whatever crashes, fails or outlives its lease: a key for which no row
-- waits has had all its changes seen by a sync of its mirror.
pub no_lost_change :
    {s : System} (k : Key)
    → Reach start s
    → any (conflicts k) s.outbox.rows ≡ false
    → s.mirrored k ≡ s.changes k
no_lost_change {s} k r idle = (Reach-Inv r).settled k (sym (any-conflicts k s.outbox.rows) ∙ idle)
