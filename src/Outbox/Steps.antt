-- ===== src/Outbox/Steps.antt =====
-- The outbox under any number of workers and business transactions, as interleaved atomic steps.
-- `changes` counts the changes that were enqueued for a key, and `mirrored` is the number of them
-- that the last sync of the key's mirror handler had seen: it reads the current row. A job is a
-- claimed event in the hands of some worker, with the changes that had been made when it was claimed.
-- Jobs are never taken out: a worker may stall and go on after its lease has run out, and a job that
-- nobody goes on with is a worker that crashed.
use multi_tenant_cloud_obser.Base.{
  ℕ, ◌+◌, ◌≡◌, Bool, true, false, List, [], ◌∷◌, ◌++◌, map, if◌then◌else◌, Text, Memᴰ,
}
use multi_tenant_cloud_obser.Outbox.{
  Key, key_eq, Outbox, Event, enqueue_one, claim, mark_done, mark_failed, purge_processed,
}

pub record Job : Type 0 where
  pub event : Event
  pub seen : ℕ
  pub synced : Bool

pub record System : Type 0 where
  pub outbox : Outbox
  pub changes : Key → ℕ
  pub mirrored : Key → ℕ
  pub jobs : List Job

abbrev pub start : System
start = record {
  outbox = record { rows = []; next_id = 1 };
  changes = λ k. 0;
  mirrored = λ k. 0;
  jobs = [];
}

abbrev pub count_change : Key → (Key → ℕ) → Key → ℕ
count_change k changes j = if key_eq j k then changes j + 1 else changes j

abbrev pub catch_up : Key → (Key → ℕ) → (Key → ℕ) → Key → ℕ
catch_up k changes mirrored j = if key_eq j k then changes j else mirrored j

abbrev pub take_on : (Key → ℕ) → List Event → List Job
take_on changes = map λ e. record { event = e; seen = changes e.key; synced = false }

abbrev pub after_enqueue : ℕ → Key → System → System
after_enqueue now k s = record s {
  outbox = enqueue_one now k s.outbox;
  changes = count_change k s.changes;
}

abbrev pub after_claim : (ℕ → Bool) → ℕ → ℕ → System → System
after_claim held now limit s =
    let (outbox, events) = claim held now limit s.outbox in
    record s { outbox = outbox; jobs = take_on s.changes events ++ s.jobs }

abbrev pub after_sync : Job → System → System
after_sync j s = record s {
  mirrored = catch_up j.event.key s.changes s.mirrored;
  jobs = record j { synced = true } ∷ s.jobs;
}

pub data Step (s : System) : System → Type 0 where
  enqueues : (now : ℕ) (k : Key) → Step s (after_enqueue now k s)
  claims : (held : ℕ → Bool) (now limit : ℕ) → Step s (after_claim held now limit s)
  syncs : (j : Job) → Memᴰ j s.jobs → Step s (after_sync j s)
  finishes :
      (now : ℕ) (j : Job)
      → Memᴰ j s.jobs
      → j.synced ≡ true
      → Step s (record s { outbox = (mark_done now j.event s.outbox).0 })
  fails :
      (now : ℕ) (error : Text) (j : Job)
      → Memᴰ j s.jobs
      → Step s (record s { outbox = mark_failed now j.event error s.outbox })
  purges : (now : ℕ) → Step s (record s { outbox = purge_processed now s.outbox })

pub data Reach (s : System) : System → Type 0 where
  here : Reach s s
  next : {t u : System} → Reach s t → Step t u → Reach s u
