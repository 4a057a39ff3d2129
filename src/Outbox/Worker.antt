-- ===== src/Outbox/Worker.antt =====
-- services/control-plane/src/sync/outbox.worker.ts: `kick`, `drain` and `process`.
-- What the worker shares with the rest of the program is a parameter: the clock, the rows that other
-- transactions hold, which handlers are registered, and the handlers. A handler takes the worker's
-- whole world to a new one, since other requests run while the worker waits for it: they may enqueue
-- events, `kick` the worker or stop it. Failures of the database itself are not modelled.
pub mod Rows
pub mod Calm
pub mod Drain
use mathlib.Core.Option
use multi_tenant_cloud_obser.Base.{
  ℕ, zero, suc, Bool, true, false, not, ◌&&◌, Option, none, some, List, [], ◌∷◌, if◌then◌else◌,
  Text,
}
use multi_tenant_cloud_obser.Outbox.{
  Key, Target, Aggregate, Outbox, Event, claim, mark_done, mark_failed, enqueue_one,
}

pub record Worker (E : Type 0) : Type 0 where
  pub outbox : Outbox
  pub env : E
  pub draining : Bool
  pub rerun : Bool
  pub stopped : Bool

pub record Surroundings (E : Type 0) : Type 0 where
  pub clock : E → ℕ
  pub held : E → ℕ → Bool
  pub has_handler : Target → Aggregate → Bool
  -- `none` is success, `some` the text of the error that was thrown.
  pub sync : Key → Worker E → Worker E × Option Text

abbrev pub batch_size : ℕ
batch_size = 20

abbrev pub is_empty : List Event → Bool
is_empty [] = true
is_empty (e ∷ events) = false

abbrev pub rest : {E : Type 0} → Worker E → Worker E
rest w = record w { draining = false }

module _ {E : Type 0} (around : Surroundings E) where
  abbrev pub now : Worker E → ℕ
  now w = around.clock w.env

  abbrev pub drop_event : Event → Worker E → Worker E
  drop_event e w = record w { outbox = (mark_done (now w) e w.outbox).0 }

  -- What follows the handler in `process`.
  pub settle : Event → Worker E × Option Text → Worker E
  settle e (w, some error) = record w { outbox = mark_failed (now w) e error w.outbox }
  settle e (w, none) =
      let (o, done) = mark_done (now w) e w.outbox in
      record w { outbox = o; rerun = if done then w.rerun else true }

  pub process : Event → Worker E → Worker E
  process e w =
      if around.has_handler e.key.target e.key.aggregate_type
      then settle e (around.sync e.key w)
      else drop_event e w

  pub process_all : List Event → Worker E → Worker E
  process_all [] w = w
  process_all (e ∷ events) w = process_all events (process e w)

  -- The claim at the head of the inner loop.
  pub claim_batch : Worker E → Worker E × List Event
  claim_batch w =
      let (o, batch) = claim (around.held w.env) (now w) batch_size w.outbox in
      (record w { outbox = o }, batch)

  -- Both loops of `drain`, from the head of the inner one; `none` is fuel that ran out.
  pub drain_loop : ℕ → Worker E → Option (Worker E)
  drain_loop zero w = none
  drain_loop (suc fuel) w =
      let (w', batch) = claim_batch w in
      let again = drain_loop fuel (record w' { rerun = false }) in
      let more = drain_loop fuel (process_all batch w') in
      if w.stopped
      then some w
      else if is_empty batch
      then if w'.rerun then again else some w'
      else more

  pub drain : ℕ → Worker E → Option (Worker E)
  drain fuel w = Option.map rest (drain_loop fuel (record w { draining = true; rerun = false }))

-- `kick`: the new worker, and whether a drain starts.
pub kick : {E : Type 0} → Worker E → Worker E × Bool
kick w =
    if w.stopped
    then (w, false)
    else if w.draining
    then (record w { rerun = true }, false)
    else (w, true)
