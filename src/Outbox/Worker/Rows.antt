-- ===== src/Outbox/Worker/Rows.antt =====
-- The rows that are due, under a claim and under the updates of a finished or a failed event.

use multi_tenant_cloud_obser.Base.{
  ℕ, ◌+◌, ◌-◌, ◌≤◌, ◌≡◌, refl, ap, ◌∙◌, Bool, true, false, List, [], ◌∷◌, arith, any, length, Memᴰ,
  All, All-mono,
}
use multi_tenant_cloud_obser.Base.Tables.{update, count, any-map}
use multi_tenant_cloud_obser.Outbox.{
  Row, Event, is_due, is_claimed, seconds, lease_seconds, claim_rows,
}
use multi_tenant_cloud_obser.Outbox.Core.{Core, core, cores, matches, cores-claim_rows}
use multi_tenant_cloud_obser.Outbox.History.{Origin, claim_rows-Origin}
use multi_tenant_cloud_obser.Outbox.Claims.{lease_not_due}
use multi_tenant_cloud_obser.Outbox.Worker.{now}

abbrev pub due_count : ℕ → List Row → ℕ
due_count t = count (is_due t)

due_later : (now t : ℕ) (r : Row) → now ≤ t → is_due now r ≡ true → is_due t r ≡ true
unfolding is_due
due_later now t r h d = ground arith

pub claim_rows-due_count :
    (held : ℕ → Bool) (now t limit : ℕ) (rows : List Row)
    → now ≤ t
    → t ≤ now + seconds lease_seconds
    → due_count t (claim_rows held now limit rows).0 + length (claim_rows held now limit rows).1
      ≤ due_count t rows
unfolding claim_rows count
claim_rows-due_count held now t limit [] h k = omega arith
claim_rows-due_count held now t limit (r ∷ rows) h k = ground (
  arith,
  lease_not_due now t r k,
  due_later now t r h,
  claim_rows-due_count held now t (limit - 1) rows h k,
  claim_rows-due_count held now t limit rows h k,
)

pub due_count-update :
    (t : ℕ) (p : Row → Bool) (f : Row → Row) (rows : List Row)
    → ((r : Row) → is_due t (f r) ≡ false)
    → due_count t (update p f rows) ≤ due_count t rows
unfolding count update
due_count-update t p f [] h = omega arith
due_count-update t p f (r ∷ rows) h = ground (arith, h r, due_count-update t p f rows h)

pub any-update_claimed :
    (e : Event) (p : Row → Bool) (f : Row → Row) (rows : List Row)
    → ((r : Row) → is_claimed e (f r) ≡ is_claimed e r)
    → any (is_claimed e) (update p f rows) ≡ any (is_claimed e) rows
unfolding any update
any-update_claimed e p f [] h = refl
any-update_claimed e p f (r ∷ rows) h = ground (arith, h r, any-update_claimed e p f rows h)

any-matches : (cs : List Core) (e : Event) → Origin cs e → any (matches e) cs ≡ true
unfolding any
any-matches [] e (c, m, id, key, seq) = elim m [ ]
any-matches (x ∷ cs) e (c, Memᴰ.head p, id, key, seq) =
    ground (arith, ap (λ (y : Core). y.id) p, ap (λ (y : Core). y.requested_seq) p)
any-matches (x ∷ cs) e (c, Memᴰ.tail m, id, key, seq) =
    ground (arith, any-matches cs e (c, m, id, key, seq))

-- Each event of a claim finds its row as it was claimed.
pub claim_rows-claimed :
    (held : ℕ → Bool) (now limit : ℕ) (rows : List Row)
    → All
        (λ e. any (is_claimed e) (claim_rows held now limit rows).0 ≡ true)
        (claim_rows held now limit rows).1
claim_rows-claimed held now limit rows =
    All-mono _ _ _
      (λ e o.
        any-map core (is_claimed e) (matches e) (λ a. refl) (claim_rows held now limit rows).0
        ∙ ap (any (matches e)) (cores-claim_rows held now limit rows)
        ∙ any-matches (cores rows) e o)
      (claim_rows-Origin held now limit rows)
