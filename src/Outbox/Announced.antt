-- ===== src/Outbox/Announced.antt =====
-- services/control-plane/src/outbox/outbox.repository.ts: what `enqueue` leaves waiting in the outbox.
use multi_tenant_cloud_obser.Base.{
  ℕ, ◌≡◌, refl, sym, subst, ◌∙◌, Bool, true, ◌||◌, List, [], ◌∷◌, any, arith, inl, inr, Bool-cases,
  Memᴰ,
}
use multi_tenant_cloud_obser.Base.Tables.{any-update_same}
use multi_tenant_cloud_obser.Outbox.{
  Outbox, Row, Key, Aggregate, Target, conflicts, key_eq, bump, new_row, append, enqueue_one,
  enqueue,
}

-- An event of the key waits in the outbox.
unfoldable pub Announced : Key → Outbox → Type 0
Announced k o = any (conflicts k) o.rows ≡ true

any-append : (q : Row → Bool) (xs : List Row) (r : Row) → any q (append xs r) ≡ any q xs || q r
unfolding any append
any-append q [] r = ground arith
any-append q (x ∷ xs) r = ground (arith, any-append q xs r)

key_eq_refl : (k : Key) → key_eq k k ≡ true
unfolding key_eq
key_eq_refl k = ground arith

-- Every enqueue leaves an event of its key waiting, and keeps those that wait.
pub enqueue_one-Announced : (now : ℕ) (k : Key) (o : Outbox) → Announced k (enqueue_one now k o)
unfolding Announced enqueue_one conflicts
enqueue_one-Announced now k o = elim (Bool-cases (any (conflicts k) o.rows)) [
  | inl h ↦ rw h (any-update_same (conflicts k) (conflicts k) (bump now) (λ r. refl) o.rows ∙ h)
  | inr h ↦
      rw h
        (any-append (conflicts k) o.rows (new_row now o.next_id k) ∙ ground (arith, key_eq_refl k))
]

pub Announced-enqueue_one :
    (now : ℕ) (j k : Key) (o : Outbox) → Announced j o → Announced j (enqueue_one now k o)
unfolding Announced enqueue_one conflicts
Announced-enqueue_one now j k o a = elim (Bool-cases (any (conflicts k) o.rows)) [
  | inl h ↦ rw h (any-update_same (conflicts j) (conflicts k) (bump now) (λ r. refl) o.rows ∙ a)
  | inr h ↦ rw h (any-append (conflicts j) o.rows (new_row now o.next_id k) ∙ ground (arith, a))
]

pub Announced-enqueue :
    (now : ℕ) (a : Aggregate) (id : ℕ) (ts : List Target) (j : Key) (o : Outbox)
    → Announced j o
    → Announced j (enqueue now a id ts o)
unfolding enqueue
Announced-enqueue now a id [] j o h = h
Announced-enqueue now a id (t ∷ ts) j o h =
    Announced-enqueue now a id ts j _ (Announced-enqueue_one now j _ o h)

pub enqueue-Announced :
    (now : ℕ) (a : Aggregate) (id : ℕ) (ts : List Target) (t : Target) (o : Outbox)
    → Memᴰ t ts
    → Announced
        (record { target = t; aggregate_type = a; aggregate_id = id })
        (enqueue now a id ts o)
unfolding enqueue
enqueue-Announced now a id [] t' o m = elim m [ ]
enqueue-Announced now a id (t ∷ ts) t' o (Memᴰ.head e) = Announced-enqueue now a id ts _ _ (
    subst
      (λ x.
        Announced (record { target = x; aggregate_type = a; aggregate_id = id })
          (enqueue_one now (record { target = t; aggregate_type = a; aggregate_id = id }) o))
      (sym e) (enqueue_one-Announced now _ o))
enqueue-Announced now a id (t ∷ ts) t' o (Memᴰ.tail m) = enqueue-Announced now a id ts t' _ m
