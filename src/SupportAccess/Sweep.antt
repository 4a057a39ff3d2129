-- ===== src/SupportAccess/Sweep.antt =====
-- The sweep of expired grants: all that is due is claimed and announced, up to the limit.
use multi_tenant_cloud_obser.Base.{
  ℕ, zero, suc, ◌≡◌, ◌≤◌, refl, sym, ap, subst, ◌∙◌, Bool, true, false, List, [], ◌∷◌, All,
  All-of-mem, arith, leb, length, map, take, any, Memᴰ, ◌⊎◌, inl, inr, Bool-cases, if◌then◌else◌,
  if_cases, ◌==◌, ==_iff,
}
use multi_tenant_cloud_obser.Base.Tables.{update, select, count, Mem-select, Mem-map, Mem-swapped}
use multi_tenant_cloud_obser.Outbox.{user, grafana}
use multi_tenant_cloud_obser.Store.{
  Database, System, Grant, Reply, failed, done, continue, concluded, execute, give, ◌>>=◌, ◌>>◌,
  transaction, enqueue_all,
}
use multi_tenant_cloud_obser.Store.Keeps.{Keeps-enqueue_all}
use multi_tenant_cloud_obser.Store.Announced.{Waits, enqueue_all-Waits, enqueue_all_succeeds}
use multi_tenant_cloud_obser.SupportAccess.{
  claim_expired, is_in, claimed_ids, is_claimable, sync_expiry, earliest_first, insert_earliest,
  distinct, claim_limit,
}
use multi_tenant_cloud_obser.SupportAccess.Service.{sweep_expired}

length-select : {A : Type 0} (p : A → Bool) (xs : List A) → length (select p xs) ≡ count p xs
unfolding select count
length-select p [] = refl
length-select p (x ∷ xs) = ground (arith, length-select p xs)

Mem-insert_earliest :
    (g x : Grant) (gs : List Grant) → Memᴰ x (g ∷ gs) → Memᴰ x (insert_earliest g gs)
unfolding insert_earliest
Mem-insert_earliest g x [] m = m
Mem-insert_earliest g x (h ∷ hs) m =
    if_cases (Memᴰ x) (leb g.expires_at h.expires_at) (g ∷ h ∷ hs) (h ∷ insert_earliest g hs)
      (λ e. m) (λ e. Mem-swapped g x h hs (insert_earliest g hs) m (Mem-insert_earliest g x hs))

Mem-earliest_first : (x : Grant) (gs : List Grant) → Memᴰ x gs → Memᴰ x (earliest_first gs)
unfolding earliest_first
Mem-earliest_first x [] m = m
Mem-earliest_first x (g ∷ gs) (Memᴰ.head e) = Mem-insert_earliest g x _ (Memᴰ.head e)
Mem-earliest_first x (g ∷ gs) (Memᴰ.tail m) =
    Mem-insert_earliest g x _ (Memᴰ.tail (Mem-earliest_first x gs m))

length-insert_earliest :
    (g : Grant) (gs : List Grant) → length (insert_earliest g gs) ≡ suc (length gs)
unfolding insert_earliest
length-insert_earliest g [] = refl
length-insert_earliest g (h ∷ hs) = ground (arith, length-insert_earliest g hs)

length-earliest_first : (gs : List Grant) → length (earliest_first gs) ≡ length gs
unfolding earliest_first
length-earliest_first [] = refl
length-earliest_first (g ∷ gs) =
    length-insert_earliest g (earliest_first gs) ∙ ap suc (length-earliest_first gs)

take_all : {A : Type 0} (n : ℕ) (xs : List A) → length xs ≤ n → take n xs ≡ xs
take_all zero [] h = refl
take_all (suc n) [] h = refl
take_all zero (x ∷ xs) h = absurd (omega arith)
take_all (suc n) (x ∷ xs) h = ap (λ ys. x ∷ ys) (take_all n xs (omega arith))

any-Mem : (y : ℕ) (xs : List ℕ) → any (λ z. z == y) xs ≡ true → Memᴰ y xs
unfolding any
any-Mem y [] h = absurd cc
any-Mem y (x ∷ xs) h = elim (Bool-cases (x == y)) [
  | inl e ↦ Memᴰ.head (sym ((==_iff x y).0 e))
  | inr n ↦ Memᴰ.tail (any-Mem y xs (ground arith))
]

-- Removing what repeats removes no element.
pub Mem-distinct : (x : ℕ) (xs : List ℕ) → Memᴰ x xs → Memᴰ x (distinct xs)
unfolding distinct
Mem-distinct x [] m = m
Mem-distinct x (y ∷ ys) (Memᴰ.tail m) =
    if_cases (Memᴰ x) (any (λ z. z == y) (distinct ys)) (distinct ys) (y ∷ distinct ys)
      (λ e. Mem-distinct x ys m) (λ e. Memᴰ.tail (Mem-distinct x ys m))
Mem-distinct x (y ∷ ys) (Memᴰ.head e) =
    if_cases (Memᴰ x) (any (λ z. z == y) (distinct ys)) (distinct ys) (y ∷ distinct ys)
      (λ h. subst (λ z. Memᴰ z (distinct ys)) (sym e) (any-Mem y (distinct ys) h))
      (λ h. Memᴰ.head e)

Mem-any : (y : ℕ) (xs : List ℕ) → Memᴰ y xs → any (λ z. z == y) xs ≡ true
unfolding any
Mem-any y [] m = elim m [ ]
Mem-any y (x ∷ xs) (Memᴰ.head e) = ground (arith, (==_iff x y).1 (sym e))
Mem-any y (x ∷ xs) (Memᴰ.tail m) = ground (arith, Mem-any y xs m)

claimed_all :
    (held : ℕ → Bool) (now : ℕ) (db : Database) (g : Grant)
    → count (is_claimable held now) db.grants ≤ claim_limit
    → Memᴰ g db.grants
    → is_claimable held now g ≡ true
    → is_in (claimed_ids held now db) g ≡ true
claimed_all held now db g few m due = Mem-any g.id (claimed_ids held now db) (
    Mem-map (λ h. h.id) _ g
      (subst (Memᴰ g) (sym (take_all claim_limit _ short))
        (Mem-earliest_first g _ (Mem-select (is_claimable held now) db.grants g m due))))
  where
    short : length (earliest_first (select (is_claimable held now) db.grants)) ≤ claim_limit
    short =
        subst (λ n. n ≤ claim_limit)
          (sym (length-earliest_first _ ∙ length-select (is_claimable held now) db.grants)) few

not_due_after :
    (held : ℕ → Bool) (now : ℕ) (b : Bool) (g : Grant)
    → (is_claimable held now g ≡ true → b ≡ true)
    → is_claimable held now (if b then sync_expiry now g else g) ≡ false
not_due_after held now true g h = refl
not_due_after held now false g h = elim (Bool-cases (is_claimable held now g)) [
  | inl due ↦ absurd (ground (arith, h due))
  | inr e ↦ e
]

none_due :
    (held : ℕ → Bool) (now : ℕ) (ids : List ℕ) (gs : List Grant)
    → All (λ g. is_claimable held now g ≡ true → is_in ids g ≡ true) gs
    → any (is_claimable held now) (update (is_in ids) (sync_expiry now) gs) ≡ false
unfolding any update
none_due held now ids [] h = refl
none_due held now ids (g ∷ gs) h =
    let here = not_due_after held now (is_in ids g) g h.0 in
    let later = none_due held now ids gs h.1 in rw (here, later) refl

Mem-update_missed :
    {A : Type 0} (p : A → Bool) (f : A → A) (x : A) (xs : List A)
    → p x ≡ false
    → Memᴰ x xs
    → Memᴰ x (update p f xs)
unfolding update
Mem-update_missed p f x [] h m = m
Mem-update_missed p f x (y ∷ ys) h (Memᴰ.head e) =
    Memᴰ.head (subst (λ z. x ≡ (if p z then f z else z)) e (sym (ap (λ b. if b then f x else x) h)))
Mem-update_missed p f x (y ∷ ys) h (Memᴰ.tail m) = Memᴰ.tail (Mem-update_missed p f x ys h m)

module _ {W : Type 0} (held : ℕ → Bool) (s : System W) where
  claimed : System W
  claimed = record s { db = (claim_expired held s.now s.db).1 }

  users : List ℕ
  users = distinct (map (λ h. h.user_id) (claim_expired held s.now s.db).0)

  -- What holds after the events of the users claimed holds after the sweep.
  after_sweep :
      (P : Database → Type 0)
      → P (enqueue_all user users (grafana ∷ []) claimed).1.db
      → P (sweep_expired held false s).1.db
  unfolding sweep_expired transaction execute give ◌>>=◌ ◌>>◌ claimed users
  after_sweep P =
      after (enqueue_all user users (grafana ∷ []) claimed)
        (enqueue_all_succeeds user users _ claimed)
    where
      after :
          (r : Reply (Unit {0}) × System W)
          → r.0 ≡ done tt
          → P r.1.db
          → P
              (continue
                (λ expired. give (length expired))
                (concluded s (continue (λ u. give (claim_expired held s.now s.db).0) r))).1.db
      after (failed e, t) h p = absurd cc
      after (done u, t) h p = p

  swept_grants :
      (sweep_expired held false s).1.db.grants
      ≡ update (is_in (claimed_ids held s.now s.db)) (sync_expiry s.now) s.db.grants
  unfolding claim_expired claimed
  swept_grants =
      after_sweep
        (λ db.
          db.grants ≡ update (is_in (claimed_ids held s.now s.db)) (sync_expiry s.now) s.db.grants)
        ((Keeps-enqueue_all {P = λ db. db.grants ≡ claimed.db.grants} user users _
            (λ db o h. h)).kept
          claimed refl)

  swept-Waits :
      (g : Grant)
      → Memᴰ g s.db.grants
      → is_in (claimed_ids held s.now s.db) g ≡ true
      → Waits
          (record { target = grafana; aggregate_type = user; aggregate_id = g.user_id })
          (sweep_expired held false s).1.db
  unfolding claim_expired users
  swept-Waits g m hit =
      after_sweep
        (Waits (record { target = grafana; aggregate_type = user; aggregate_id = g.user_id }))
        (enqueue_all-Waits user users (grafana ∷ []) g.user_id grafana claimed
          (Mem-distinct g.user_id _ (
            Mem-map (λ h. h.user_id) _ g
              (Mem-select (is_in (claimed_ids held s.now s.db)) s.db.grants g m hit)))
          (Memᴰ.head refl))

-- Where at most a hundred grants have expired without being announced and are not locked by another
-- transaction, a sweep leaves no such grant, and an event of the user of each waits for Grafana.
pub sweep_complete :
    {W : Type 0} (held : ℕ → Bool) (s : System W) (g : Grant)
    → count (is_claimable held s.now) s.db.grants ≤ claim_limit
    → Memᴰ g s.db.grants
    → is_claimable held s.now g ≡ true
    → (any (is_claimable held s.now) (sweep_expired held false s).1.db.grants ≡ false)
      × Waits
          (record { target = grafana; aggregate_type = user; aggregate_id = g.user_id })
          (sweep_expired held false s).1.db
sweep_complete held s g few m due = (
  subst (λ gs. any (is_claimable held s.now) gs ≡ false) (sym (swept_grants held s))
      (none_due held s.now (claimed_ids held s.now s.db) s.db.grants
        (All-of-mem _ s.db.grants (λ h n due_h. claimed_all held s.now s.db h few n due_h))),
  swept-Waits held s g m (claimed_all held s.now s.db g few m due),
)

-- However many grants have expired, and whatever rows other transactions have locked: a sweep leaves
-- a grant as it is, or an event of its user waits for Grafana.
pub sweep-announces :
    {W : Type 0} (held : ℕ → Bool) (s : System W) (g : Grant)
    → Memᴰ g s.db.grants
    → Memᴰ g (sweep_expired held false s).1.db.grants
      ⊎ Waits
          (record { target = grafana; aggregate_type = user; aggregate_id = g.user_id })
          (sweep_expired held false s).1.db
sweep-announces held s g m = elim (Bool-cases (is_in (claimed_ids held s.now s.db) g)) [
  | inl hit ↦ inr (swept-Waits held s g m hit)
  | inr missed ↦ inl (
      subst (Memᴰ g) (sym (swept_grants held s)) (
        Mem-update_missed (is_in (claimed_ids held s.now s.db)) (sync_expiry s.now) g s.db.grants
          missed m))
]
