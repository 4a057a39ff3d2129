-- ===== src/Store/Keeps.antt =====
-- Properties of the database that an action keeps, whether it succeeds or fails.
use multi_tenant_cloud_obser.Base.{
  ℕ, ◌≡◌, refl, ap, subst, if◌then◌else◌, Bool, true, false, Option, none, some, List, [], ◌∷◌,
}
use multi_tenant_cloud_obser.Outbox.{Outbox, Aggregate, Target, enqueue}
use multi_tenant_cloud_obser.Store.{
  Database, System, Action, Call, Reply, failed, done, Failure, give, throw, query, execute, write,
  call, returned, found_or, attempt, refused_or, continue, ◌>>=◌, ◌>>◌, throw_if, when, concluded,
  transaction, rolled_back, enqueue_event, enqueue_all,
}

-- An action keeps a property of the tables.
pub record Keeps {ℓ} {W A : Type 0} (P : Database → Type ℓ) (m : Action W A) : Type ℓ where
  pub kept : (s : System W) → P s.db → P (m s).1.db

-- A statement that a constraint may refuse leaves tables with a property, where it writes.
abbrev pub OnSuccess {ℓ} : {A : Type 0} → (Database → Type ℓ) → Option (A × Database) → Type ℓ
OnSuccess P none = Unit
OnSuccess P (some (a, db)) = P db

pub OnSuccess-if {ℓ} :
    {A : Type 0} (P : Database → Type ℓ) (b : Bool) (a : A) (db : Database)
    → (b ≡ false → P db)
    → OnSuccess P (if b then none else some (a, db))
OnSuccess-if P true a db h = tt
OnSuccess-if P false a db h = h refl

module _ {ℓ} {W : Type 0} {P : Database → Type ℓ} where
  pub Keeps-bind :
      {A B : Type 0} {m : Action W A} {next : A → Action W B}
      → Keeps P m
      → ((a : A) → Keeps P (next a))
      → Keeps P (m >>= next)
  unfolding ◌>>=◌
  Keeps-bind {A} {B} {m} {next} hm hn = record { kept = λ s h. step (m s) (hm.kept s h) }
    where
      step : (r : Reply A × System W) → P r.1.db → P (continue next r).1.db
      step (failed e, s') h' = h'
      step (done a, s') h' = (hn a).kept s' h'

  pub Keeps-call : {A : Type 0} (c : Call W A) → Keeps P (call c)
  unfolding call
  Keeps-call {A} c = record { kept = λ s h. step s h (c s.world) }
    where
      step : (s : System W) → P s.db → (r : Reply A × W) → P (returned s r).1.db
      step s h (reply, w) = h

  pub Keeps-give : {A : Type 0} (a : A) → Keeps {W = W} P (give a)
  unfolding give
  Keeps-give a = record { kept = λ s h. h }

  pub Keeps-throw : {A : Type 0} (e : Failure) → Keeps {W = W} {A = A} P (throw e)
  unfolding throw
  Keeps-throw e = record { kept = λ s h. h }

  pub Keeps-query : {A : Type 0} (read : Database → A) → Keeps {W = W} P (query read)
  unfolding query
  Keeps-query read = record { kept = λ s h. h }

  pub Keeps-execute :
      {A : Type 0} (statement : ℕ → Database → A × Database)
      → ((now : ℕ) (db : Database) → P db → P (statement now db).1)
      → Keeps {W = W} P (execute statement)
  unfolding execute
  Keeps-execute statement h = record { kept = λ s. h s.now s.db }

  pub Keeps-attempt :
      {A : Type 0} (e : Failure) (statement : ℕ → Database → Option (A × Database))
      → ((now : ℕ) (db : Database) → P db → OnSuccess P (statement now db))
      → Keeps {W = W} P (attempt e statement)
  unfolding attempt
  Keeps-attempt {A} e statement h = record {
    kept = λ s k. step s k (statement s.now s.db) (h s.now s.db k);
  }
    where
      step :
          (s : System W)
          → P s.db
          → (o : Option (A × Database)) → OnSuccess P o
          → P (refused_or e s o).1.db
      step s k none u = k
      step s k (some (a, db')) u = u

  pub Keeps-if :
      {A : Type 0} (b : Bool) {m n : Action W A}
      → Keeps P m
      → Keeps P n
      → Keeps P (if b then m else n)
  Keeps-if true h k = h
  Keeps-if false h k = k

  pub Keeps-write :
      (statement : ℕ → Database → Database)
      → ((now : ℕ) (db : Database) → P db → P (statement now db))
      → Keeps {W = W} P (write statement)
  Keeps-write statement h = Keeps-execute _ h

  pub Keeps-throw_if : (b : Bool) (e : Failure) → Keeps {W = W} P (throw_if b e)
  unfolding throw_if
  Keeps-throw_if true e = Keeps-throw e
  Keeps-throw_if false e = Keeps-give tt

  pub Keeps-when : (b : Bool) {m : Action W (Unit {0})} → Keeps P m → Keeps P (when b m)
  unfolding when
  Keeps-when true k = k
  Keeps-when false k = Keeps-give tt

  pub Keeps-found_or : {A : Type 0} (e : Failure) (o : Option A) → Keeps {W = W} P (found_or e o)
  unfolding found_or
  Keeps-found_or e none = Keeps-throw e
  Keeps-found_or e (some a) = Keeps-give a

  pub Keeps-then :
      {B : Type 0} {m : Action W (Unit {0})} {next : Action W B}
      → Keeps P m
      → Keeps P next
      → Keeps P (m >> next)
  unfolding ◌>>◌
  Keeps-then h k = Keeps-bind h (λ u. k)

  -- A property that does not look at the sequences survives a rollback.
  pub Keeps-transaction :
      {A : Type 0} {m : Action W A}
      → ((before after : Database) → P before → P (rolled_back before after))
      → Keeps P m
      → Keeps P (transaction m)
  unfolding transaction
  Keeps-transaction {A} {m} back k = record { kept = λ s h. step s h (m s) (k.kept s h) }
    where
      step : (s : System W) → P s.db → (r : Reply A × System W) → P r.1.db → P (concluded s r).1.db
      step s h (failed e, s') h' = back s.db s'.db h
      step s h (done a, s') h' = h'

  pub Keeps-enqueue_event :
      (a : Aggregate) (id : ℕ) (ts : List Target)
      → ((db : Database) (o : Outbox) → P db → P (record db { outbox = o }))
      → Keeps {W = W} P (enqueue_event a id ts)
  unfolding enqueue_event
  Keeps-enqueue_event a id ts other =
      Keeps-write _ (λ now db. other db (enqueue now a id ts db.outbox))

  pub Keeps-enqueue_all :
      (a : Aggregate) (ids : List ℕ) (ts : List Target)
      → ((db : Database) (o : Outbox) → P db → P (record db { outbox = o }))
      → Keeps {W = W} P (enqueue_all a ids ts)
  unfolding enqueue_all
  Keeps-enqueue_all a [] ts other = Keeps-give tt
  Keeps-enqueue_all a (id ∷ ids) ts other =
      Keeps-then (Keeps-enqueue_event a id ts other) (Keeps-enqueue_all a ids ts other)

-- What a bind that succeeded went through.
pub >>=-eq-done :
    {W A B : Type 0} (m : Action W A) (next : A → Action W B) (s s'' : System W) (b : B)
    → (m >>= next) s ≡ (done b, s'')
    → (a : A) × (s' : System W) × (m s ≡ (done a, s')) × (next a s' ≡ (done b, s''))
unfolding ◌>>=◌
>>=-eq-done {W} {A} {B} m next s s'' b h = step (m s) refl h
  where
    step :
        (r : Reply A × System W)
        → m s ≡ r
        → continue next r ≡ (done b, s'')
        → (a : A) × (s' : System W) × (m s ≡ (done a, s')) × (next a s' ≡ (done b, s''))
    step (failed e, s') eq h' = cc
    step (done a, s') eq h' = (a, s', eq, h')

pub >>-eq-done :
    {W B : Type 0} (m : Action W (Unit {0})) (next : Action W B) (s s'' : System W) (b : B)
    → (m >> next) s ≡ (done b, s'')
    → (s' : System W) × (m s ≡ (done tt, s')) × (next s' ≡ (done b, s''))
unfolding ◌>>◌
>>-eq-done m next s s'' b h =
    let (u, s', first, rest) = >>=-eq-done m (λ u. next) s s'' b h in (s', first, rest)

-- What follows an action that succeeded.
pub >>-of-done :
    {W B : Type 0} (m : Action W (Unit {0})) (next : Action W B) (s : System W)
    → (m s).0 ≡ done tt
    → (m >> next) s ≡ next (m s).1
unfolding ◌>>=◌ ◌>>◌
>>-of-done {W} {B} m next s h = step (m s) h
  where
    step : (r : Reply (Unit {0}) × System W) → r.0 ≡ done tt → continue (λ u. next) r ≡ next r.1
    step (failed e, t) h = absurd cc
    step (done u, t) h = refl

pub transaction-of-done :
    {W A : Type 0} (m : Action W A) (s : System W) (a : A)
    → (m s).0 ≡ done a
    → transaction m s ≡ m s
unfolding transaction
transaction-of-done {W} {A} m s a h = step (m s) h
  where
    step : (r : Reply A × System W) → r.0 ≡ done a → concluded s r ≡ r
    step (failed e, t) h = absurd cc
    step (done b, t) h = refl

pub throw_if-eq-done :
    {W B : Type 0} (t : Bool) (e : Failure) (next : Action W B) (s s' : System W) (b : B)
    → (throw_if t e >> next) s ≡ (done b, s')
    → next s ≡ (done b, s')
unfolding ◌>>=◌ ◌>>◌ throw_if throw give
throw_if-eq-done true e next s s' b h = absurd cc
throw_if-eq-done false e next s s' b h = h

-- What a guarded statement that was not refused left.
pub refused_or-eq-done :
    {W A : Type 0} (e : Failure) (s s' : System W) (t : Bool) (a b : A) (db : Database)
    → refused_or e s (if t then none else some (a, db)) ≡ (done b, s')
    → s'.db ≡ db
refused_or-eq-done e s s' true a b db h = absurd cc
refused_or-eq-done e s s' false a b db h = subst (λ x. x.db ≡ db) (ap (λ r. r.1) h) refl

-- What an action keeps holds where it succeeded.
pub Keeps-eq-done {ℓ} :
    {W A : Type 0} {P : Database → Type ℓ} {m : Action W A} {s s' : System W} {a : A}
    → Keeps P m
    → m s ≡ (done a, s')
    → P s.db
    → P s'.db
Keeps-eq-done {P = P} {s = s} k h p = subst (λ r. P r.1.db) h (k.kept s p)

abbrev value_or : {A : Type 0} → A → Reply A → A
value_or a (failed e) = a
value_or a (done b) = b

pub give-eq-done : {W A : Type 0} (a b : A) (s s' : System W) → give a s ≡ (done b, s') → a ≡ b
unfolding give
give-eq-done a b s s' h = ap (λ r. value_or a r.0) h

pub transaction-eq-done :
    {W A : Type 0} (m : Action W A) (s s' : System W) (a : A)
    → transaction m s ≡ (done a, s')
    → m s ≡ (done a, s')
unfolding transaction
transaction-eq-done {W} {A} m s s' a h = step (m s) h
  where
    step : (r : Reply A × System W) → concluded s r ≡ (done a, s') → r ≡ (done a, s')
    step (failed e, t) h' = cc
    step (done b, t) h' = h'
