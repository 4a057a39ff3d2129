-- ===== src/Enrollments/Once.antt =====
-- A token works once.
use multi_tenant_cloud_obser.Base.{
  ℕ, ◌≡◌, refl, ap, sym, subst, Bool, true, false, ◌&&◌, Option, none, some, List, [], ◌∷◌, Text,
  text_eq, is_none, is_some, if◌then◌else◌, ◌==◌, ==_refl, if_cases, arith, inl, inr, Bool-cases,
}
use multi_tenant_cloud_obser.Base.Tables.{find, update}
use multi_tenant_cloud_obser.Store.{
  System, failed, done, internal_error, Enrollment, give, throw, execute, attempt, ◌>>=◌,
}
use multi_tenant_cloud_obser.Store.Keeps.{
  Keeps-query, refused_or-eq-done, >>=-eq-done, >>-eq-done, throw_if-eq-done, Keeps-eq-done,
  transaction-eq-done,
}
use multi_tenant_cloud_obser.Keycloak.{Env}
use multi_tenant_cloud_obser.Agents.Service.{issue}
use multi_tenant_cloud_obser.Enrollments.{
  by_token, join_enrollment, joined_row, state_of, mark_used, is_usable, use_enrollment,
}
use multi_tenant_cloud_obser.Enrollments.Service.{
  EnrollmentConfig, ExchangeResult, exchange, exchange_in, exchange_locked, exchange_for,
  require_active, gone_used,
}
use multi_tenant_cloud_obser.Enrollments.Cycle.{if-eq-some, phase_of, Moves, Grows-refl, find-Grows}
use multi_tenant_cloud_obser.Enrollments.History.{
  Since, Since-issue, Since-require_active, Later, Later-Grows,
}
use multi_tenant_cloud_obser.Enrollments.Exchange.{refusal_in, exchange_refused}

-- The token's row is marked.
abbrev IsSpent : Text → List Enrollment → Type 0
IsSpent token_hash es =
    (f : Enrollment) × (find (by_token token_hash) es ≡ some f) × (is_some f.used_at ≡ true)

abbrev marked : ℕ → ℕ → Enrollment → Enrollment
marked id now e = if is_usable id e then use_enrollment now e else e

marked_token : (id now : ℕ) (e : Enrollment) → (marked id now e).token_hash ≡ e.token_hash
marked_token id now e =
    if_cases (λ f. f.token_hash ≡ e.token_hash) (is_usable id e) (use_enrollment now e) e
      (λ h. refl) (λ h. refl)

marked_used : (now : ℕ) (e : Enrollment) → is_some (marked e.id now e).used_at ≡ true
marked_used now e =
    if_cases (λ f. is_some f.used_at ≡ true) (is_usable e.id e) (use_enrollment now e) e (λ h. refl)
      (λ h. unusable e.used_at (==_refl e.id) h)
  where
    unusable :
        (u : Option ℕ)
        → (e.id == e.id) ≡ true
        → (e.id == e.id) && is_none u ≡ false
        → is_some u ≡ true
    unusable none r h = absurd (ground arith)
    unusable (some t) r h = refl

find-mark_used :
    (t : Text) (now : ℕ) (es : List Enrollment) (e : Enrollment)
    → find (by_token t) es ≡ some e
    → IsSpent t (update (is_usable e.id) (use_enrollment now) es)
unfolding find update
find-mark_used t now [] e h = absurd cc
find-mark_used t now (x ∷ es) e h = elim (Bool-cases (text_eq x.token_hash t)) [
  | inl eq ↦
      let same = if-eq-some (text_eq x.token_hash t) x e (find (by_token t) es) eq h in
      (
        marked e.id now x,
        rw (marked_token e.id now x, eq) refl,
        subst (λ y. is_some (marked y.id now x).used_at ≡ true) same (marked_used now x),
      )
  | inr ne ↦
      let (f, found, spent) = find-mark_used t now es e (ground arith) in
      (f, rw (marked_token e.id now x, ne) found, spent)
]

mark_used-eq-done :
    {W : Type 0} (id : ℕ) (s s' : System W)
    → attempt internal_error (mark_used id) s ≡ (done tt, s')
    → s'.db.enrollments ≡ update (is_usable id) (use_enrollment s.now) s.db.enrollments
unfolding attempt mark_used
mark_used-eq-done id s s' h = ap (λ db. db.enrollments) (refused_or-eq-done _ s s' _ tt tt _ h)

Moves-used :
    (u r u' r' : Option ℕ)
    → is_some u ≡ true
    → Moves (phase_of u r) (phase_of u' r')
    → is_some u' ≡ true
Moves-used none r u' r' h k = absurd cc
Moves-used (some t) r (some t') r' h k = refl
Moves-used (some t) r none (some t') h k = absurd cc
Moves-used (some t) r none none h k = absurd cc

refusal_in-used :
    (u r : Option ℕ) (late active : Bool)
    → is_some u ≡ true
    → refusal_in (state_of u r late) active ≡ some gone_used
refusal_in-used (some t) r late active h = refl
refusal_in-used none r late active h = absurd cc

module _ {W : Type 0} (env : Env W) (config : EnrollmentConfig) where
  exchange_for-IsSpent :
      (t : Text) (e : Enrollment) (s s' : System W) (r : ExchangeResult)
      → find (by_token t) s.db.enrollments ≡ some e
      → exchange_for env config (join_enrollment s.now s.db e) s ≡ (done r, s')
      → IsSpent t s'.db.enrollments
  unfolding give
  exchange_for-IsSpent t e s s' r found h =
      let (o, s1, queried, h1) = >>=-eq-done _ _ s s' r h in
      let (tenant, s2, active, h2) = >>=-eq-done (require_active env config o) _ s1 s' r h1 in
      let (issued, s3, issue_done, h3) =
        >>=-eq-done (issue env tenant e.agent_id e.id) _ s2 s' r h2 in
      let (s4, use_done, h4) = >>-eq-done (attempt internal_error (mark_used e.id)) _ s3 s' r h3 in
      let (f, found', evolved) =
        find-Grows t s.db.enrollments s3.db.enrollments e
          (Keeps-eq-done (Since-issue env config s.db.enrollments tenant e.agent_id e.id) issue_done
            (Keeps-eq-done (Since-require_active env config s.db.enrollments o) active (
              Keeps-eq-done {P = Since s.db.enrollments} (Keeps-query _) queried
                (Grows-refl s.db.enrollments))))
          found in
      subst (λ x. IsSpent t x.db.enrollments) (ap (λ q. q.1) h4)
        (subst (IsSpent t) (sym (mark_used-eq-done e.id s3 s4 use_done)) (
          subst (λ id. IsSpent t (update (is_usable id) (use_enrollment s3.now) s3.db.enrollments))
            evolved.same_id (find-mark_used t s3.now s3.db.enrollments f found')))

  exchange_in-IsSpent :
      (t : Text) (s s' : System W) (r : ExchangeResult)
      → exchange_in env config t s ≡ (done r, s')
      → IsSpent t s'.db.enrollments
  unfolding exchange_in ◌>>=◌ execute throw
  exchange_in-IsSpent t s s' r = locked (find (by_token t) s.db.enrollments) refl
    where
      locked :
          (o : Option Enrollment)
          → find (by_token t) s.db.enrollments ≡ o
          → exchange_locked env config (joined_row s.now s.db o) s ≡ (done r, s')
          → IsSpent t s'.db.enrollments
      locked none found h = absurd cc
      locked (some e) found h = exchange_for-IsSpent t e s s' r found (
          throw_if-eq-done _ _ _ s s' r
            (throw_if-eq-done _ _ _ s s' r (throw_if-eq-done _ _ _ s s' r h)))

  -- After a successful exchange, whatever operations have run since, the same token is refused with
  -- enrollment_used, and nothing changes.
  pub exchange_once :
      (token : Text) (s s' s'' : System W) (r : ExchangeResult)
      → exchange env config token s ≡ (done r, s')
      → Later env config s' s''
      → exchange env config token s'' ≡ (failed gone_used, s'')
  unfolding exchange
  exchange_once token s s' s'' r h later =
      let (f, found, spent) =
        exchange_in-IsSpent (env.hash_token token) s s' r (transaction-eq-done _ s s' r h) in
      let (g, found', evolved) =
        find-Grows (env.hash_token token) _ _ f (Later-Grows env config s' s'' later) found in
      exchange_refused env config token s'' gone_used (
        rw found' (
          refusal_in-used g.used_at g.revoked_at _ _
            (Moves-used f.used_at f.revoked_at g.used_at g.revoked_at spent evolved.moves)))
