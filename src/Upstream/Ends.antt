-- ===== src/Upstream/Ends.antt =====
-- `UpstreamClient.request`: the loop ends, and how often it sends.
use multi_tenant_cloud_obser.Base.{
  ℕ, zero, suc, ◌+◌, ◌-◌, ◌≤◌, ◌<◌, ◌≡◌, refl, ◌⊎◌, inl, inr, Bool, true, false, not, ◌&&◌, Option,
  none, some, arith, ◌==◌, if◌then◌else◌, if_cases, any,
}
use multi_tenant_cloud_obser.Upstream.{
  UpstreamRequest, Outcome, responded, unavailable, bad_response, retry_delay, unavailable_statuses,
  can_retry, Verdict, ends, refresh, retry, is_answer, judge, Report, request_loop, request_fuel,
  request,
}

-- How many more sendings there can be after one.
abbrev pub budget : Bool → ℕ → Bool → ℕ
budget is_get attempt refreshed = (if is_get then 2 - attempt else 0) + (if refreshed then 0 else 1)

-- What an outcome says of the last answer.
abbrev pub Explains : UpstreamRequest → Option ℕ → Outcome → Type 0
Explains req answer (responded s) = (answer ≡ some s) × (is_answer req s ≡ true)
Explains req answer (unavailable none) = answer ≡ none
Explains req answer (unavailable (some s)) =
    (answer ≡ some s) × (is_answer req s ≡ false) × (any (λ t. t == s) unavailable_statuses ≡ true)
Explains req answer (bad_response s) =
    (answer ≡ some s) × (is_answer req s ≡ false) × (any (λ t. t == s) unavailable_statuses ≡ false)

-- What a verdict says of the round that it stands for.
abbrev pub Judged : UpstreamRequest → ℕ → Bool → Option ℕ → Verdict → Type 0
Judged req attempt refreshed answer (ends o) = Explains req answer o
Judged req attempt refreshed answer refresh =
    (refreshed ≡ false) × (answer ≡ some 401) × (req.auth ≡ true)
Judged req attempt refreshed answer retry = can_retry req attempt ≡ true

judge-Judged :
    (req : UpstreamRequest) (hook : Bool) (attempt : ℕ) (refreshed : Bool) (answer : Option ℕ)
    → Judged req attempt refreshed answer (judge req hook attempt refreshed answer)
unfolding judge
judge-Judged req hook attempt refreshed none =
    if_cases (Judged req attempt refreshed none) (can_retry req attempt) retry
      (ends (unavailable none)) (λ e. e) (λ e. refl)
judge-Judged req hook attempt refreshed (some s) =
    if_cases (Judged req attempt refreshed (some s)) (is_answer req s) _ _ (λ e. (refl, e))
      λ no.
        if_cases (Judged req attempt refreshed (some s))
          (s == 401 && req.auth && not refreshed && hook) _ _ (λ e. ground arith)
          λ other.
            if_cases (Judged req attempt refreshed (some s))
              (any (λ t. t == s) unavailable_statuses) _ _
              (λ down.
                if_cases (Judged req attempt refreshed (some s)) (can_retry req attempt) _ _
                  (λ e. e) (λ e. (refl, no, down)))
              (λ up. (refl, no, up))

budget-refresh :
    (is_get : Bool) (attempt : ℕ) (refreshed : Bool)
    → refreshed ≡ false
    → budget is_get (attempt + 1) true + 1 ≤ budget is_get attempt refreshed
budget-refresh true attempt false h = omega arith
budget-refresh false attempt false h = omega arith
budget-refresh is_get attempt true h = cc

budget-retry :
    (req : UpstreamRequest) (attempt : ℕ) (refreshed : Bool)
    → can_retry req attempt ≡ true
    → budget req.is_get (attempt + 1) refreshed + 1 ≤ budget req.is_get attempt refreshed
unfolding can_retry
budget-retry req attempt refreshed h = ground arith

module _ (req : UpstreamRequest) (hook : Bool) (send : ℕ → Option ℕ) where
  -- A run that has ended: within its budget, with an outcome that its last answer explains.
  abbrev pub EndsWithin : ℕ → Option Report → Type 0
  EndsWithin most r =
      (report : Report) × (r ≡ some report)
      × (report.sends ≤ most)
      × (last : ℕ) × (report.sends ≡ last + 1)
      × Explains req (send last) report.outcome

  widen : (m n : ℕ) (r : Option Report) → m ≤ n → EndsWithin m r → EndsWithin n r
  widen m n r le (report, e, within, last, el, ex) =
      (report, e, omega (arith, within, le), last, el, ex)

  round_ends :
      (fuel attempt : ℕ) (refreshed : Bool) (waited : ℕ) (v : Verdict)
      → Judged req attempt refreshed (send attempt) v
      → ((r : Bool) (w : ℕ)
          → budget req.is_get (attempt + 1) r < fuel
          → EndsWithin
              (attempt + 1 + budget req.is_get (attempt + 1) r + 1)
              (request_loop req hook send fuel (attempt + 1) r w))
      → budget req.is_get attempt refreshed < suc fuel
      → EndsWithin (attempt + budget req.is_get attempt refreshed + 1) (elim v [
        | ends o ↦ some (record { outcome = o; sends = attempt + 1; waited = waited })
        | refresh ↦ request_loop req hook send fuel (attempt + 1) true waited
        | retry ↦
            request_loop req hook send fuel (attempt + 1) refreshed (waited + retry_delay attempt)
      ])
  unfolding can_retry
  round_ends fuel attempt refreshed waited (ends o) j ih h = (
    record { outcome = o; sends = attempt + 1; waited = waited },
    refl,
    omega arith,
    attempt,
    refl,
    j,
  )
  round_ends fuel attempt refreshed waited refresh j ih h =
      let less = budget-refresh req.is_get attempt refreshed j.0 in
      widen _ _ _ (omega (arith, less)) (ih true waited (omega (arith, less, h)))
  round_ends fuel attempt refreshed waited retry j ih h =
      let less = budget-retry req attempt refreshed j in
      widen _ _ _ (omega (arith, less))
        (ih refreshed (waited + retry_delay attempt) (omega (arith, less, h)))

  loop_ends :
      (fuel attempt : ℕ) (refreshed : Bool) (waited : ℕ)
      → budget req.is_get attempt refreshed < fuel
      → EndsWithin
          (attempt + budget req.is_get attempt refreshed + 1)
          (request_loop req hook send fuel attempt refreshed waited)
  unfolding request_loop
  loop_ends zero attempt refreshed waited h = absurd (omega arith)
  loop_ends (suc fuel) attempt refreshed waited h =
      round_ends fuel attempt refreshed waited (judge req hook attempt refreshed (send attempt))
        (judge-Judged req hook attempt refreshed (send attempt))
        (λ r w. loop_ends fuel (attempt + 1) r w) h

-- Every request ends after at most four sendings, two if it is not a GET, whatever the upstream
-- answers and whether or not a token can be refreshed; and the outcome is explained by the last
-- answer: a response that the caller takes, an unavailable upstream after a network error or a status
-- of unavailability, and a bad response else.
pub request-ends :
    (req : UpstreamRequest) (on_unauthorized : Bool) (send : ℕ → Option ℕ)
    → (report : Report) × (request req on_unauthorized send ≡ some report)
      × (report.sends ≤ (if req.is_get then 4 else 2))
      × (last : ℕ) × (report.sends ≡ last + 1)
      × Explains req (send last) report.outcome
unfolding request
request-ends req hook send =
    widen req hook send _ _ _ (within req.is_get)
      (loop_ends req hook send request_fuel 0 false 0 (enough req.is_get))
  where
    enough : (is_get : Bool) → budget is_get 0 false < request_fuel
    enough true = omega arith
    enough false = omega arith

    within : (is_get : Bool) → 0 + budget is_get 0 false + 1 ≤ (if is_get then 4 else 2)
    within true = omega arith
    within false = omega arith

not_retried :
    (req : UpstreamRequest) (attempt : ℕ) → req.is_get ≡ false → can_retry req attempt ≡ true → ⊥
unfolding can_retry
not_retried req attempt e h = ground arith

-- A request that is not a GET is sent again only after an answer of 401 to its first sending, and
-- without a wait: never after an answer that may stand for a change already made.
pub request_sent_again :
    (req : UpstreamRequest) (on_unauthorized : Bool) (send : ℕ → Option ℕ) (report : Report)
    → req.is_get ≡ false
    → request req on_unauthorized send ≡ some report
    → (report.sends ≡ 1)
      ⊎ ((report.sends ≡ 2) × (send 0 ≡ some 401) × (req.auth ≡ true) × (report.waited ≡ 0))
unfolding request request_loop
request_sent_again req hook send report no_get h =
    first (judge req hook 0 false (send 0)) (judge-Judged req hook 0 false (send 0)) h
  where
    second :
        (v : Verdict)
        → Judged req 1 true (send 1) v
        → elim v [
          | ends o ↦ some (record { outcome = o; sends = 2; waited = 0 })
          | refresh ↦ request_loop req hook send 2 2 true 0
          | retry ↦ request_loop req hook send 2 2 true (retry_delay 1)
        ]
          ≡ some report
        → (report.sends ≡ 2) × (report.waited ≡ 0)
    second (ends o) j h' = (cc, cc)
    second refresh j h' = cc (j.0)
    second retry j h' = absurd (not_retried req 1 no_get j)

    first :
        (v : Verdict)
        → Judged req 0 false (send 0) v
        → elim v [
          | ends o ↦ some (record { outcome = o; sends = 1; waited = 0 })
          | refresh ↦ request_loop req hook send 3 1 true 0
          | retry ↦ request_loop req hook send 3 1 false (retry_delay 0)
        ]
          ≡ some report
        → (report.sends ≡ 1)
          ⊎ ((report.sends ≡ 2) × (send 0 ≡ some 401) × (req.auth ≡ true) × (report.waited ≡ 0))
    first (ends o) j h' = inl cc
    first retry j h' = absurd (not_retried req 0 no_get j)
    first refresh j h' =
        let (two, quick) =
          second (judge req hook 1 true (send 1)) (judge-Judged req hook 1 true (send 1)) h' in
        inr (two, j.1, j.2, quick)
