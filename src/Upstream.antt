-- ===== src/Upstream.antt =====
-- services/control-plane/src/common/http/upstream-client.ts, `UpstreamClient.request`: the loop that sends
-- a request to Keycloak or Grafana. What the upstream answers is an argument: the status of the answer
-- to each sending in turn, or none for a network error. The wait for a retry is counted.
pub mod Ends
mod Tests
use multi_tenant_cloud_obser.Base.{
  ℕ, zero, suc, ◌+◌, Bool, true, false, not, ◌&&◌, ◌||◌, Option, none, some, List, [], ◌∷◌, ltb,
  leb, ◌==◌, if◌then◌else◌, any,
}

pub record UpstreamRequest : Type 0 where
  pub is_get : Bool
  pub accept : List ℕ
  pub auth : Bool

-- The response that the caller gets, or the error that is thrown.
pub data Outcome : Type 0 where
  responded : ℕ → Outcome
  unavailable : Option ℕ → Outcome
  bad_response : ℕ → Outcome

-- The waits before the first and the second retry.
abbrev pub retry_delay : ℕ → ℕ
retry_delay attempt = if attempt == 0 then 200 else 600

abbrev pub max_retries : ℕ
max_retries = 2

abbrev pub unavailable_statuses : List ℕ
unavailable_statuses = 502 ∷ 503 ∷ 504 ∷ []

unfoldable pub can_retry : UpstreamRequest → ℕ → Bool
can_retry req attempt = req.is_get && ltb attempt max_retries

abbrev pub is_ok : ℕ → Bool
is_ok status = leb 200 status && leb status 299

-- What one round of the loop does: it ends, or goes on with a new token or after a wait.
pub data Verdict : Type 0 where
  ends : Outcome → Verdict
  refresh : Verdict
  retry : Verdict

unfoldable pub is_answer : UpstreamRequest → ℕ → Bool
is_answer req status = is_ok status || any (λ s. s == status) req.accept

-- `on_unauthorized` is what the hook of the client says, which some clients override.
unfoldable pub judge : UpstreamRequest → Bool → ℕ → Bool → Option ℕ → Verdict
judge req on_unauthorized attempt refreshed none =
    if can_retry req attempt then retry else ends (unavailable none)
judge req on_unauthorized attempt refreshed (some status) =
    if is_answer req status
    then ends (responded status)
    else if status == 401 && req.auth && not refreshed && on_unauthorized
    then refresh
    else if any (λ s. s == status) unavailable_statuses
    then (if can_retry req attempt then retry else ends (unavailable (some status)))
    else ends (bad_response status)

pub record Report : Type 0 where
  pub outcome : Outcome
  pub sends : ℕ
  pub waited : ℕ

unfoldable pub request_loop :
    UpstreamRequest → Bool → (ℕ → Option ℕ) → ℕ → ℕ → Bool → ℕ → Option Report
request_loop req on_unauthorized send zero attempt refreshed waited = none
request_loop req on_unauthorized send (suc fuel) attempt refreshed waited =
    elim (judge req on_unauthorized attempt refreshed (send attempt)) [
      | ends o ↦ some (record { outcome = o; sends = attempt + 1; waited = waited })
      | refresh ↦ request_loop req on_unauthorized send fuel (attempt + 1) true waited
      | retry ↦
          request_loop req on_unauthorized send fuel (attempt + 1) refreshed
            (waited + retry_delay attempt)
    ]

abbrev pub request_fuel : ℕ
request_fuel = 4

unfoldable pub request : UpstreamRequest → Bool → (ℕ → Option ℕ) → Option Report
request req on_unauthorized send = request_loop req on_unauthorized send request_fuel 0 false 0
