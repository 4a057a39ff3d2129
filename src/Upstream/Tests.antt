-- ===== src/Upstream/Tests.antt =====
-- The loop of requests against concrete answers.
use multi_tenant_cloud_obser.Base.{
  ℕ, ◌+◌, ◌≤◌, ◌≡◌, ◌⊎◌, refl, true, false, Option, none, some, [], if◌then◌else◌, ◌==◌, any,
}
use multi_tenant_cloud_obser.Upstream.{
  UpstreamRequest, responded, unavailable, can_retry, is_answer, judge, Report, request_loop,
  request,
}
use multi_tenant_cloud_obser.Upstream.Ends.{Explains, request-ends, request_sent_again}

loop : Unit {0}
unfolding request request_loop judge is_answer can_retry any
loop = tt

abbrev read : UpstreamRequest
read = record { is_get = true; accept = []; auth = true }

abbrev write : UpstreamRequest
write = record { is_get = false; accept = []; auth = true }

-- A network error, a token that has run out, and then an answer.
abbrev flaky : ℕ → Option ℕ
flaky n = if n == 0 then none else if n == 1 then some 401 else some 200

abbrev expired : ℕ → Option ℕ
expired n = if n == 0 then some 401 else some 503

read_twice_more :
    request read true flaky ≡ some (record { outcome = responded 200; sends = 3; waited = 200 })
unfolding loop
read_twice_more = refl

abbrev given_up : Report
given_up = record { outcome = unavailable (some 503); sends = 2; waited = 0 }

write_again : request write true expired ≡ some given_up
unfolding loop
write_again = refl

request-ends_example :
    (report : Report) × (request read true flaky ≡ some report)
    × (report.sends ≤ 4)
    × (last : ℕ) × (report.sends ≡ last + 1)
    × Explains read (flaky last) report.outcome
request-ends_example = request-ends read true flaky

request_sent_again_example :
    (given_up.sends ≡ 1)
    ⊎ ((given_up.sends ≡ 2) × (expired 0 ≡ some 401) × (write.auth ≡ true) × (given_up.waited ≡ 0))
request_sent_again_example = request_sent_again write true expired given_up refl write_again
