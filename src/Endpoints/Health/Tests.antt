-- ===== src/Endpoints/Health/Tests.antt =====
-- A run of the readiness check.
use prd_api_wrapper.Prelude.{ℕ, suc, ◌≡◌, false, none}
use prd_api_wrapper.Json.{Json}
use prd_api_wrapper.Errors.Handlers.{crash}
use prd_api_wrapper.Exec.{ok, raised}
use prd_api_wrapper.Completion.Upstream.{HttpResponse}
use prd_api_wrapper.Endpoints.Health.{ready, Verdict, ready_verdict}

abbrev fine : HttpResponse
fine = record { status_code = 200; is_error = false; retry_after = none; body = none }

-- The database is down, and the probe of the provider counts.
ready_verdict_example :
    (v : ℕ × Json) × (ready (λ n. (raised (crash "refused"), n)) (λ n. (ok fine, suc n)) 0
      ≡ (ok v, 1))
    × Verdict (raised (crash "refused")) (ok fine) v.0
ready_verdict_example = ready_verdict (λ n. (raised (crash "refused"), n)) (λ n. (ok fine, suc n)) 0
