-- ===== src/Config/Laws.antt =====
-- What the settings of src/configuration.py promise once the application has started.
use prd_api_wrapper.Prelude.{ℕ, zero, suc, ◌+◌, ◌-◌, ◌*◌, ◌≤◌, String, ◌≡◌, ap, List, ◌∷◌, arith}
use prd_api_wrapper.Time.{ticks_per_second}
use prd_api_wrapper.Exec.{ok}
use prd_api_wrapper.RateLimit.Limiter
use prd_api_wrapper.RateLimit.Bucket.Laws.{IsOrdered}
use prd_api_wrapper.RateLimit.Limiter.Laws.{answers_for, times_of, count_allowed, caller_bound}
use prd_api_wrapper.Config.{
  Settings, Waiting, Application, check_production_settings, lifespan, create_app,
}

mul_le : (a b c : ℕ) → a ≤ b → a * c ≤ b * c
mul_le a b zero h = omega arith
mul_le a b (suc c) h = omega (arith, mul_le a b c h)

within_minute :
    (count burst span gained : ℕ)
    → count * 60_000_000_000 ≤ burst * 60_000_000_000 + span * gained
    → span ≤ 60_000_000_000
    → count ≤ burst + gained
within_minute count burst span gained h short =
    omega (arith, mul_le span 60_000_000_000 gained short)

pub create_app-lifespan :
    {S : Type 0} (wait : Waiting S) (settings : Settings) (app : Application S)
    → create_app wait settings ≡ ok app
    → app ≡ lifespan wait settings
unfolding create_app check_production_settings
create_app-lifespan wait settings app h = ground arith

create_app-limiter :
    {S : Type 0} (wait : Waiting S) (settings : Settings) (app : Application S)
    → create_app wait settings ≡ ok app
    → app.rate_limiter
      ≡ Limiter.init settings.rate_limit_burst
          (record { gained = settings.rate_limit_requests_per_minute; per = 60 * ticks_per_second })
unfolding lifespan
create_app-limiter wait settings app h =
    ap (λ (made : Application _). made.rate_limiter) (create_app-lifespan wait settings app h)

-- Once the application has started, no caller gets more requests through in the minute from its
-- first one on than the burst and the requests per minute together, if its checks are in the order
-- of time, whatever other callers do.
pub create_app_minute :
    {S : Type 0} (wait : Waiting S) (settings : Settings) (app : Application S) (key : String)
    (checks : List (String × ℕ)) (start stop : ℕ) (times : List ℕ)
    → create_app wait settings ≡ ok app
    → times_of key checks ≡ start ∷ times
    → IsOrdered start stop times
    → stop ≤ start + 60 * ticks_per_second
    → count_allowed (answers_for key checks app.rate_limiter)
      ≤ settings.rate_limit_burst + settings.rate_limit_requests_per_minute
create_app_minute wait settings app key checks start stop times made e ordered soon =
    rw (create_app-limiter wait settings app made) (
      within_minute _ settings.rate_limit_burst (stop - start)
        settings.rate_limit_requests_per_minute
        (caller_bound key checks settings.rate_limit_burst
          (record { gained = settings.rate_limit_requests_per_minute; per = 60 * ticks_per_second })
          start stop times e ordered)
        (omega arith))
