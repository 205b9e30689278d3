-- ===== src/Endpoints/Traffic.antt =====
-- The rate limit of the routes of src/endpoints under concurrent requests. No await stands in a
-- check, so a pass of `RateLimitDep` is one step; whatever else requests do falls in between.
mod Tests
use prd_api_wrapper.Prelude.{
  ℕ, ◌+◌, ◌≤◌, ◌*◌, String, ◌≡◌, refl, ap, sym, ◌∙◌, Bool, true, false, Option, none, some, List,
  [], ◌∷◌, str_eq, arith, if◌then◌else◌, Bool-cases, inl, inr,
}
use prd_api_wrapper.Time.{ticks_per_second}
use prd_api_wrapper.Errors.Handlers.{RequestState}
use prd_api_wrapper.Exec.{Result, ok, raised}
use prd_api_wrapper.RateLimit.Bucket.{RateLimitDecision}
use prd_api_wrapper.RateLimit.Bucket.Laws.{IsOrdered, was_allowed}
use prd_api_wrapper.RateLimit.Limiter.{InMemoryRateLimiter, check}
use prd_api_wrapper.RateLimit.Limiter.Laws.{answers_for, times_of, count_allowed}
use prd_api_wrapper.RateLimit.Enforce.{check_caller, answer, enforce_rate_limit}
use prd_api_wrapper.Completion.Models.{Caller}
use prd_api_wrapper.Config.{Settings, Waiting, Application, lifespan, create_app}
use prd_api_wrapper.Config.Laws.{create_app-lifespan, create_app_minute}
use prd_api_wrapper.Dependencies.{get_settings, get_rate_limiter}
use prd_api_wrapper.Endpoints.{AppState, Context, Api, limit}

-- What requests do to the state that they share: one passes the limit for its caller, or something
-- else happens: a lookup, a call of a service, a commit.
pub data Event (W : Type 0) : Type 0 where
  passes : Caller → Event W
  other : (AppState W → AppState W) → Event W

abbrev pub opened : {W : Type 0} → AppState W → Context W
opened shared = record {
  shared = shared;
  request = record { request_id = none; response_headers = none };
  response = [];
  pending = λ rows. rows;
}

module _ {W : Type 0} (a : Api W) where
  pub after : Event W → AppState W → AppState W
  after (passes caller) s = (limit a caller (opened s)).1.shared
  after (other f) s = f s

  -- What else happens leaves the limiter alone.
  abbrev pub LeavesLimiter : List (Event W) → Type 0
  LeavesLimiter [] = Unit
  LeavesLimiter (passes caller ∷ es) = LeavesLimiter es
  LeavesLimiter (other f ∷ es) = ((s : AppState W) → (f s).limiter ≡ s.limiter) × LeavesLimiter es

  abbrev went_on : Result (Unit {0}) → ℕ
  went_on (ok _) = 1
  went_on (raised r) = 0

  -- How many requests of a caller go on to the service.
  pub let_through : String → List (Event W) → AppState W → ℕ
  unfolding after
  let_through id [] s = 0
  let_through id (passes caller ∷ es) s =
      let rest = let_through id es (after (passes caller) s) in
      if str_eq caller.id id then went_on (limit a caller (opened s)).0 + rest else rest
  let_through id (other f ∷ es) s = let_through id es (f s)

  -- The checks of the limiter, with the readings of its clock.
  pub checks : List (Event W) → AppState W → List (String × ℕ)
  unfolding after
  checks [] s = []
  checks (passes caller ∷ es) s = (caller.id, a.monotonic s) ∷ checks es (after (passes caller) s)
  checks (other f ∷ es) s = checks es (f s)

  went_on-allowed :
      (caller : Caller) (s : AppState W)
      → a.rate_limit_enabled ≡ true
      → (went_on (limit a caller (opened s)).0
          ≡ was_allowed (check caller.id (a.monotonic s) s.limiter).0)
        × ((after (passes caller) s).limiter ≡ (check caller.id (a.monotonic s) s.limiter).1)
  unfolding limit after enforce_rate_limit check_caller answer
  went_on-allowed caller s on = rw on (ground arith)

  let_through-answers :
      (id : String) (es : List (Event W)) (s : AppState W)
      → a.rate_limit_enabled ≡ true
      → LeavesLimiter es
      → let_through id es s ≡ count_allowed (answers_for id (checks es s) s.limiter)
  unfolding let_through checks answers_for count_allowed
  let_through-answers id [] s on h = refl
  let_through-answers id (passes caller ∷ es) s on h =
      let (went, left) = went_on-allowed caller s on in
      let ih = let_through-answers id es (after (passes caller) s) on h in
      elim (Bool-cases (str_eq caller.id id)) [
        | inl own ↦ rw (own, went, ih, left) refl
        | inr else_ ↦ rw (else_, ih, left) refl
      ]
  let_through-answers id (other f ∷ es) s on (same, h) =
      let_through-answers id es (f s) on h ∙ rw (same s) refl

-- The routes with the settings of the application, which `get_settings` gives to the dependencies.
unfoldable pub with_settings : {S W : Type 0} → Application S → Api W → Api W
with_settings app a = record a {
  require_api_key = (get_settings app).require_api_key;
  rate_limit_enabled = (get_settings app).rate_limit_enabled;
  upstream_model = (get_settings app).upstream_model;
}

-- Once the application has started with the limit on, no more requests of a caller go on to a
-- service in the minute from its first one on than the burst and the requests per minute together,
-- however the requests of all callers interleave with each other and with whatever else goes on, as
-- long as the clock of its checks does not go back and nothing but the checks touches the limiter.
pub let_through_minute :
    {S W : Type 0} (wait : Waiting S) (settings : Settings) (app : Application S) (unset : Api W)
    (id : String) (es : List (Event W)) (s : AppState W) (start stop : ℕ) (times : List ℕ)
    → create_app wait settings ≡ ok app
    → settings.rate_limit_enabled ≡ true
    → s.limiter ≡ get_rate_limiter app
    → LeavesLimiter (with_settings app unset) es
    → times_of id (checks (with_settings app unset) es s) ≡ start ∷ times
    → IsOrdered start stop times
    → stop ≤ start + 60 * ticks_per_second
    → let_through (with_settings app unset) id es s
      ≤ settings.rate_limit_burst + settings.rate_limit_requests_per_minute
unfolding with_settings lifespan
let_through_minute wait settings app unset id es s start stop times made on fresh h e ordered soon =
    let a = with_settings app unset in
    let still : a.rate_limit_enabled ≡ true =
      ap (λ (started : Application _). started.settings.rate_limit_enabled)
        (create_app-lifespan wait settings app made)
      ∙ on in
    let same =
      let_through-answers a id es s still h
      ∙ ap (λ (l : InMemoryRateLimiter). count_allowed (answers_for id (checks a es s) l)) fresh in
    rw same
      (create_app_minute wait settings app id (checks a es s) start stop times made e ordered soon)
