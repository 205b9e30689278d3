-- ===== src/Completion/Laws/Guard.antt =====
-- The circuit breaker around the calls of src/services/completion.py.
use prd_api_wrapper.Prelude.{
  ℕ, ◌+◌, ◌<◌, ◌≤◌, ◌≡◌, ◌≢◌, refl, ◌⊎◌, true, false, arith, String, none, inl, inr, ◌∙◌,
  Bool-cases,
}
use prd_api_wrapper.Json.{Json}
use prd_api_wrapper.Errors.{ErrorClass, class_status, new, no_args}
use prd_api_wrapper.Errors.Handlers.{app, crash, invalid_request}
use prd_api_wrapper.Exec.{Result, ok, raised}
use prd_api_wrapper.Resilience.Retry.{run}
use prd_api_wrapper.Resilience.Retry.Loop.{run_keeps}
use prd_api_wrapper.Resilience.Retry.Laws.{run_final}
use prd_api_wrapper.Resilience.Breaker.{CircuitBreaker, opened, half_open, before_call}
use prd_api_wrapper.Resilience.Breaker.Events.{
  IsValid, after, before, success, failure, after-IsValid,
}
use prd_api_wrapper.Completion.Models.{Caller, CompletionRequest, CompletionResponse, UsageEntry}
use prd_api_wrapper.Completion.Upstream.{HttpResponse, as_app_error}
use prd_api_wrapper.Completion.Laws.{as_app_error_policy}
use prd_api_wrapper.Completion.Service.{
  State, Service, answered, read_posted, call_upstream, observe, proceed, guarded_call, complete,
  account, record_usage, payload, model_for,
}

module _ {W : Type 0} (c : Service W) where
  -- What other requests and the outside may do to the breaker during an await keeps it valid.
  pub record KeepsBreaker : Type 0 where
    pub posts : (body : Json) (s : State W) → IsValid s.breaker → IsValid (c.post body s).1.breaker
    pub sleeps : (d : ℕ) (s : State W) → IsValid s.breaker → IsValid (c.retry.sleep d s).breaker
    pub jitters : (s : State W) → IsValid s.breaker → IsValid (c.retry.jitter s).1.breaker

  refused_call :
      (body : Json) (model : String) (s : State W)
      → s.breaker.state ≡ opened
      → c.clock s < s.breaker.reset_timeout + s.breaker.opened_at
      → guarded_call c body model s
        ≡ (raised (app (new ErrorClass.upstream_circuit_open no_args)), s)
  unfolding guarded_call before_call
  refused_call body model s o h = ground arith

  -- While the circuit is open and cooling off a completion fails at once with
  -- `upstream_circuit_open`: the provider is not called, nothing is retried, and all that happens
  -- is the record of the failure, with 503.
  pub complete_paused :
      (request : CompletionRequest) (caller : Caller) (s : State W)
      → s.breaker.state ≡ opened
      → c.clock s < s.breaker.reset_timeout + s.breaker.opened_at
      → complete c request caller s ≡ (
        raised (app (new ErrorClass.upstream_circuit_open no_args)),
        record_usage c caller (model_for c request) 503 (c.clock s) none s,
      )
  unfolding complete class_status
  complete_paused request caller s o h =
      let model = model_for c request in
      let refused = refused_call (payload model request) model s o h in
      let ended =
        run_final c.retry (guarded_call c (payload model request) model) s
          (rw refused (unfold new in refl)) in
      rw (ended, refused) (unfold new in refl)

  observe-IsValid :
      (r : Result CompletionResponse) (s : State W)
      → IsValid s.breaker
      → IsValid (observe c (r, s)).1.breaker
  unfolding observe after
  observe-IsValid (ok response) s h = after-IsValid success s.breaker h
  observe-IsValid (raised (crash m)) s h = h
  observe-IsValid (raised (invalid_request v)) s h = h
  observe-IsValid (raised (app e)) s h = elim (Bool-cases e.retryable) [
    | inl y ↦ rw y (after-IsValid (failure (c.clock s)) s.breaker h)
    | inr n ↦ rw n h
  ]

  account-IsValid :
      (caller : Caller) (model : String) (started : ℕ)
      → ((entry : UsageEntry) (t : State W) → (c.store entry t).1.breaker ≡ t.breaker)
      → (r : Result CompletionResponse) (s : State W) → IsValid s.breaker
      → IsValid (account c caller model started (r, s)).1.breaker
  unfolding account record_usage
  account-IsValid caller model started stores (ok response) s h = rw stores h
  account-IsValid caller model started stores (raised (app e)) s h = rw stores h
  account-IsValid caller model started stores (raised (crash m)) s h = h
  account-IsValid caller model started stores (raised (invalid_request v)) s h = h

  module _ (keeps : KeepsBreaker) where
    proceed-IsValid :
        (body : Json) (model : String) (s : State W) (r : Result (Unit {0})) (b : CircuitBreaker)
        → IsValid b
        → IsValid (proceed c body model s (r, b)).1.breaker
    unfolding call_upstream
    proceed-IsValid body model s (ok t) b h =
        observe-IsValid (call_upstream c body model (record s { breaker = b })).0
          (c.post body (record s { breaker = b })).1 (keeps.posts body (record s { breaker = b }) h)
    proceed-IsValid body model s (raised e) b h = h

    guarded_call-IsValid :
        (body : Json) (model : String) (s : State W)
        → IsValid s.breaker
        → IsValid (guarded_call c body model s).1.breaker
    unfolding guarded_call after
    guarded_call-IsValid body model s h =
        proceed-IsValid body model s (before_call (c.clock s) s.breaker).0
          (before_call (c.clock s) s.breaker).1 (after-IsValid (before (c.clock s)) s.breaker h)

    -- Through any number of attempts of a completion the breaker stays valid: a circuit that is
    -- closed has counted fewer failures than its threshold, whatever other requests record during
    -- the waits, if they keep it so, and as long as the usage store leaves the breaker alone.
    pub complete-IsValid :
        (request : CompletionRequest) (caller : Caller) (s : State W)
        → ((entry : UsageEntry) (t : State W) → (c.store entry t).1.breaker ≡ t.breaker)
        → IsValid s.breaker
        → IsValid (complete c request caller s).1.breaker
    unfolding complete account record_usage
    complete-IsValid request caller s stores h =
        let model = model_for c request in
        let kept =
          run_keeps c.retry (λ (t : State W). IsValid t.breaker) keeps.jitters keeps.sleeps
            (guarded_call c (payload model request) model)
            (guarded_call-IsValid (payload model request) model) s h in
        account-IsValid caller model (c.clock s) stores
          (run c.retry (guarded_call c (payload model request) model) s).0
          (run c.retry (guarded_call c (payload model request) model) s).1 kept

  -- The next call is a trial: the circuit is half open, or it is open and has cooled off.
  abbrev pub IsOnTrial : ℕ → CircuitBreaker → Type 0
  IsOnTrial now b =
      (b.state ≡ half_open) ⊎ ((b.state ≡ opened) × (b.reset_timeout + b.opened_at ≤ now))

  abbrev pub on_trial : CircuitBreaker → CircuitBreaker
  on_trial b = record b { state = half_open }

  trial_admits :
      (b : CircuitBreaker) (now : ℕ) → IsOnTrial now b → before_call now b ≡ (ok tt, on_trial b)
  unfolding before_call
  trial_admits b now (inl o) = ground arith
  trial_admits b now (inr (o, cooled)) = ground arith

  -- A response that is the client's own mistake.
  abbrev pub IsRejection : HttpResponse → Type 0
  IsRejection response =
      (response.is_error ≡ true)
      × (400 ≤ response.status_code)
      × (response.status_code < 500)
      × (response.status_code ≢ 429)

  rejected_trial :
      (body : Json) (model : String) (s t : State W) (response : HttpResponse)
      → IsOnTrial (c.clock s) s.breaker
      → c.post body (record s { breaker = on_trial s.breaker }) ≡ (answered response, t)
      → IsRejection response
      → (guarded_call c body model s ≡ (raised (app (as_app_error c.runtime response model)), t))
        × ((as_app_error c.runtime response model).retryable ≡ false)
  unfolding guarded_call call_upstream observe read_posted as_app_error
  rejected_trial body model s t response trial posted (bad, low, high, other) =
      let e = as_app_error c.runtime response model in
      let final : e.retryable ≡ false =
        (as_app_error_policy c.runtime response model low).0 ∙ ground arith in
      (rw (trial_admits s.breaker (c.clock s) trial, posted, bad, final) refl, final)

  -- Known gap: a completion whose call is the trial of the circuit, half open or open and cooled
  -- off, and which the provider answers with an error below 500 other than 429, fails with that
  -- error and leaves the circuit half open: it records neither that the provider is healthy nor that
  -- it is not, and each later call is let through at any time as another trial. It is assumed that
  -- nothing else changes the circuit meanwhile.
  pub trial_without_verdict :
      (request : CompletionRequest) (caller : Caller) (s t : State W) (response : HttpResponse)
      → IsOnTrial (c.clock s) s.breaker
      → c.post (payload (model_for c request) request) (record s { breaker = on_trial s.breaker })
        ≡ (answered response, t)
      → t.breaker ≡ on_trial s.breaker
      → IsRejection response
      → ((entry : UsageEntry) (u : State W) → (c.store entry u).1.breaker ≡ u.breaker)
      → let (r, u) = complete c request caller s in
        (r ≡ raised (app (as_app_error c.runtime response (model_for c request))))
        × (u.breaker ≡ on_trial s.breaker)
        × ((now : ℕ) → before_call now u.breaker ≡ (ok tt, on_trial s.breaker))
  unfolding complete account record_usage
  trial_without_verdict request caller s t response trial posted quiet rejection stores =
      let model = model_for c request in
      let (called, final) =
        rejected_trial (payload model request) model s t response trial posted rejection in
      let ended =
        run_final c.retry (guarded_call c (payload model request) model) s (rw called final) in
      let left = stores _ t ∙ quiet in
      rw (ended, called)
        (refl, left, λ now. rw left (trial_admits (on_trial s.breaker) now (inl refl)))
