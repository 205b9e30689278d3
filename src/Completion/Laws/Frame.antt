-- ===== src/Completion/Laws/Frame.antt =====
-- What a completion of src/services/completion.py leaves as it was, outside of the breaker and the
-- usage rows.
use prd_api_wrapper.Prelude.{ℕ, String, inl, inr, Bool-cases}
use prd_api_wrapper.Json.{Json}
use prd_api_wrapper.Errors.Handlers.{app, crash, invalid_request}
use prd_api_wrapper.Exec.{Result, ok, raised}
use prd_api_wrapper.Resilience.Retry.{run}
use prd_api_wrapper.Resilience.Retry.Loop.{run_keeps}
use prd_api_wrapper.Resilience.Breaker.{CircuitBreaker, before_call}
use prd_api_wrapper.Completion.Models.{Caller, CompletionRequest, CompletionResponse, UsageEntry}
use prd_api_wrapper.Completion.Service.{
  State, Service, call_upstream, observe, proceed, guarded_call, complete, account, record_usage,
  payload, model_for,
}

module _ {W : Type 0} (c : Service W) (P : W → Type 0) where
  -- The calls that leave the process keep `P`.
  pub record KeepsWorld : Type 0 where
    pub posts : (body : Json) (s : State W) → P s.world → P (c.post body s).1.world
    pub sleeps : (d : ℕ) (s : State W) → P s.world → P (c.retry.sleep d s).world
    pub jitters : (s : State W) → P s.world → P (c.retry.jitter s).1.world
    pub stores : (entry : UsageEntry) (s : State W) → P s.world → P (c.store entry s).1.world

  observe-world :
      (r : Result CompletionResponse) (s : State W) → P s.world → P (observe c (r, s)).1.world
  unfolding observe
  observe-world (ok response) s h = h
  observe-world (raised (crash m)) s h = h
  observe-world (raised (invalid_request v)) s h = h
  observe-world (raised (app e)) s h = elim (Bool-cases e.retryable) [
    | inl y ↦ rw y h
    | inr n ↦ rw n h
  ]

  module _ (keeps : KeepsWorld) where
    proceed-world :
        (body : Json) (model : String) (s : State W) (r : Result (Unit {0})) (b : CircuitBreaker)
        → P s.world
        → P (proceed c body model s (r, b)).1.world
    unfolding call_upstream
    proceed-world body model s (ok t) b h =
        observe-world (call_upstream c body model (record s { breaker = b })).0
          (c.post body (record s { breaker = b })).1 (keeps.posts body (record s { breaker = b }) h)
    proceed-world body model s (raised e) b h = h

    account-world :
        (caller : Caller) (model : String) (started : ℕ) (r : Result CompletionResponse)
        (s : State W)
        → P s.world
        → P (account c caller model started (r, s)).1.world
    unfolding account record_usage
    account-world caller model started (ok response) s h = keeps.stores _ s h
    account-world caller model started (raised (app e)) s h = keeps.stores _ s h
    account-world caller model started (raised (crash m)) s h = h
    account-world caller model started (raised (invalid_request v)) s h = h

    pub complete_keeps :
        (request : CompletionRequest) (caller : Caller) (s : State W)
        → P s.world
        → P (complete c request caller s).1.world
    unfolding complete guarded_call
    complete_keeps request caller s h =
        let model = model_for c request in
        let called = guarded_call c (payload model request) model in
        account-world caller model (c.clock s) (run c.retry called s).0 (run c.retry called s).1 (
          run_keeps c.retry (λ (t : State W). P t.world) keeps.jitters keeps.sleeps called
            (λ t k.
              proceed-world (payload model request) model t (before_call (c.clock t) t.breaker).0
                (before_call (c.clock t) t.breaker).1 k)
            s h)
