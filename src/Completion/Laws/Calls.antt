-- ===== src/Completion/Laws/Calls.antt =====
-- What `complete` of src/services/completion.py answers, and the usage that it records.
use prd_api_wrapper.Prelude.{ℕ, ◌≡◌, refl, String, List, [], ◌∷◌, ◌++◌, pos, ap}
use mathlib.Core.List.{append-nil}
use prd_api_wrapper.Time.{milliseconds}
use prd_api_wrapper.Errors.{class_status}
use prd_api_wrapper.Errors.Handlers.{app, crash, invalid_request}
use prd_api_wrapper.Exec.{Result, ok, raised}
use prd_api_wrapper.Resilience.Retry.{run}
use prd_api_wrapper.Completion.Models.{Caller, CompletionRequest, CompletionResponse, UsageEntry}
use prd_api_wrapper.Completion.Service.{
  State, Service, guarded_call, complete, account, record_usage, payload, model_for,
  in_memory_record,
}

-- The usage rows of a call that ended so: one for an answer or an error of ours, and none for any
-- other exception.
abbrev pub billed : Caller → String → ℕ → Result CompletionResponse → List UsageEntry
billed caller model duration (ok r) =
    record {
      api_key_id = caller.id;
      model = model;
      status_code = 200;
      duration_ms = duration;
      prompt_tokens = r.usage.prompt_tokens;
      completion_tokens = r.usage.completion_tokens;
    }
    ∷ []
billed caller model duration (raised (app e)) =
    record {
      api_key_id = caller.id;
      model = model;
      status_code = class_status e.kind;
      duration_ms = duration;
      prompt_tokens = pos 0;
      completion_tokens = pos 0;
    }
    ∷ []
billed caller model duration (raised (crash m)) = []
billed caller model duration (raised (invalid_request v)) = []

module _ {W : Type 0} (c : Service W) (caller : Caller) where
  account-result :
      (model : String) (started : ℕ) (r : Result CompletionResponse) (s : State W)
      → (account c caller model started (r, s)).0 ≡ r
  unfolding account
  account-result model started (ok r) s = refl
  account-result model started (raised (app e)) s = refl
  account-result model started (raised (crash m)) s = refl
  account-result model started (raised (invalid_request v)) s = refl

  account-entries :
      (model : String) (started : ℕ) (r : Result CompletionResponse) (s : State W)
      → ((entry : UsageEntry) (t : State W) → c.store entry t ≡ in_memory_record entry t)
      → (account c caller model started (r, s)).1.entries
        ≡ s.entries ++ billed caller model (milliseconds started (c.clock s)) r
  unfolding account record_usage in_memory_record
  account-entries model started (ok r) s h =
      ap (λ (o : Result (Unit {0}) × State W). o.1.entries) (h _ s)
  account-entries model started (raised (app e)) s h =
      ap (λ (o : Result (Unit {0}) × State W). o.1.entries) (h _ s)
  account-entries model started (raised (crash m)) s h = rw append-nil
  account-entries model started (raised (invalid_request v)) s h = rw append-nil

  -- A completion is answered as the retried call was, whatever the usage store does: it may fail
  -- or lose the row and neither changes the answer nor raises.
  pub complete-result :
      (request : CompletionRequest) (s : State W)
      → (complete c request caller s).0
        ≡ (run c.retry
            (guarded_call c (payload (model_for c request) request) (model_for c request))
            s).0
  unfolding complete
  complete-result request s = account-result (model_for c request) (c.clock s) _ _

  -- With the store in memory, a completion adds one usage row at the end, for its caller and its
  -- model, with 200 and the tokens of the answer, or with the status of the error and no tokens. A
  -- call that ends in an exception that is none of ours adds none.
  pub complete-entries :
      (request : CompletionRequest) (s : State W)
      → ((entry : UsageEntry) (t : State W) → c.store entry t ≡ in_memory_record entry t)
      → let model = model_for c request in
        let (r, t) = run c.retry (guarded_call c (payload model request) model) s in
        (complete c request caller s).1.entries
        ≡ t.entries ++ billed caller model (milliseconds (c.clock s) (c.clock t)) r
  unfolding complete
  complete-entries request s h = account-entries (model_for c request) (c.clock s) _ _ h
