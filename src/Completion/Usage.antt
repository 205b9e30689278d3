-- ===== src/Completion/Usage.antt =====
-- `PostgresUsageRepository` of src/repositories/usage.py, and the usage that
-- src/services/completion.py records with it.
use prd_api_wrapper.Prelude.{
  ℕ, String, ◌≡◌, refl, ◌∙◌, Bool, true, false, ◌&&◌, List, [], ◌∷◌, ◌++◌, ap, if◌then◌else◌,
}
use mathlib.Core.List.{append-nil}
use prd_api_wrapper.Time.{milliseconds}
use prd_api_wrapper.Errors.Handlers.{app, crash, invalid_request}
use prd_api_wrapper.Exec.{Result, ok, raised, Exec}
use prd_api_wrapper.Resilience.Retry.{run}
use prd_api_wrapper.Auth.Keys.{ApiKey}
use prd_api_wrapper.Database.{fits_usage, has_key, checked}
use prd_api_wrapper.Completion.Models.{Caller, CompletionRequest, CompletionResponse, UsageEntry}
use prd_api_wrapper.Completion.Service.{
  State, Service, guarded_call, complete, account, record_usage, payload, model_for,
}
use prd_api_wrapper.Completion.Laws.Calls.{billed, complete-result}

-- The row's own transaction: it is written whole, or not at all and the error is raised.
abbrev pub commit_usage : {W : Type 0} → Result (Unit {0}) → UsageEntry → Exec (State W) (Unit {0})
commit_usage (ok _) e s = (ok tt, record s { entries = s.entries ++ e ∷ [] })
commit_usage (raised r) e s = (raised r, s)

-- `PostgresUsageRepository.record`, over the table of keys that the world holds.
unfoldable pub record_postgres :
    {W : Type 0} → (W → List ApiKey) → UsageEntry → Exec (State W) (Unit {0})
record_postgres keys e s =
    commit_usage (checked (fits_usage e) (has_key e.api_key_id (keys s.world))) e s

-- The rows that the table takes.
abbrev pub taken : List ApiKey → List UsageEntry → List UsageEntry
taken keys [] = []
taken keys (e ∷ es) =
    if fits_usage e && has_key e.api_key_id keys then e ∷ taken keys es else taken keys es

commit_usage_state :
    {W : Type 0} (fits keyed : Bool) (e : UsageEntry) (s : State W)
    → (commit_usage (checked fits keyed) e s).1
      ≡ record s { entries = s.entries ++ (if fits && keyed then e ∷ [] else []) }
commit_usage_state true true e s = refl
commit_usage_state true false e s = rw append-nil refl
commit_usage_state false keyed e s = rw append-nil refl

-- The row is added if the table takes it, and nothing else changes.
pub record_postgres_state :
    {W : Type 0} (keys : W → List ApiKey) (e : UsageEntry) (s : State W)
    → (record_postgres keys e s).1
      ≡ record s { entries = s.entries ++ taken (keys s.world) (e ∷ []) }
unfolding record_postgres
record_postgres_state keys e s = commit_usage_state _ _ e s

module _ {W : Type 0} (c : Service W) (keys : W → List ApiKey) (caller : Caller) where
  account_postgres :
      (model : String) (started : ℕ) (r : Result CompletionResponse) (s : State W)
      → ((entry : UsageEntry) (t : State W) → c.store entry t ≡ record_postgres keys entry t)
      → (account c caller model started (r, s)).1.entries
        ≡ s.entries
          ++ taken (keys s.world) (billed caller model (milliseconds started (c.clock s)) r)
  unfolding account record_usage record_postgres
  account_postgres model started (ok response) s h =
      ap (λ (o : Result (Unit {0}) × State W). o.1.entries) (h _ s)
      ∙ ap (λ (t : State W). t.entries) (record_postgres_state keys _ s)
  account_postgres model started (raised (app e)) s h =
      ap (λ (o : Result (Unit {0}) × State W). o.1.entries) (h _ s)
      ∙ ap (λ (t : State W). t.entries) (record_postgres_state keys _ s)
  account_postgres model started (raised (crash m)) s h = rw append-nil
  account_postgres model started (raised (invalid_request v)) s h = rw append-nil

  -- With the usage in Postgres, a completion is answered as the retried call was, whether or not
  -- its row is taken, and adds at most one row at the end: none for an exception that is none of
  -- our errors, none for a caller that has no key in the table, such as the anonymous one, none
  -- where the row does not fit the columns of its table, such as by a model that is too long or has
  -- a NUL, or by a token count or a duration out of range, and else the one for the call.
  pub complete_postgres :
      (request : CompletionRequest) (s : State W)
      → ((entry : UsageEntry) (t : State W) → c.store entry t ≡ record_postgres keys entry t)
      → let model = model_for c request in
        let (r, t) = run c.retry (guarded_call c (payload model request) model) s in
        ((complete c request caller s).0 ≡ r)
        × ((complete c request caller s).1.entries
            ≡ t.entries
              ++ taken
                  (keys t.world)
                  (billed caller model (milliseconds (c.clock s) (c.clock t)) r))
  unfolding complete
  complete_postgres request s h =
      (complete-result c caller request s, account_postgres (model_for c request) (c.clock s) _ _ h)
