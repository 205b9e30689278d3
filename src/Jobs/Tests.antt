-- ===== src/Jobs/Tests.antt =====
-- Tests of the jobs, and their theorems at concrete inputs.
use prd_api_wrapper.Prelude.{
  ℕ, ◌+◌, pos, ◌≡◌, ◌≢◌, refl, sym, ap, eq_iff, Option, none, some, [], ◌∷◌, arith,
}
use prd_api_wrapper.Prelude.Dict.{lookup}
use prd_api_wrapper.Json.{nat}
use prd_api_wrapper.Errors.{ErrorClass, new, no_args}
use prd_api_wrapper.Errors.Handlers.{app}
use prd_api_wrapper.Exec.{ok, raised}
use prd_api_wrapper.Completion.Models.{Caller, CompletionResponse}
use prd_api_wrapper.Jobs.Models.{JobRequest, JobView, Job}
use prd_api_wrapper.Jobs.Repository.{JobState, in_memory}
use prd_api_wrapper.Jobs.Service.{JobService, accept, get, run, new_job}
use prd_api_wrapper.Jobs.Outcome.{IsLeftWith, LeavesRow}
use prd_api_wrapper.Jobs.Laws.{run_outcome}
use prd_api_wrapper.Jobs.Lifecycle.{Shows, submitted-Shows}

abbrev ann : Caller
ann = record { id = "a"; name = "Ann" }

abbrev bob : Caller
bob = record { id = "b"; name = "Bob" }

abbrev request : JobRequest
request = record {
  prompt = "Hello";
  model = none;
  temperature = nat 1;
  max_tokens = none;
  callback_url = "https://example.com/hook";
}

abbrev answer : CompletionResponse
answer = record {
  id = "c1";
  model = "m";
  content = "Hi";
  usage = record { prompt_tokens = pos 3; completion_tokens = pos 2 };
}

-- A provider that answers, and a receiver that gets the callback at the second attempt.
abbrev service : JobService ℕ
service = record {
  jobs = in_memory (λ s. s.rest);
  complete = λ _ _ s. (ok answer, record s { rest = s.rest + 1 });
  deliver = λ _ _ s. (ok 2, record s { rest = s.rest + 1 });
  token = λ _. "j1";
  now = λ s. s.rest;
}

abbrev ann_job : Job
ann_job = new_job "j0" request ann "m"

abbrev shop : JobState ℕ
shop = record { jobs = ("j0", ann_job) ∷ []; rest = 7 }

ann_bob : ann.id ≢ bob.id
ann_bob e = ground (arith, (eq_iff "a" "b").1 e)

service-LeavesRow : LeavesRow service "j0"
service-LeavesRow = record { completes = λ _ _ _. refl; delivers = λ _ _ _. refl }

run_outcome_example :
    IsLeftWith service "j0" (ok answer) ann_job (run service "j0" request ann shop)
unfolding lookup
run_outcome_example =
    run_outcome service "j0" service-LeavesRow (λ _ _. refl) request ann shop ann_job refl

owner_of : {job : Job} → some ann_job ≡ some job → ann.id ≡ job.api_key_id
owner_of e = ap (λ (o : Option Job). elim o [ none ↦ "a" | some j ↦ j.api_key_id ]) e

new-LeavesRow : LeavesRow service "j1"
new-LeavesRow = record { completes = λ _ _ _. refl; delivers = λ _ _ _. refl }

submitted-Shows_example :
    let accepted = (accept service request ann "m" shop).1 in
    let ended = (run service "j1" request ann accepted).1 in
    ((view : JobView) × (get service "j1" ann ended ≡ (ok view, ended))
      × (view.id ≡ "j1")
      × Shows (ok answer) view)
    × (get service "j1" bob ended ≡ (raised (app (new ErrorClass.job_not_found no_args)), ended))
submitted-Shows_example =
    submitted-Shows service refl request ann bob "m" shop new-LeavesRow (λ e. ann_bob (sym e))
