-- ===== src/Jobs/Course/Tests.antt =====
-- A job whose statuses are logged, and whose completion fails.
use prd_api_wrapper.Prelude.{◌≡◌, refl, inl, none, List, [], ◌∷◌, ◌++◌}
use prd_api_wrapper.Json.{nat}
use prd_api_wrapper.Errors.{ErrorClass, new, no_args}
use prd_api_wrapper.Errors.Handlers.{app}
use prd_api_wrapper.Exec.{ok, raised}
use prd_api_wrapper.Completion.Models.{Caller}
use prd_api_wrapper.Jobs.Models.{JobStatus, JobRequest}
use prd_api_wrapper.Jobs.Repository.{JobState, in_memory, write}
use prd_api_wrapper.Jobs.Service.{JobService, new_job, run}
use prd_api_wrapper.Jobs.Course.{statuses, Logs, Goes, run-Goes}

abbrev service : JobService (List JobStatus)
service = record {
  jobs = record (in_memory (λ s. 7)) {
    update = λ job_id fields s.
        (ok tt, record (write job_id fields s) { rest = s.rest ++ statuses fields });
  };
  complete = λ _ _ s. (raised (app (new ErrorClass.upstream_timeout no_args)), s);
  deliver = λ _ _ s. (ok 1, s);
  token = λ _. "j1";
  now = λ s. 7;
}

service-Logs : Logs service "j1" (λ s. s.rest)
service-Logs = record {
  updates = λ fields s. inl (refl, refl);
  completes = λ _ _ _. refl;
  delivers = λ _ _ _. refl;
}

abbrev ann : Caller
ann = record { id = "a"; name = "Ann" }

abbrev request : JobRequest
request = record {
  prompt = "Hello";
  model = none;
  temperature = nat 1;
  max_tokens = none;
  callback_url = "https://example.com/hook";
}

abbrev waiting : JobState (List JobStatus)
waiting = record { jobs = ("j1", new_job "j1" request ann "m") ∷ []; rest = [] }

run-Goes_example :
    Goes service "j1" (λ s. s.rest) JobStatus.pending [] (run service "j1" request ann waiting)
run-Goes_example = run-Goes service "j1" (λ s. s.rest) service-Logs request ann waiting

-- It ends failed.
run-statuses :
    (run service "j1" request ann waiting).1.rest ≡ JobStatus.running ∷ JobStatus.failed ∷ []
unfolding run
run-statuses = refl
