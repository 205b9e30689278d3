-- ===== src/Jobs/Postgres/Tests.antt =====
-- Tests of the jobs over Postgres, and their theorems at concrete inputs.
use prd_api_wrapper.Prelude.{ℕ, pos, ◌≡◌, refl, none, List, [], ◌∷◌}
use prd_api_wrapper.Prelude.Dict.{lookup, insert}
use prd_api_wrapper.Json.{nat}
use prd_api_wrapper.Exec.{ok}
use prd_api_wrapper.Auth.Keys.{ApiKey}
use prd_api_wrapper.Auth.Service.{anonymous}
use prd_api_wrapper.Database.{fits_job, has_key}
use prd_api_wrapper.Completion.Models.{Caller, CompletionResponse}
use prd_api_wrapper.Jobs.Models.{Job, JobRequest, JobStatus}
use prd_api_wrapper.Jobs.Store.{Field, set_fields}
use prd_api_wrapper.Jobs.Repository.{JobState, in_memory}
use prd_api_wrapper.Jobs.Service.{JobService, new_job, run}
use prd_api_wrapper.Jobs.Postgres.{inserted, create, update, postgres}
use prd_api_wrapper.Jobs.Postgres.Laws.{IsTable, create-IsTable}
use prd_api_wrapper.Jobs.Postgres.Refinement.{
  Call, create_call, update_call, get_call, prompt_call, AllAnswered, perform_all, perform_all-eq,
}
use prd_api_wrapper.Jobs.Postgres.Rows.{Keeps, perform_all-Keeps}
use prd_api_wrapper.Jobs.Postgres.Accept.{CanStore, Verdict, accept_exactly}
use prd_api_wrapper.Database.{is_varchar}
use prd_api_wrapper.Jobs.Models.{JobStatus}

abbrev ann_key : ApiKey
ann_key = record { id = "a"; name = "Ann"; key_hash = "0a"; revoked_at = none; last_used_at = none }

abbrev ann : Caller
ann = record { id = "a"; name = "Ann" }

abbrev request : JobRequest
request = record {
  prompt = "Hello";
  model = none;
  temperature = nat 1;
  max_tokens = none;
  callback_url = "https://example.com/hook";
}

-- The rest of the state is the table of keys; the clock stands at 7.
abbrev table : JobState (List ApiKey)
table = record { jobs = []; rest = ann_key ∷ [] }

abbrev keys : List ApiKey → List ApiKey
keys rows = rows

abbrev seven : JobState (List ApiKey) → ℕ
seven s = 7

keyed-IsTable : IsTable (ann_key ∷ []) []
unfolding lookup
keyed-IsTable = record { unique = tt; rows = λ id job h. cc }

-- A table with one job.
abbrev held : JobState (List ApiKey)
held = (create keys 7 (new_job "j0" request ann "m") table).1

held-IsTable : IsTable held.rest held.jobs
held-IsTable = create-IsTable keys 7 (new_job "j0" request ann "m") table keyed-IsTable

-- A second job with the id of the first, one of a caller without a key, and a change of the first.
abbrev calls : List Call
calls =
    create_call (new_job "j0" request ann "other")
    ∷ create_call (new_job "j1" request anonymous "m")
    ∷ update_call "j0" (Field.status JobStatus.running ∷ [])
    ∷ get_call "j0" "a"
    ∷ []

perform_all-Keeps_example :
    let s' = (perform_all (postgres keys seven) calls held).1 in
    Keeps held.jobs s'.jobs × IsTable s'.rest s'.jobs
perform_all-Keeps_example = perform_all-Keeps keys seven calls held held-IsTable

abbrev good_calls : List Call
good_calls =
    create_call (new_job "j0" request ann "m")
    ∷ update_call "j0" (Field.status JobStatus.running ∷ [])
    ∷ get_call "j0" "a"
    ∷ prompt_call "j0"
    ∷ []

good_calls-AllAnswered : AllAnswered (perform_all (postgres keys seven) good_calls table).0
unfolding perform_all postgres create update inserted fits_job has_key lookup insert set_fields
good_calls-AllAnswered = (tt, (tt, (tt, (tt, tt))))

perform_all-eq_example :
    perform_all (postgres keys seven) good_calls table
    ≡ perform_all (in_memory seven) good_calls table
perform_all-eq_example =
    perform_all-eq keys seven good_calls table keyed-IsTable good_calls-AllAnswered

abbrev reply : CompletionResponse
reply = record {
  id = "c1";
  model = "m";
  content = "Hi";
  usage = record { prompt_tokens = pos 3; completion_tokens = pos 2 };
}

-- A provider that answers, and a receiver that gets the callback at once.
abbrev service : JobService (List ApiKey)
service = record {
  jobs = postgres keys seven;
  complete = λ _ _ s. (ok reply, s);
  deliver = λ _ _ s. (ok 1, s);
  token = λ _. "j1";
  now = seven;
}

abbrev ann_job : Job
ann_job = new_job "j0" request ann "m"

abbrev stocked : JobState (List ApiKey)
stocked = record { jobs = ("j0", ann_job) ∷ []; rest = ann_key ∷ [] }

-- It ends normally.
run-stocked : (run service "j0" request ann stocked).0 ≡ ok tt
unfolding run postgres update fits_job lookup insert set_fields
run-stocked = refl

accept_exactly_example : Verdict keys service seven request ann "m" table
accept_exactly_example = accept_exactly keys service seven request ann "m" table refl tt

-- Ann's request can be stored.
request-CanStore : CanStore keys service seven request ann "m" table
unfolding is_varchar lookup has_key
request-CanStore = ((refl, refl, refl, refl, refl), refl, refl)
