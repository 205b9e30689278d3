-- ===== src/Jobs/Outcome.antt =====
-- How the work of src/services/jobs.py may end: the row of the job, and what the task raises.
use prd_api_wrapper.Prelude.{String, ◌≡◌, refl, ◌⊎◌, true, some, List, str_eq, eq_refl}
use prd_api_wrapper.Prelude.Dict.{lookup}
use prd_api_wrapper.Errors.{class_code}
use prd_api_wrapper.Errors.Handlers.{app, crash, invalid_request}
use prd_api_wrapper.Exec.{Result, ok, raised}
use prd_api_wrapper.Completion.Models.{Caller, CompletionRequest, CompletionResponse}
use prd_api_wrapper.Jobs.Models.{JobStatus, WebhookPayload, Job}
use prd_api_wrapper.Jobs.Store.{Field}
use prd_api_wrapper.Jobs.Store.Laws.{changed, lookup-update}
use prd_api_wrapper.Jobs.Service.{JobService}
use prd_api_wrapper.Jobs.Repository.{JobState, write}

-- The row of a job after its completion has ended so.
abbrev pub expected : Result CompletionResponse → Job → Job
expected (ok r) job = record job {
  status = JobStatus.succeeded;
  content = some r.content;
  model = r.model;
  prompt_tokens = some r.usage.prompt_tokens;
  completion_tokens = some r.usage.completion_tokens;
}
expected (raised (app e)) job = record job {
  status = JobStatus.failed;
  error_code = some (class_code e.kind);
  error_message = some e.message;
}
expected (raised (crash m)) job = record job { status = JobStatus.running }
expected (raised (invalid_request v)) job = record job { status = JobStatus.running }

-- Two rows that differ at most in what the delivery notes.
abbrev pub SameWork : Job → Job → Type 0
SameWork a b =
    b ≡ record a { delivery_attempts = b.delivery_attempts; delivered_at = b.delivered_at }

abbrev pub running : Job → Job
running job = record job { status = JobStatus.running }

-- What the background task itself ends with: it raises only what is none of our errors.
abbrev pub silent : Result CompletionResponse → Result (Unit {0})
silent (ok r) = ok tt
silent (raised (app e)) = ok tt
silent (raised (crash m)) = raised (crash m)
silent (raised (invalid_request v)) = raised (invalid_request v)

module _ {V : Type 0} (c : JobService V) (job_id : String) where
  pub lookup-write :
      (fields : List Field) (s : JobState V)
      → lookup job_id (write job_id fields s).jobs ≡ changed fields (lookup job_id s.jobs)
  lookup-write fields s =
      let self : str_eq job_id job_id ≡ true = eq_refl job_id in rw (lookup-update, self) refl

  -- A write to the row of the job is made, or is refused by the database and leaves all as it was.
  pub record Obeys : Type 0 where
    pub updates :
        (fields : List Field) (s : JobState V)
        → (c.jobs.update job_id fields s ≡ (ok tt, write job_id fields s))
          ⊎ ((m : String) × (c.jobs.update job_id fields s ≡ (raised (crash m), s)))

  -- Other tasks, and the services while they wait, leave the row of the job alone.
  pub record LeavesRow : Type 0 where
    pub completes :
        (request : CompletionRequest) (caller : Caller) (s : JobState V)
        → lookup job_id (c.complete request caller s).1.jobs ≡ lookup job_id s.jobs
    pub delivers :
        (url : String) (payload : WebhookPayload) (s : JobState V)
        → lookup job_id (c.deliver url payload s).1.jobs ≡ lookup job_id s.jobs

  -- The row is there, with this work.
  abbrev pub HasRow : Job → JobState V → Type 0
  HasRow job s = (job' : Job) × (lookup job_id s.jobs ≡ some job') × SameWork job job'

  -- The error of a write to the row that was refused.
  abbrev pub IsRefusal : String → Type 0
  IsRefusal m =
      (fields : List Field) × (s : JobState V) × (c.jobs.update job_id fields s
        ≡ (raised (crash m), s))

  abbrev pub IsLeftWith : Result CompletionResponse → Job → Result (Unit {0}) × JobState V → Type 0
  IsLeftWith r job o = (o.0 ≡ silent r) × HasRow (expected r job) o.1

  -- A write was refused: its error is raised, and the job is as it was before the task, or running,
  -- or settled.
  abbrev pub IsInterrupted :
      Result CompletionResponse → Job → Result (Unit {0}) × JobState V → Type 0
  IsInterrupted r job o =
      (m : String) × (o.0 ≡ raised (crash m))
      × IsRefusal m
      × (HasRow job o.1 ⊎ (HasRow (running job) o.1 ⊎ HasRow (expected r job) o.1))
