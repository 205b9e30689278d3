-- ===== src/Jobs/Store.antt =====
-- src/repositories/jobs.py: the jobs by id. The in-memory repository is modelled, and of the one
-- over Postgres the reads of a table by their conditions.
pub mod Laws
use prd_api_wrapper.Prelude.{
  ℕ, ℤ, pos, String, Bool, ◌&&◌, Option, none, some, List, [], ◌∷◌, str_eq, if◌then◌else◌,
}
use prd_api_wrapper.Prelude.Dict.{Dict, lookup, insert}
use prd_api_wrapper.Jobs.Models.{JobStatus, JobView, Job}

-- One keyword argument of `update`.
pub data Field : Type 0 where
  status : JobStatus → Field
  content : String → Field
  model : String → Field
  error_code error_message : String → Field
  prompt_tokens completion_tokens : ℤ → Field
  delivery_attempts delivered_at : ℕ → Field

-- `setattr(job, field, value)`
unfoldable pub set_field : Field → Job → Job
set_field (status v) job = record job { status = v }
set_field (content v) job = record job { content = some v }
set_field (model v) job = record job { model = v }
set_field (error_code v) job = record job { error_code = some v }
set_field (error_message v) job = record job { error_message = some v }
set_field (prompt_tokens v) job = record job { prompt_tokens = some v }
set_field (completion_tokens v) job = record job { completion_tokens = some v }
set_field (delivery_attempts v) job = record job { delivery_attempts = some v }
set_field (delivered_at v) job = record job { delivered_at = some v }

unfoldable pub set_fields : List Field → Job → Job
unfolding set_field
set_fields [] job = job
set_fields (f ∷ fs) job = set_fields fs (set_field f job)

abbrev pub value_or : {A : Type 0} → A → Option A → A
value_or d none = d
value_or d (some v) = v

-- `to_view`. A number that is still empty reads as its default, which a stored row never needs.
unfoldable pub to_view : Job → JobView
to_view job = record {
  id = job.id;
  status = job.status;
  model = job.model;
  content = job.content;
  error_code = job.error_code;
  error_message = job.error_message;
  delivery_attempts = value_or 0 job.delivery_attempts;
  delivered_at = job.delivered_at;
  created_at = value_or 0 job.created_at;
}

-- `InMemoryJobRepository.create` at the time `now`: the defaults of the columns are filled in.
unfoldable pub create : ℕ → Job → Dict Job → Dict Job
create now job jobs =
    insert job.id
      (record job {
        created_at = some (value_or now job.created_at);
        delivery_attempts = some (value_or 0 job.delivery_attempts);
        prompt_tokens = some (value_or (pos 0) job.prompt_tokens);
        completion_tokens = some (value_or (pos 0) job.completion_tokens);
      })
      jobs

-- `update`: a missing job is left missing. The object that the dict holds is changed in place.
unfoldable pub update : String → List Field → Dict Job → Dict Job
unfolding set_fields
update job_id fields jobs = elim (lookup job_id jobs) [
  | none ↦ jobs
  | some job ↦ insert job_id (set_fields fields job) jobs
]

-- `InMemoryJobRepository.get`
unfoldable pub get : String → String → Dict Job → Option JobView
unfolding to_view
get job_id api_key_id jobs = elim (lookup job_id jobs) [
  | none ↦ none
  | some job ↦ if str_eq job.api_key_id api_key_id then some (to_view job) else none
]

-- `prompt_for`
unfoldable pub prompt_for : String → Dict Job → Option (String × String × String)
prompt_for job_id jobs = elim (lookup job_id jobs) [
  | none ↦ none
  | some job ↦ some (job.prompt, job.model, job.callback_url)
]

-- `PostgresJobRepository.get`: the row that meets both conditions of the query, of the rows of the
-- table, which holds each id once.
unfoldable pub select_job : String → String → Dict Job → Option Job
select_job job_id api_key_id [] = none
select_job job_id api_key_id ((k, job) ∷ rows) =
    let rest = select_job job_id api_key_id rows in
    if str_eq k job_id && str_eq job.api_key_id api_key_id then some job else rest

unfoldable pub get_postgres : String → String → Dict Job → Option JobView
unfolding select_job to_view
get_postgres job_id api_key_id rows = elim (select_job job_id api_key_id rows) [
  | none ↦ none
  | some job ↦ some (to_view job)
]
