-- ===== src/Jobs/Postgres.antt =====
-- `PostgresJobRepository` of src/repositories/jobs.py: each operation is a transaction of its own
-- over the table `job`, which holds a row under its id. A row that the table refuses is not
-- written, and the error of the database is raised.
pub mod Laws
pub mod Refinement
pub mod Rows
pub mod Tasks
pub mod Accept
mod Tests
use prd_api_wrapper.Prelude.{
  ℕ, pos, String, Bool, true, false, ◌&&◌, Option, none, some, List, ◌∷◌, ◌++◌, if◌then◌else◌,
}
use prd_api_wrapper.Prelude.Dict.{Dict, lookup, insert}
use prd_api_wrapper.Exec.{Result, ok, raised, Exec}
use prd_api_wrapper.Auth.Keys.{ApiKey}
use prd_api_wrapper.Database.{fits_job, has_key, checked}
use prd_api_wrapper.Jobs.Models.{Job}
use prd_api_wrapper.Jobs.Store
use prd_api_wrapper.Jobs.Store.{Field, set_fields, value_or}
use prd_api_wrapper.Jobs.Repository.{JobState, JobRepository}

-- The row that an insert writes: what is still empty gets the default of its column, and
-- `created_at` the time of the database.
unfoldable pub inserted : ℕ → Job → Job
inserted now job = record job {
  created_at = some (value_or now job.created_at);
  delivery_attempts = some (value_or 0 job.delivery_attempts);
  prompt_tokens = some (value_or (pos 0) job.prompt_tokens);
  completion_tokens = some (value_or (pos 0) job.completion_tokens);
}

abbrev pub is_free : Option Job → Bool
is_free none = true
is_free (some job) = false

-- The commit of a new table, if the write to it was let through.
abbrev pub commit_jobs : {V : Type 0} → Result (Unit {0}) → Dict Job → Exec (JobState V) (Unit {0})
commit_jobs (ok _) jobs s = (ok tt, record s { jobs = jobs })
commit_jobs (raised r) jobs s = (raised r, s)

module _ {V : Type 0} (keys : V → List ApiKey) where
  -- `create`
  unfoldable pub create : ℕ → Job → Exec (JobState V) (Unit {0})
  unfolding inserted
  create now job s =
      let row = inserted now job in
      commit_jobs
        (checked (fits_job row)
          (is_free (lookup row.id s.jobs) && has_key row.api_key_id (keys s.rest)))
        (insert row.id row s.jobs) s

  abbrev pub change : String → List Field → Option Job → Exec (JobState V) (Unit {0})
  change job_id fields none s = (ok tt, s)
  change job_id fields (some job) s =
      let row = set_fields fields job in
      commit_jobs (checked (fits_job row) true) (insert job_id row s.jobs) s

  -- `update`: the id and the owner, which the keys are about, are never among the fields.
  unfoldable pub update : String → List Field → Exec (JobState V) (Unit {0})
  update job_id fields s = change job_id fields (lookup job_id s.jobs) s

  -- `PostgresJobRepository`
  unfoldable pub postgres : (JobState V → ℕ) → JobRepository V
  unfolding create update
  postgres now = record {
    create = λ job s. create (now s) job s;
    update = update;
    get = λ job_id owner s. (ok (Store.get_postgres job_id owner s.jobs), s);
    prompt_for = λ job_id s. (ok (Store.prompt_for job_id s.jobs), s);
  }
