-- ===== src/Jobs/Repository.antt =====
-- `JobRepository` of src/repositories/jobs.py: what the job service is given, and the repository in
-- memory that fills it.
use prd_api_wrapper.Prelude.{ℕ, String, Option, List}
use prd_api_wrapper.Prelude.Dict.{Dict}
use prd_api_wrapper.Exec.{Exec, ok}
use prd_api_wrapper.Jobs.Models.{JobView, Job}
use prd_api_wrapper.Jobs.Store
use prd_api_wrapper.Jobs.Store.{Field}

-- The jobs, and everything else that is shared.
pub record JobState (V : Type 0) : Type 0 where
  pub jobs : Dict Job
  pub rest : V

pub record JobRepository (V : Type 0) : Type 0 where
  pub create : Job → Exec (JobState V) (Unit {0})
  pub update : String → List Field → Exec (JobState V) (Unit {0})
  pub get : String → String → Exec (JobState V) (Option JobView)
  pub prompt_for : String → Exec (JobState V) (Option (String × String × String))

abbrev pub write : {V : Type 0} → String → List Field → JobState V → JobState V
write job_id fields s = record s { jobs = Store.update job_id fields s.jobs }

-- `InMemoryJobRepository`; `now` is `datetime.now(UTC)` in seconds.
abbrev pub in_memory : {V : Type 0} → (JobState V → ℕ) → JobRepository V
in_memory now = record {
  create = λ job s. (ok tt, record s { jobs = Store.create (now s) job s.jobs });
  update = λ job_id fields s. (ok tt, write job_id fields s);
  get = λ job_id owner s. (ok (Store.get job_id owner s.jobs), s);
  prompt_for = λ job_id s. (ok (Store.prompt_for job_id s.jobs), s);
}
