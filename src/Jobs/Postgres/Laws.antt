-- ===== src/Jobs/Postgres/Laws.antt =====
-- What the table `job` keeps true under src/repositories/jobs.py.
use prd_api_wrapper.Prelude.{
  ℕ, String, ◌≡◌, refl, ◌∙◌, ◌⊎◌, inl, inr, Bool, true, false, Option, none, some, List, [], ◌∷◌,
  arith, eq_iff,
}
use prd_api_wrapper.Prelude.Dict.{Dict, IsDict, lookup, insert, lookup-insert, insert-IsDict}
use prd_api_wrapper.Errors.Handlers.{crash}
use prd_api_wrapper.Exec.{Result, ok, raised}
use prd_api_wrapper.Auth.Keys.{ApiKey}
use prd_api_wrapper.Database.{fits_job, has_key, checked}
use prd_api_wrapper.Jobs.Models.{Job}
use prd_api_wrapper.Jobs.Store.{Field, set_field, set_fields}
use prd_api_wrapper.Jobs.Repository.{JobState}
use prd_api_wrapper.Jobs.Postgres.{inserted, commit_jobs, create, change, update}

set_field_keys :
    (f : Field) (job : Job)
    → ((set_field f job).id ≡ job.id) × ((set_field f job).api_key_id ≡ job.api_key_id)
unfolding set_field
set_field_keys f job = ground arith

-- An update leaves the id and the owner alone.
pub set_fields_keys :
    (fs : List Field) (job : Job)
    → ((set_fields fs job).id ≡ job.id) × ((set_fields fs job).api_key_id ≡ job.api_key_id)
unfolding set_fields
set_fields_keys [] job = (refl, refl)
set_fields_keys (f ∷ fs) job =
    let (i, o) = set_field_keys f job in
    let (j, p) = set_fields_keys fs (set_field f job) in (j ∙ i, p ∙ o)

-- Every id stands once, and the row under it has that id, fits its columns, and belongs to a key
-- that is in the table of keys.
pub record IsTable (keys : List ApiKey) (jobs : Dict Job) : Type 0 where
  pub unique : IsDict jobs
  pub rows :
      (id : String) (job : Job)
      → lookup id jobs ≡ some job
      → (job.id ≡ id) × (fits_job job ≡ true) × (has_key job.api_key_id keys ≡ true)

insert-IsTable :
    (keys : List ApiKey) (k : String) (job : Job) (jobs : Dict Job)
    → IsTable keys jobs
    → job.id ≡ k
    → fits_job job ≡ true
    → has_key job.api_key_id keys ≡ true
    → IsTable keys (insert k job jobs)
insert-IsTable keys k job jobs t same fits keyed = record {
  unique = insert-IsDict k job jobs t.unique;
  rows =
      λ id found there. ground (arith, eq_iff k id, lookup-insert k id job jobs, t.rows id found);
}

checked-ok : (fits keyed : Bool) → checked fits keyed ≡ ok tt → (fits ≡ true) × (keyed ≡ true)
checked-ok fits keyed h = ground arith

module _ {V : Type 0} (keys : V → List ApiKey) where
  commit_jobs-IsTable :
      (verdict : Result (Unit {0})) (jobs : Dict Job) (s : JobState V)
      → IsTable (keys s.rest) s.jobs
      → (verdict ≡ ok tt → IsTable (keys s.rest) jobs)
      → IsTable (keys (commit_jobs verdict jobs s).1.rest) (commit_jobs verdict jobs s).1.jobs
  commit_jobs-IsTable (ok _) jobs s t new = new refl
  commit_jobs-IsTable (raised r) jobs s t new = t

  pub create-IsTable :
      (now : ℕ) (job : Job) (s : JobState V)
      → IsTable (keys s.rest) s.jobs
      → IsTable (keys (create keys now job s).1.rest) (create keys now job s).1.jobs
  unfolding create
  create-IsTable now job s t =
      let row = inserted now job in
      commit_jobs-IsTable _ (insert row.id row s.jobs) s t (λ h.
        let (fits, keyed) = checked-ok _ _ h in
        insert-IsTable (keys s.rest) row.id row s.jobs t refl fits (ground arith))

  change-IsTable :
      (job_id : String) (fields : List Field) (o : Option Job) (s : JobState V)
      → lookup job_id s.jobs ≡ o
      → IsTable (keys s.rest) s.jobs
      → IsTable (keys (change keys job_id fields o s).1.rest) (change keys job_id fields o s).1.jobs
  change-IsTable job_id fields none s there t = t
  change-IsTable job_id fields (some job) s there t =
      let row = set_fields fields job in
      let (id, fits, keyed) = t.rows job_id job there in
      let (i, o) = set_fields_keys fields job in
      commit_jobs-IsTable _ (insert job_id row s.jobs) s t (λ h.
        insert-IsTable (keys s.rest) job_id row s.jobs t (i ∙ id) (checked-ok _ true h).0
          (rw o keyed))

  pub update-IsTable :
      (job_id : String) (fields : List Field) (s : JobState V)
      → IsTable (keys s.rest) s.jobs
      → IsTable (keys (update keys job_id fields s).1.rest) (update keys job_id fields s).1.jobs
  unfolding update
  update-IsTable job_id fields s t = change-IsTable job_id fields (lookup job_id s.jobs) s refl t

  pub commit_jobs-cases :
      (fits : Bool) (jobs : Dict Job) (s : JobState V)
      → (commit_jobs (checked fits true) jobs s ≡ (ok tt, record s { jobs = jobs }))
        ⊎ ((m : String) × (commit_jobs (checked fits true) jobs s ≡ (raised (crash m), s)))
  commit_jobs-cases true jobs s = inl refl
  commit_jobs-cases false jobs s = inr ("DBAPIError", refl)
