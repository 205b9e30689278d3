-- ===== src/Jobs/Postgres/Tasks.antt =====
-- The job service of src/services/jobs.py over the repository of src/repositories/jobs.py that it
-- really has.
use prd_api_wrapper.Prelude.{
  ℕ, ◌<◌, String, ◌≡◌, refl, ◌⊎◌, inl, inr, Bool, true, false, ◌&&◌, List, arith, length,
}
use prd_api_wrapper.Prelude.Dict.{lookup}
use prd_api_wrapper.Errors.Handlers.{RequestState, crash, handle_error}
use prd_api_wrapper.Exec.{raised}
use prd_api_wrapper.Auth.Keys.{ApiKey}
use prd_api_wrapper.Database.{is_varchar, fits_job, has_key, checked}
use prd_api_wrapper.Completion.Models.{Caller}
use prd_api_wrapper.Jobs.Models.{JobRequest}
use prd_api_wrapper.Jobs.Repository.{JobState}
use prd_api_wrapper.Jobs.Service.{JobService, new_job, accept}
use prd_api_wrapper.Jobs.Postgres.{inserted, is_free, create, postgres}

module _ {V : Type 0} (keys : V → List ApiKey) where
  -- Why the row of a new job is refused.
  abbrev pub IsRefused : JobRequest → Caller → String → JobState V → Type 0
  IsRefused request caller model s =
      (has_key caller.id (keys s.rest) ≡ false)
      ⊎ ((2048 < length request.callback_url) ⊎ (255 < length model))

  is_varchar_long : (n : ℕ) (text : String) → n < length text → is_varchar n text ≡ false
  unfolding is_varchar
  is_varchar_long n text h = ground arith

  long-fits_job :
      (now : ℕ) (id : String) (request : JobRequest) (caller : Caller) (model : String)
      → (2048 < length request.callback_url) ⊎ (255 < length model)
      → fits_job (inserted now (new_job id request caller model)) ≡ false
  unfolding fits_job inserted
  long-fits_job now id request caller model (inl url) =
      ground (arith, is_varchar_long 2048 request.callback_url)
  long-fits_job now id request caller model (inr name) = ground (arith, is_varchar_long 255 model)

  refused :
      (fits keyed : Bool)
      → (fits ≡ false) ⊎ (keyed ≡ false)
      → (m : String) × (checked fits keyed ≡ raised (crash m))
  refused false keyed h = ("DBAPIError", refl)
  refused true false h = ("IntegrityError", refl)
  refused true true (inl e) = cc
  refused true true (inr e) = cc

  row_refused :
      (now : ℕ) (id : String) (request : JobRequest) (caller : Caller) (model : String)
      (s : JobState V)
      → IsRefused request caller model s
      → let row = inserted now (new_job id request caller model) in
        (fits_job row ≡ false)
        ⊎ ((is_free (lookup row.id s.jobs) && has_key row.api_key_id (keys s.rest)) ≡ false)
  unfolding inserted
  row_refused now id request caller model s (inl stranger) = inr (ground arith)
  row_refused now id request caller model s (inr long) =
      inl (long-fits_job now id request caller model long)

  -- Known defect: a job that the table cannot hold is not refused as a bad request. Where the
  -- callback is longer than 2048 characters, or the model than 255, or the caller has no row in the
  -- table of keys, as the anonymous caller has none, the submission raises an error of the
  -- database, which is answered with the generic 500, and nothing is stored.
  pub accept_refused :
      (c : JobService V) (now : JobState V → ℕ) (request : JobRequest) (caller : Caller)
      (model : String) (s : JobState V) (state : RequestState)
      → c.jobs ≡ postgres keys now
      → IsRefused request caller model s
      → (m : String) × (accept c request caller model s ≡ (raised (crash m), s))
        × ((handle_error state (crash m)).status_code ≡ 500)
  unfolding accept postgres create
  accept_refused c now request caller model s state e why =
      let (m, verdict) = refused _ _ (row_refused (now s) (c.token s) request caller model s why) in
      (m, rw (e, verdict) refl, unfold handle_error in refl)
