-- ===== src/Jobs/Access.antt =====
-- Who may read a job of src/services/jobs.py.
use prd_api_wrapper.Prelude.{
  ℕ, pos, sym, String, ◌≡◌, ◌≢◌, refl, true, false, none, some, arith, str_eq, eq_iff, eq_refl, inl,
  inr, Bool-cases, Option-cases, if◌then◌else◌,
}
use prd_api_wrapper.Prelude.Dict.{Dict, lookup, lookup-insert}
use prd_api_wrapper.Errors.{ErrorClass, new, no_args}
use prd_api_wrapper.Errors.Handlers.{app}
use prd_api_wrapper.Exec.{ok, raised}
use prd_api_wrapper.Completion.Models.{Caller}
use prd_api_wrapper.Jobs.Models.{JobStatus, JobRequest, JobView, Job}
use prd_api_wrapper.Jobs.Store
use prd_api_wrapper.Jobs.Store.{to_view, value_or}
use prd_api_wrapper.Jobs.Repository.{JobState, in_memory}
use prd_api_wrapper.Jobs.Service.{JobService, accept, get, new_job}

str_eq-false : (a b : String) → a ≢ b → str_eq a b ≡ false
str_eq-false a b h = elim (Bool-cases (str_eq a b)) [
  | inl same ↦ absurd (h ((eq_iff a b).0 same))
  | inr other ↦ other
]

-- The row that `create` stores.
abbrev pub stored : ℕ → Job → Job
stored now job = record job {
  created_at = some (value_or now job.created_at);
  delivery_attempts = some (value_or 0 job.delivery_attempts);
  prompt_tokens = some (value_or (pos 0) job.prompt_tokens);
  completion_tokens = some (value_or (pos 0) job.completion_tokens);
}

get-create :
    (now : ℕ) (job : Job) (owner : String) (jobs : Dict Job)
    → Store.get job.id owner (Store.create now job jobs)
      ≡ (if str_eq job.api_key_id owner then some (to_view (stored now job)) else none)
unfolding Store.get Store.create
get-create now job owner jobs =
    let self : str_eq job.id job.id ≡ true = eq_refl job.id in
    ground (arith, lookup-insert job.id job.id (stored now job) jobs)

module _ {V : Type 0} where
  -- The job of someone else and a job that does not exist get the same answer, and reading changes
  -- nothing, over a repository that reads as the one in memory does.
  pub get_hides :
      (c : JobService V) (job_id : String) (caller : Caller) (s : JobState V)
      → ((id owner : String) (t : JobState V)
          → c.jobs.get id owner t ≡ (ok (Store.get id owner t.jobs), t))
      → ((job : Job) → lookup job_id s.jobs ≡ some job → job.api_key_id ≢ caller.id)
      → get c job_id caller s ≡ (raised (app (new ErrorClass.job_not_found no_args)), s)
  unfolding get
  get_hides c job_id caller s reads foreign =
      let hidden : Store.get job_id caller.id s.jobs ≡ none =
        unfold Store.get in
        elim (Option-cases (lookup job_id s.jobs)) [
          | inl gone ↦ ground arith
          | inr (job, there) ↦
              ground (arith, str_eq-false job.api_key_id caller.id (foreign job there))
        ] in
      rw (reads job_id caller.id s, hidden) refl

  -- The id that is handed out with the 202 can be looked up at once by its owner, who sees a
  -- pending job of the model that was asked for, and by nobody else, over the repository in memory.
  pub accept-get :
      (c : JobService V) (request : JobRequest) (caller other : Caller) (model : String)
      (s : JobState V)
      → c.jobs ≡ in_memory c.now
      → other.id ≢ caller.id
      → let (answer, s') = accept c request caller model s in
        (answer ≡ ok (record { id = c.token s; status = JobStatus.pending }))
        × ((view : JobView) × (get c (c.token s) caller s' ≡ (ok view, s'))
            × (view.id ≡ c.token s)
            × (view.status ≡ JobStatus.pending)
            × (view.model ≡ model))
        × (get c (c.token s) other s' ≡ (raised (app (new ErrorClass.job_not_found no_args)), s'))
  unfolding accept get
  accept-get c request caller other model s memory h =
      let job = new_job (c.token s) request caller model in
      let own : str_eq caller.id caller.id ≡ true = eq_refl caller.id in
      rw memory (
        refl,
        (
          to_view (stored (c.now s) job),
          rw (get-create (c.now s) job, own) refl,
          unfold to_view in refl,
          unfold to_view in refl,
          unfold to_view in refl,
        ),
        rw (get-create (c.now s) job, str_eq-false caller.id other.id (λ e. h (sym e))) refl,
      )
