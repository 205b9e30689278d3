-- ===== src/Jobs/Lifecycle.antt =====
-- A job of src/services/jobs.py from the request that submits it to the one that reads its result,
-- over the repository in memory of src/repositories/jobs.py.
use prd_api_wrapper.Prelude.{
  String, ◌≡◌, ◌≢◌, refl, ap, ◌∙◌, true, Option, some, [], ◌∷◌, str_eq, eq_refl, arith,
}
use prd_api_wrapper.Prelude.Dict.{lookup, lookup-insert}
use prd_api_wrapper.Errors.{ErrorClass, class_code, new, no_args}
use prd_api_wrapper.Errors.Handlers.{app, crash, invalid_request}
use prd_api_wrapper.Exec.{Result, ok, raised}
use prd_api_wrapper.Completion.Models.{Caller, CompletionResponse}
use prd_api_wrapper.Jobs.Models.{JobStatus, JobRequest, JobView, Job}
use prd_api_wrapper.Jobs.Store
use prd_api_wrapper.Jobs.Store.{Field, to_view}
use prd_api_wrapper.Jobs.Repository.{JobState, in_memory, write}
use prd_api_wrapper.Jobs.Service.{JobService, accept, get, new_job, run, completion_request}
use prd_api_wrapper.Jobs.Outcome.{expected, SameWork, LeavesRow}
use prd_api_wrapper.Jobs.Laws.{run_outcome}
use prd_api_wrapper.Jobs.Access.{stored, get_hides}

-- What the owner reads of a job whose completion has ended so.
abbrev pub Shows : Result CompletionResponse → JobView → Type 0
Shows (ok r) view =
    (view.status ≡ JobStatus.succeeded) × (view.content ≡ some r.content) × (view.model ≡ r.model)
Shows (raised (app e)) view =
    (view.status ≡ JobStatus.failed)
    × (view.error_code ≡ some (class_code e.kind))
    × (view.error_message ≡ some e.message)
Shows (raised (crash m)) view = view.status ≡ JobStatus.running
Shows (raised (invalid_request v)) view = view.status ≡ JobStatus.running

expected-Shows :
    (r : Result CompletionResponse) (job job' : Job)
    → SameWork (expected r job) job'
    → Shows r (to_view job')
unfolding to_view
expected-Shows (ok r) job job' same = (
  ap (λ (j : Job). j.status) same,
  ap (λ (j : Job). j.content) same,
  ap (λ (j : Job). j.model) same,
)
expected-Shows (raised (app e)) job job' same = (
  ap (λ (j : Job). j.status) same,
  ap (λ (j : Job). j.error_code) same,
  ap (λ (j : Job). j.error_message) same,
)
expected-Shows (raised (crash m)) job job' same = ap (λ (j : Job). j.status) same
expected-Shows (raised (invalid_request v)) job job' same = ap (λ (j : Job). j.status) same

expected_keys :
    (r : Result CompletionResponse) (job job' : Job)
    → SameWork (expected r job) job'
    → (job'.id ≡ job.id) × (job'.api_key_id ≡ job.api_key_id)
expected_keys (ok r) job job' same =
    (ap (λ (j : Job). j.id) same, ap (λ (j : Job). j.api_key_id) same)
expected_keys (raised (app e)) job job' same =
    (ap (λ (j : Job). j.id) same, ap (λ (j : Job). j.api_key_id) same)
expected_keys (raised (crash m)) job job' same =
    (ap (λ (j : Job). j.id) same, ap (λ (j : Job). j.api_key_id) same)
expected_keys (raised (invalid_request v)) job job' same =
    (ap (λ (j : Job). j.id) same, ap (λ (j : Job). j.api_key_id) same)

same_owner :
    (a : Option Job) (job job' : Job) (id owner : String)
    → a ≡ some job
    → a ≡ some job'
    → job'.api_key_id ≡ id
    → job.api_key_id ≡ owner
    → id ≡ owner
same_owner a job job' id owner h h' e e' = cc

module _ {V : Type 0} (c : JobService V) (memory : c.jobs ≡ in_memory c.now) where
  reads :
      (id owner : String) (t : JobState V)
      → c.jobs.get id owner t ≡ (ok (Store.get id owner t.jobs), t)
  reads id owner t = rw memory refl

  get_own :
      (job_id : String) (caller : Caller) (job : Job) (s : JobState V)
      → lookup job_id s.jobs ≡ some job
      → job.api_key_id ≡ caller.id
      → get c job_id caller s ≡ (ok (to_view job), s)
  unfolding get
  get_own job_id caller job s there own =
      let same : str_eq job.api_key_id caller.id ≡ true = rw own (eq_refl caller.id) in
      let shown : Store.get job_id caller.id s.jobs ≡ some (to_view job) =
        unfold Store.get in ground (arith, there, same) in
      rw (reads job_id caller.id s, shown) refl

  accepted_row :
      (request : JobRequest) (caller : Caller) (model : String) (s : JobState V)
      → lookup (c.token s) (accept c request caller model s).1.jobs
        ≡ some (stored (c.now s) (new_job (c.token s) request caller model))
  unfolding accept Store.create
  accepted_row request caller model s =
      let self : str_eq (c.token s) (c.token s) ≡ true = eq_refl (c.token s) in
      rw (memory, lookup-insert, self) refl

  -- What the owner and another caller read, once the row of the job is this.
  readers :
      (job_id : String) (caller other : Caller) (job job' : Job) (r : Result CompletionResponse)
      (s : JobState V)
      → job.id ≡ job_id
      → job.api_key_id ≡ caller.id
      → other.id ≢ caller.id
      → lookup job_id s.jobs ≡ some job'
      → SameWork (expected r job) job'
      → ((view : JobView) × (get c job_id caller s ≡ (ok view, s))
          × (view.id ≡ job_id)
          × Shows r view)
        × (get c job_id other s ≡ (raised (app (new ErrorClass.job_not_found no_args)), s))
  readers job_id caller other job job' r s is own h there same =
      let (i, o) = expected_keys r job job' same in
      (
        (
          to_view job',
          get_own job_id caller job' s there (o ∙ own),
          unfold to_view in i ∙ is,
          expected-Shows r job job' same,
        ),
        get_hides c job_id other s reads (λ job'' there' e. h (
            same_owner (lookup job_id s.jobs) job' job'' other.id caller.id there there' e
              (o ∙ own))),
      )

  -- Over the repository in memory, a job that was submitted and whose background task has ended is
  -- read by its owner with the outcome of its completion: succeeded with the content and the model
  -- of the answer, or failed with the code and the message of the error, or still running where the
  -- completion raised what is none of our errors. Nobody else can read it. It is assumed that no
  -- one else writes to its row.
  pub submitted-Shows :
      (request : JobRequest) (caller other : Caller) (model : String) (s : JobState V)
      → LeavesRow c (c.token s)
      → other.id ≢ caller.id
      → let job_id = c.token s in
        let accepted = (accept c request caller model s).1 in
        let begun = write job_id (Field.status JobStatus.running ∷ []) accepted in
        let r = (c.complete (completion_request request) caller begun).0 in
        let ended = (run c job_id request caller accepted).1 in
        ((view : JobView) × (get c job_id caller ended ≡ (ok view, ended))
          × (view.id ≡ job_id)
          × Shows r view)
        × (get c job_id other ended ≡ (raised (app (new ErrorClass.job_not_found no_args)), ended))
  submitted-Shows request caller other model s leaves h =
      let job = stored (c.now s) (new_job (c.token s) request caller model) in
      let accepted = (accept c request caller model s).1 in
      let (_, (job', there, same)) =
        run_outcome c (c.token s) leaves (λ fields t. rw memory refl) request caller accepted job
          (accepted_row request caller model s) in
      readers (c.token s) caller other job job' _ _ refl refl h there same
