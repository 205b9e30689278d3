-- ===== src/Jobs/Wiring/Laws.antt =====
-- What becomes of a job of src/services/jobs.py with the services that it really has.
use prd_api_wrapper.Prelude.{List, ℕ, ◌+◌, ◌<◌, [], ◌∷◌, String, ◌≡◌, refl, ap, Option, some}
use prd_api_wrapper.Prelude.Dict.{Dict, lookup}
use mathlib.Core.Path.{subst}
use prd_api_wrapper.Errors.{ErrorClass, class_code, new, no_args}
use prd_api_wrapper.Errors.Handlers.{app}
use prd_api_wrapper.Exec.{Result, ok, raised}
use prd_api_wrapper.Resilience.Breaker.{opened}
use prd_api_wrapper.Completion.Models.{Caller, CompletionResponse}
use prd_api_wrapper.Completion.Service
use prd_api_wrapper.Completion.Service.{State}
use prd_api_wrapper.Completion.Laws.Guard.{complete_paused}
use prd_api_wrapper.Completion.Laws.Frame.{KeepsWorld, complete_keeps}
use prd_api_wrapper.Webhooks.{WebhookService}
use prd_api_wrapper.Webhooks.Frame.{KeepsState, deliver_keeps}
use prd_api_wrapper.Jobs.Models.{Job, JobRequest, JobStatus, WebhookPayload}
use prd_api_wrapper.Jobs.Store.{Field}
use prd_api_wrapper.Jobs.Repository.{JobState, JobRepository, write}
use prd_api_wrapper.Jobs.Service.{completion_request, run}
use prd_api_wrapper.Jobs.Outcome.{LeavesRow, IsLeftWith}
use prd_api_wrapper.Jobs.Laws.{run_outcome}
use prd_api_wrapper.Jobs.Wiring.{into, complete_shared, get_job_service}

module _ {O : Type 0} (jobs : JobRepository (State O)) (c : Service.Service (Dict Job × O))
    (w : WebhookService (JobState (State O))) (dump : WebhookPayload → String)
    (token : JobState (State O) → String) (now : JobState (State O) → ℕ) (job_id : String) where
  -- No call that leaves the process, and no other task during one, writes to the row of the job.
  pub record CallsLeaveRow : Type 0 where
    pub completion :
        (row : Option Job) → KeepsWorld c (λ (world : Dict Job × O). lookup job_id world.0 ≡ row)
    pub delivery :
        (row : Option Job) → KeepsState w (λ (s : JobState (State O)). lookup job_id s.jobs ≡ row)

  get_job_service-LeavesRow :
      CallsLeaveRow → LeavesRow (get_job_service jobs c w dump token now) job_id
  unfolding get_job_service complete_shared
  get_job_service-LeavesRow calls = record {
    completes = λ request caller s.
        complete_keeps c (λ (world : Dict Job × O). lookup job_id world.0 ≡ lookup job_id s.jobs)
          (calls.completion (lookup job_id s.jobs)) request caller (into s) refl;
    delivers = λ url payload s.
        deliver_keeps w (λ (t : JobState (State O)). lookup job_id t.jobs ≡ lookup job_id s.jobs)
          (calls.delivery (lookup job_id s.jobs)) url (dump payload) s refl;
  }

  -- A job whose turn comes while the circuit is open and cooling off ends failed with the code
  -- `upstream_circuit_open`, whatever the receiver of the callback does, and nothing is raised. It
  -- is assumed that no write to its row is refused, and that neither the calls that leave the
  -- process nor other tasks write to it.
  pub run_paused :
      (calls : CallsLeaveRow)
      → ((fields : List Field) (s : JobState (State O))
          → jobs.update job_id fields s ≡ (ok tt, write job_id fields s))
      → (request : JobRequest) (caller : Caller) (s : JobState (State O)) (job : Job)
      → lookup job_id s.jobs ≡ some job
      → s.rest.breaker.state ≡ opened
      → c.clock (into (write job_id (Field.status JobStatus.running ∷ []) s))
        < s.rest.breaker.reset_timeout + s.rest.breaker.opened_at
      → let o = run (get_job_service jobs c w dump token now) job_id request caller s in
        (o.0 ≡ ok tt)
        × ((job' : Job) × (lookup job_id o.1.jobs ≡ some job')
            × (job'.status ≡ JobStatus.failed)
            × (job'.error_code ≡ some "upstream_circuit_open")
            × (job'.content ≡ job.content))
  run_paused calls writes request caller s job h o early =
      let service = get_job_service jobs c w dump token now in
      let begun = write job_id (Field.status JobStatus.running ∷ []) s in
      let refused : (service.complete (completion_request request) caller begun).0
          ≡ raised (app (new ErrorClass.upstream_circuit_open no_args)) =
        unfold get_job_service complete_shared in
        ap (λ (r : Result CompletionResponse × State (Dict Job × O)). r.0)
          (complete_paused c (completion_request request) caller (into begun) o early) in
      let left =
        subst
          (λ (r : Result CompletionResponse).
            IsLeftWith service job_id r job (run service job_id request caller s))
          refused
          (run_outcome service job_id (get_job_service-LeavesRow calls)
            (λ fields t. unfold get_job_service in writes fields t) request caller s job h) in
      let (quiet, (job', stored, same)) = left in
      (
        quiet,
        (
          job',
          stored,
          unfold new class_code in ap (λ (j : Job). j.status) same,
          unfold new class_code in ap (λ (j : Job). j.error_code) same,
          unfold new class_code in ap (λ (j : Job). j.content) same,
        ),
      )
