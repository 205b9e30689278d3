-- ===== src/Jobs/Service.antt =====
-- `JobService` of src/services/jobs.py, over any repository that fills the interface of
-- src/repositories/jobs.py and may fail.
--
-- What a completion and a delivery do is given by the two services, as functions of the whole
-- state: other tasks may change it while they wait.
use prd_api_wrapper.Prelude.{
  ℕ, pos, String, Option, none, some, List, [], ◌∷◌, or_default, if◌then◌else◌,
}
use prd_api_wrapper.Prelude.Dict.{lookup}
use prd_api_wrapper.Json.{Json, int}
use prd_api_wrapper.Errors.{AppError, ErrorClass, class_code, new, no_args}
use prd_api_wrapper.Errors.Handlers.{app, crash, invalid_request}
use prd_api_wrapper.Exec.{Result, ok, raised, Exec, pure, ◌>>=◌, ◌>>◌}
use prd_api_wrapper.Completion.Models.{Caller, CompletionRequest, CompletionResponse}
use prd_api_wrapper.Webhooks.{is_delivery_failure}
use prd_api_wrapper.Jobs.Models.{JobStatus, JobRequest, JobAccepted, JobView, WebhookPayload, Job}
use prd_api_wrapper.Jobs.Store.{Field}
use prd_api_wrapper.Jobs.Repository.{JobState, JobRepository}

-- `token` is `secrets.token_hex(16)` and `now` the seconds of `datetime.now(UTC)`.
pub record JobService (V : Type 0) : Type 0 where
  pub jobs : JobRepository V
  pub complete : CompletionRequest → Caller → Exec (JobState V) CompletionResponse
  pub deliver : String → WebhookPayload → Exec (JobState V) ℕ
  pub token : JobState V → String
  pub now : JobState V → ℕ

abbrev pub completion_request : JobRequest → CompletionRequest
completion_request request = record {
  prompt = request.prompt;
  model = request.model;
  temperature = request.temperature;
  max_tokens = request.max_tokens;
}

abbrev pub new_job : String → JobRequest → Caller → String → Job
new_job id request caller model = record {
  id = id;
  api_key_id = caller.id;
  status = JobStatus.pending;
  model = model;
  prompt = request.prompt;
  callback_url = request.callback_url;
  content = none;
  error_code = none;
  error_message = none;
  prompt_tokens = none;
  completion_tokens = none;
  delivery_attempts = none;
  delivered_at = none;
  created_at = none;
}

-- `error.details.get("attempts", 0)`, which is a number wherever it is set.
abbrev pub attempts_of : Option Json → ℕ
attempts_of (some (int (pos n))) = n
attempts_of _ = 0

abbrev pub failed_fields : AppError → List Field
failed_fields e =
    Field.status JobStatus.failed
    ∷ Field.error_code (class_code e.kind)
    ∷ Field.error_message e.message
    ∷ []

abbrev pub succeeded_fields : CompletionResponse → List Field
succeeded_fields r =
    Field.status JobStatus.succeeded
    ∷ Field.content r.content
    ∷ Field.model r.model
    ∷ Field.prompt_tokens r.usage.prompt_tokens
    ∷ Field.completion_tokens r.usage.completion_tokens
    ∷ []

abbrev pub succeeded_payload : String → CompletionResponse → WebhookPayload
succeeded_payload job_id r = record {
  job_id = job_id;
  status = JobStatus.succeeded;
  model = r.model;
  content = some r.content;
  error_code = none;
  error_message = none;
}

abbrev pub failed_payload : String → JobRequest → AppError → WebhookPayload
failed_payload job_id request e = record {
  job_id = job_id;
  status = JobStatus.failed;
  model = or_default request.model "";
  content = none;
  error_code = some (class_code e.kind);
  error_message = some e.message;
}

module _ {V : Type 0} where
  abbrev pub or_not_found : Option JobView → Exec (JobState V) JobView
  or_not_found none s = (raised (app (new ErrorClass.job_not_found no_args)), s)
  or_not_found (some v) s = (ok v, s)

  -- `accept`
  unfoldable pub accept :
      JobService V → JobRequest → Caller → String → Exec (JobState V) JobAccepted
  accept c request caller model s =
      let job = new_job (c.token s) request caller model in
      (c.jobs.create job >> pure (record { id = job.id; status = JobStatus.pending })) s

  -- `get`
  unfoldable pub get : JobService V → String → Caller → Exec (JobState V) JobView
  get c job_id caller = do view ← c.jobs.get job_id caller.id; or_not_found view

  -- `_execute`, once the completion has ended.
  unfoldable pub settle :
      JobService V
      → String
      → JobRequest
      → Result CompletionResponse × JobState V
      → Result WebhookPayload × JobState V
  unfolding class_code
  settle c job_id request (ok r, s) =
      (c.jobs.update job_id (succeeded_fields r) >> pure (succeeded_payload job_id r)) s
  settle c job_id request (raised (app e), s) =
      (c.jobs.update job_id (failed_fields e) >> pure (failed_payload job_id request e)) s
  settle c job_id request (raised (crash m), s) = (raised (crash m), s)
  settle c job_id request (raised (invalid_request v), s) = (raised (invalid_request v), s)

  -- `_execute`
  unfoldable pub execute :
      JobService V → String → JobRequest → Caller → Exec (JobState V) WebhookPayload
  unfolding settle
  execute c job_id request caller s =
      settle c job_id request (c.complete (completion_request request) caller s)

  -- The two handlers of `_deliver`. A write that fails in the first is not caught by the second.
  unfoldable pub note_failure :
      JobService V → String → Result (Unit {0}) × JobState V → Result (Unit {0}) × JobState V
  note_failure c job_id (ok _, s) = (ok tt, s)
  note_failure c job_id (raised (app e), s) =
      if is_delivery_failure e.kind
      then c.jobs.update job_id
          (Field.delivery_attempts (attempts_of (lookup "attempts" e.details)) ∷ []) s
      else (ok tt, s)
  note_failure c job_id (raised (crash m), s) = (ok tt, s)
  note_failure c job_id (raised (invalid_request v), s) = (ok tt, s)

  -- The `try` of `_deliver`.
  unfoldable pub deliver_and_note :
      JobService V → String → String → WebhookPayload → Exec (JobState V) (Unit {0})
  deliver_and_note c job_id url payload = do
    attempts ← c.deliver url payload
    (λ s.
        c.jobs.update job_id (Field.delivery_attempts attempts ∷ Field.delivered_at (c.now s) ∷ [])
          s)

  -- `_deliver`
  unfoldable pub deliver :
      JobService V → String → String → WebhookPayload → Exec (JobState V) (Unit {0})
  unfolding note_failure deliver_and_note
  deliver c job_id url payload s = note_failure c job_id (deliver_and_note c job_id url payload s)

  -- `run`
  unfoldable pub run : JobService V → String → JobRequest → Caller → Exec (JobState V) (Unit {0})
  unfolding execute deliver
  run c job_id request caller = do
    c.jobs.update job_id (Field.status JobStatus.running ∷ [])
    payload ← execute c job_id request caller
    deliver c job_id request.callback_url payload
