-- ===== src/Jobs/Course.antt =====
-- The statuses that a job goes through while src/services/jobs.py works on it, as a state machine.
mod Tests
use prd_api_wrapper.Prelude.{
  ℕ, String, ◌≡◌, refl, sym, ap, ◌∙◌, ◌⊎◌, inl, inr, true, false, List, [], ◌∷◌, ◌++◌, Bool-cases,
}
use mathlib.Core.List.{append-nil, append_assoc}
use prd_api_wrapper.Errors.Handlers.{Raised, app, crash, invalid_request}
use prd_api_wrapper.Exec.{Result, ok, raised, continue}
use prd_api_wrapper.Completion.Models.{Caller, CompletionRequest, CompletionResponse}
use prd_api_wrapper.Webhooks.{is_delivery_failure}
use prd_api_wrapper.Jobs.Models.{JobStatus, is_final, JobRequest, WebhookPayload}
use prd_api_wrapper.Jobs.Store.{Field}
use prd_api_wrapper.Jobs.Repository.{JobState}
use prd_api_wrapper.Jobs.Service.{
  JobService, completion_request, failed_fields, succeeded_fields, failed_payload,
  succeeded_payload, settle, note_failure, deliver_and_note, deliver, execute, run,
}

-- The steps of the status.
pub data Step : JobStatus → JobStatus → Type 0 where
  begins : Step JobStatus.pending JobStatus.running
  succeeds : Step JobStatus.running JobStatus.succeeded
  fails : Step JobStatus.running JobStatus.failed

-- The statuses that follow one another from the first one on, and the last of them.
pub data Course : JobStatus → List JobStatus → JobStatus → Type 0 where
  stays : (a : JobStatus) → Course a [] a
  moves :
      (a b : JobStatus) {l : List JobStatus} {z : JobStatus}
      → Step a b
      → Course b l z
      → Course a (b ∷ l) z

-- The statuses among the fields of a write.
abbrev pub statuses : List Field → List JobStatus
statuses [] = []
statuses (Field.status a ∷ fs) = a ∷ statuses fs
statuses (_ ∷ fs) = statuses fs

module _ {V : Type 0} (c : JobService V) (job_id : String) (log : JobState V → List JobStatus) where
  -- A write to the row of the job adds its statuses to the log, or is refused and adds nothing.
  abbrev pub IsLogged : List Field → JobState V → Type 0
  IsLogged fields s =
      let (r, t) = c.jobs.update job_id fields s in
      ((r ≡ ok tt) × (log t ≡ log s ++ statuses fields))
      ⊎ ((e : Raised) × (r ≡ raised e) × (log t ≡ log s))

  pub record Logs : Type 0 where
    pub updates : (fields : List Field) (s : JobState V) → IsLogged fields s
    pub completes :
        (request : CompletionRequest) (caller : Caller) (s : JobState V)
        → log (c.complete request caller s).1 ≡ log s
    pub delivers :
        (url : String) (payload : WebhookPayload) (s : JobState V)
        → log (c.deliver url payload s).1 ≡ log s

  -- From this status on, the log grows by the statuses of a course, which ends in a final one or in
  -- an exception.
  abbrev pub Goes : JobStatus → List JobStatus → Result (Unit {0}) × JobState V → Type 0
  Goes a before o =
      (l : List JobStatus) × (z : JobStatus) × (log o.1 ≡ before ++ l)
      × Course a l z
      × ((is_final z ≡ true) ⊎ ((e : Raised) × (o.0 ≡ raised e)))

  module _ (logs : Logs) (request : JobRequest) where
    quiet_update :
        (fields : List Field) (s : JobState V)
        → statuses fields ≡ []
        → log (c.jobs.update job_id fields s).1 ≡ log s
    quiet_update fields s none_ = elim (logs.updates fields s) [
      | inl (_, added) ↦ added ∙ rw (none_, append-nil) refl
      | inr (_, _, same) ↦ same
    ]

    noted : (r : Result (Unit {0})) (s : JobState V) → log (note_failure c job_id (r, s)).1 ≡ log s
    unfolding note_failure
    noted (ok _) s = refl
    noted (raised (app e)) s = elim (Bool-cases (is_delivery_failure e.kind)) [
      | inl undelivered ↦ rw undelivered (quiet_update _ s refl)
      | inr other ↦ rw other refl
    ]
    noted (raised (crash m)) s = refl
    noted (raised (invalid_request v)) s = refl

    noted_success :
        (r : Result ℕ) (s : JobState V)
        → log
            (continue r
              (λ attempts t.
                c.jobs.update job_id
                  (Field.delivery_attempts attempts ∷ Field.delivered_at (c.now t) ∷ [])
                  t)
              s).1
          ≡ log s
    noted_success (ok n) s = quiet_update _ s refl
    noted_success (raised e) s = refl

    delivered :
        (url : String) (payload : WebhookPayload) (s : JobState V)
        → log (deliver c job_id url payload s).1 ≡ log s
    unfolding deliver deliver_and_note
    delivered url payload s =
        noted (deliver_and_note c job_id url payload s).0
          (deliver_and_note c job_id url payload s).1
        ∙ noted_success (c.deliver url payload s).0 (c.deliver url payload s).1
        ∙ logs.delivers url payload s

    -- The write of a final status, and the delivery that follows it if it was made.
    written :
        (u : Result (Unit {0}) × JobState V) (a : JobStatus) (payload : WebhookPayload)
        (before : List JobStatus)
        → ((u.0 ≡ ok tt) × (log u.1 ≡ before ++ a ∷ []))
          ⊎ ((e : Raised) × (u.0 ≡ raised e) × (log u.1 ≡ before))
        → Step JobStatus.running a
        → is_final a ≡ true
        → let o = continue u.0 (λ _ t. (ok payload, t)) u.1 in
          Goes JobStatus.running before (continue o.0 (deliver c job_id request.callback_url) o.1)
    written (ok _, t) a payload before (inl (_, added)) step final = (
      a ∷ [],
      a,
      delivered request.callback_url payload t ∙ added,
      moves JobStatus.running a step (stays a),
      inl final,
    )
    written (ok _, t) a payload before (inr (e, wrong, _)) step final = cc
    written (raised e, t) a payload before (inl (wrong, _)) step final = cc
    written (raised e, t) a payload before (inr (_, _, same)) step final =
        ([], JobStatus.running, same ∙ rw append-nil refl, stays JobStatus.running, inr (e, refl))

    settled :
        (r : Result CompletionResponse) (s : JobState V)
        → let o = settle c job_id request (r, s) in
          Goes JobStatus.running (log s) (continue o.0 (deliver c job_id request.callback_url) o.1)
    unfolding settle is_final
    settled (ok r) s =
        written (c.jobs.update job_id (succeeded_fields r) s) JobStatus.succeeded
          (succeeded_payload job_id r) (log s) (logs.updates (succeeded_fields r) s) succeeds refl
    settled (raised (app e)) s =
        written (c.jobs.update job_id (failed_fields e) s) JobStatus.failed
          (failed_payload job_id request e) (log s) (logs.updates (failed_fields e) s) fails refl
    settled (raised (crash m)) s =
        ([], JobStatus.running, rw append-nil refl, stays JobStatus.running, inr (crash m, refl))
    settled (raised (invalid_request v)) s = (
      [],
      JobStatus.running,
      rw append-nil refl,
      stays JobStatus.running,
      inr (invalid_request v, refl),
    )

    begun :
        (u : Result (Unit {0}) × JobState V) (caller : Caller) (before : List JobStatus)
        → ((u.0 ≡ ok tt) × (log u.1 ≡ before ++ JobStatus.running ∷ []))
          ⊎ ((e : Raised) × (u.0 ≡ raised e) × (log u.1 ≡ before))
        → Goes JobStatus.pending before (
            continue u.0
              (λ _ t.
                let o = execute c job_id request caller t in
                continue o.0 (deliver c job_id request.callback_url) o.1)
              u.1)
    unfolding execute
    begun (ok _, t) caller before (inl (_, added)) =
        let o = c.complete (completion_request request) caller t in
        let (l, z, grown, course, final) = settled o.0 o.1 in
        (
          JobStatus.running ∷ l,
          z,
          grown
              ∙ rw (logs.completes (completion_request request) caller t, added)
                  (append_assoc before (JobStatus.running ∷ []) l),
          moves JobStatus.pending JobStatus.running begins course,
          final,
        )
    begun (ok _, t) caller before (inr (e, wrong, _)) = cc
    begun (raised e, t) caller before (inl (wrong, _)) = cc
    begun (raised e, t) caller before (inr (_, _, same)) =
        ([], JobStatus.pending, same ∙ rw append-nil refl, stays JobStatus.pending, inr (e, refl))

    -- The background task of a pending job takes its status along the steps of the machine, whatever
    -- the provider and the receiver do and whichever write the database refuses: from pending to
    -- running, from there to succeeded or to failed, never back and never over a step. If the last
    -- status is not final, the task raises. It is assumed that a write is logged or refused, and that
    -- nothing else writes to the log.
    pub run-Goes :
        (caller : Caller) (s : JobState V)
        → Goes JobStatus.pending (log s) (run c job_id request caller s)
    unfolding run
    run-Goes caller s =
        let fields = Field.status JobStatus.running ∷ [] in
        begun (c.jobs.update job_id fields s) caller (log s) (logs.updates fields s)
