-- ===== src/Jobs/Laws.antt =====
-- What a job of src/services/jobs.py goes through, and who may see it.
use prd_api_wrapper.Prelude.{
  ℕ, String, ◌≡◌, refl, sym, ◌∙◌, ◌⊎◌, some, List, [], ◌∷◌, inl, inr, Bool-cases,
}
use prd_api_wrapper.Prelude.Dict.{lookup}
use prd_api_wrapper.Errors.Handlers.{app, crash, invalid_request}
use prd_api_wrapper.Exec.{Result, ok, raised, continue}
use prd_api_wrapper.Completion.Models.{Caller, CompletionResponse}
use prd_api_wrapper.Webhooks.{is_delivery_failure}
use prd_api_wrapper.Jobs.Models.{JobStatus, JobRequest, WebhookPayload, Job}
use prd_api_wrapper.Jobs.Store.{Field, set_fields}
use prd_api_wrapper.Jobs.Service.{
  JobService, completion_request, attempts_of, failed_fields, succeeded_fields, succeeded_payload,
  failed_payload, settle, note_failure, deliver_and_note, deliver, execute, run,
}
use prd_api_wrapper.Jobs.Repository.{JobState, write}
use prd_api_wrapper.Jobs.Outcome.{
  expected, running, silent, lookup-write, Obeys, LeavesRow, HasRow, IsRefusal, IsLeftWith,
  IsInterrupted,
}

module _ {V : Type 0} (c : JobService V) (job_id : String) where
  abbrev IsNoted : Job → Result (Unit {0}) × JobState V → Type 0
  IsNoted job o =
      ((o.0 ≡ ok tt) ⊎ ((m : String) × (o.0 ≡ raised (crash m)) × IsRefusal c job_id m))
      × HasRow c job_id job o.1

  module _ (obeys : Obeys c job_id) where
    -- Noting how a delivery ended changes nothing else of the job.
    noted :
        (r : Result ℕ) (s : JobState V) (job : Job)
        → lookup job_id s.jobs ≡ some job
        → IsNoted job (
            note_failure c job_id (
              continue r
                (λ attempts t.
                  c.jobs.update job_id
                    (Field.delivery_attempts attempts ∷ Field.delivered_at (c.now t) ∷ [])
                    t)
                s))
    unfolding note_failure
    noted (ok n) s job h =
        elim (obeys.updates (Field.delivery_attempts n ∷ Field.delivered_at (c.now s) ∷ []) s) [
          | inl made ↦ rw made (
            inl refl,
            (
              record job { delivery_attempts = some n; delivered_at = some (c.now s) },
              rw (lookup-write c job_id, h) (unfold set_fields in refl),
              refl,
            ),
          )
          | inr (m, refused) ↦ rw refused (inl refl, (job, h, refl))
        ]
    noted (raised (app e)) s job h =
        let n = attempts_of (lookup "attempts" e.details) in
        elim (Bool-cases (is_delivery_failure e.kind)) [
          | inl undelivered ↦
              rw undelivered (elim (obeys.updates (Field.delivery_attempts n ∷ []) s) [
                | inl made ↦ rw made (
                  inl refl,
                  (
                    record job { delivery_attempts = some n },
                    rw (lookup-write c job_id, h) (unfold set_fields in refl),
                    refl,
                  ),
                )
                | inr (m, refused) ↦
                    rw refused
                      (inr (m, refl, (Field.delivery_attempts n ∷ [], s, refused)), (job, h, refl))
              ])
          | inr other ↦ rw other (inl refl, (job, h, refl))
        ]
    noted (raised (crash m)) s job h = (inl refl, (job, h, refl))
    noted (raised (invalid_request v)) s job h = (inl refl, (job, h, refl))

    module _ (leaves : LeavesRow c job_id) (request : JobRequest) where
      delivered :
          (url : String) (payload : WebhookPayload) (s : JobState V) (job : Job)
          → lookup job_id s.jobs ≡ some job
          → IsNoted job (deliver c job_id url payload s)
      unfolding deliver deliver_and_note
      delivered url payload s job h =
          noted (c.deliver url payload s).0 (c.deliver url payload s).1 job
            (leaves.delivers url payload s ∙ h)

      concluded :
          (r : Result CompletionResponse) (job : Job) (o : Result (Unit {0}) × JobState V)
          → silent r ≡ ok tt
          → IsNoted (expected r job) o
          → IsLeftWith c job_id r job o ⊎ IsInterrupted c job_id r job o
      concluded r job o s (inl e, row) = inl (e ∙ sym s, row)
      concluded r job o s (inr (m, e, refusal), row) = inr (m, e, refusal, inr (inr row))

      settled :
          (r : Result CompletionResponse) (s : JobState V) (job : Job)
          → lookup job_id s.jobs ≡ some (running job)
          → let o = (settle c job_id request (r, s)) in
            let end = continue o.0 (deliver c job_id request.callback_url) o.1 in
            IsLeftWith c job_id r job end ⊎ IsInterrupted c job_id r job end
      unfolding settle
      settled (ok r) s job h = elim (obeys.updates (succeeded_fields r) s) [
        | inl made ↦ rw made (
            let after = write job_id (succeeded_fields r) s in
            let payload = succeeded_payload job_id r in
            concluded (ok r) job (deliver c job_id request.callback_url payload after) refl (
              delivered request.callback_url payload after (expected (ok r) job)
                (rw (lookup-write c job_id, h) (unfold set_fields in refl))))
        | inr (m, refused) ↦
            rw refused
              (inr (m, refl, (succeeded_fields r, s, refused), inr (inl (running job, h, refl))))
      ]
      settled (raised (app e)) s job h = elim (obeys.updates (failed_fields e) s) [
        | inl made ↦ rw made (
            let after = write job_id (failed_fields e) s in
            let payload = failed_payload job_id request e in
            concluded (raised (app e)) job (deliver c job_id request.callback_url payload after)
              refl
              (delivered request.callback_url payload after (expected (raised (app e)) job)
                (rw (lookup-write c job_id, h) (unfold set_fields in refl))))
        | inr (m, refused) ↦
            rw refused
              (inr (m, refl, (failed_fields e, s, refused), inr (inl (running job, h, refl))))
      ]
      settled (raised (crash m)) s job h = inl (refl, (running job, h, refl))
      settled (raised (invalid_request v)) s job h = inl (refl, (running job, h, refl))

      -- When the background task of a stored job ends, the job is settled as the next theorem says,
      -- or a write to its row was refused: then that error is raised, and the job is as it was, or
      -- running, or settled, never half of one. It is assumed that a refused write changes nothing
      -- and that no one else writes to the row of the job.
      pub run-IsInterrupted :
          (caller : Caller) (s : JobState V) (job : Job)
          → lookup job_id s.jobs ≡ some job
          → let begun = write job_id (Field.status JobStatus.running ∷ []) s in
            let r = (c.complete (completion_request request) caller begun).0 in
            let o = run c job_id request caller s in
            IsLeftWith c job_id r job o ⊎ IsInterrupted c job_id r job o
      unfolding run execute
      run-IsInterrupted caller s job h =
          let fields = Field.status JobStatus.running ∷ [] in
          let begun = write job_id fields s in
          let o = c.complete (completion_request request) caller begun in
          elim (obeys.updates fields s) [
            | inl made ↦ rw made (
                settled o.0 o.1 job (
                  leaves.completes (completion_request request) caller begun
                  ∙ rw (lookup-write c job_id, h) (unfold set_fields in refl)))
            | inr (m, refused) ↦
                rw refused (inr (m, refl, (fields, s, refused), inl (job, h, refl)))
          ]

  -- When the background task of a stored job ends, the job has succeeded with the answer, or has
  -- failed with the code and the message of the error, whatever became of the delivery, and nothing
  -- was raised. Only where the completion raised something that is none of our errors is that
  -- raised, and the job is left running. It is assumed that no write to the row of the job is
  -- refused, and that no one else writes to it.
  pub run_outcome :
      (leaves : LeavesRow c job_id)
      → ((fields : List Field) (s : JobState V)
          → c.jobs.update job_id fields s ≡ (ok tt, write job_id fields s))
      → (request : JobRequest) (caller : Caller) (s : JobState V) (job : Job)
      → lookup job_id s.jobs ≡ some job
      → IsLeftWith c job_id
          (c.complete
            (completion_request request)
            caller
            (write job_id (Field.status JobStatus.running ∷ []) s)).0
          job
          (run c job_id request caller s)
  run_outcome leaves writes request caller s job h =
      let obeys : Obeys c job_id = record { updates = λ fields t. inl (writes fields t) } in
      elim (run-IsInterrupted obeys leaves request caller s job h) [
        | inl left ↦ left
        | inr (m, _, (fields, t, refused), _) ↦ cc (writes fields t, refused)
      ]
