-- ===== src/Jobs/Postgres/Accept.antt =====
-- Which jobs src/services/jobs.py can accept over the repository of src/repositories/jobs.py that it
-- really has.
use prd_api_wrapper.Prelude.{
  ℕ, String, ◌≡◌, refl, ◌∙◌, ◌↔◌, ◌⊎◌, inl, inr, Bool, true, false, ◌&&◌, Option, none, some, List,
  arith, eq_refl, str_eq, if◌then◌else◌,
}
use prd_api_wrapper.Prelude.Dict.{lookup, insert, lookup-insert, IsDict, insert-IsDict}
use prd_api_wrapper.Exec.{ok, raised}
use prd_api_wrapper.Errors.Handlers.{Raised, crash}
use prd_api_wrapper.Auth.Keys.{ApiKey}
use prd_api_wrapper.Database.{is_text, is_varchar, fits_job, has_key}
use prd_api_wrapper.Completion.Models.{Caller}
use prd_api_wrapper.Jobs.Models.{Job, JobRequest, JobStatus, JobView}
use prd_api_wrapper.Jobs.Store
use prd_api_wrapper.Jobs.Store.{to_view}
use prd_api_wrapper.Jobs.Store.Laws.{get_postgres-eq-get}
use prd_api_wrapper.Jobs.Repository.{JobState}
use prd_api_wrapper.Jobs.Service.{JobService, new_job, accept, get}
use prd_api_wrapper.Jobs.Postgres.{inserted, is_free, create, postgres}

-- The texts of a new job fit their columns.
abbrev pub Fits : String → JobRequest → Caller → String → Type 0
Fits id request caller model =
    (is_varchar 32 id ≡ true)
    × (is_varchar 32 caller.id ≡ true)
    × (is_varchar 255 model ≡ true)
    × (is_text request.prompt ≡ true)
    × (is_varchar 2048 request.callback_url ≡ true)

fits_job-new_job :
    (now : ℕ) (id : String) (request : JobRequest) (caller : Caller) (model : String)
    → (fits_job (inserted now (new_job id request caller model)) ≡ true)
      ↔ Fits id request caller model
unfolding fits_job inserted is_varchar
fits_job-new_job now id request caller model = (λ h. ground arith, λ h. ground arith)

is_free-none : (o : Option Job) → (is_free o ≡ true) ↔ (o ≡ none)
is_free-none none = (λ h. refl, λ h. refl)
is_free-none (some job) = (λ h. cc, λ h. cc)

module _ {V : Type 0} (keys : V → List ApiKey) (c : JobService V) (now : JobState V → ℕ) where
  -- The job can be stored: its texts fit, its id is new, and its caller has a key.
  abbrev pub CanStore : JobRequest → Caller → String → JobState V → Type 0
  CanStore request caller model s =
      Fits (c.token s) request caller model
      × (lookup (c.token s) s.jobs ≡ none)
      × (has_key caller.id (keys s.rest) ≡ true)

  -- The state with the new row.
  abbrev pub stored : JobRequest → Caller → String → JobState V → JobState V
  stored request caller model s = record s {
    jobs = insert (c.token s) (inserted (now s) (new_job (c.token s) request caller model)) s.jobs;
  }

  accept_step :
      (request : JobRequest) (caller : Caller) (model : String) (s : JobState V)
      (fits free keyed : Bool)
      → c.jobs ≡ postgres keys now
      → fits_job (inserted (now s) (new_job (c.token s) request caller model)) ≡ fits
      → is_free (lookup (c.token s) s.jobs) ≡ free
      → has_key caller.id (keys s.rest) ≡ keyed
      → accept c request caller model s ≡ (
          if fits && (free && keyed)
          then (
            ok (record { id = c.token s; status = JobStatus.pending }),
            stored request caller model s,
          )
          else (raised (crash (if fits then "IntegrityError" else "DBAPIError")), s))
  unfolding accept postgres create
  accept_step request caller model s true true true e f g h = rw (e, f, g, h) refl
  accept_step request caller model s true true false e f g h = rw (e, f, g, h) refl
  accept_step request caller model s true false keyed e f g h = rw (e, f, g) refl
  accept_step request caller model s false free keyed e f g h = rw (e, f) refl

  read_stored :
      (request : JobRequest) (caller : Caller) (model : String) (s : JobState V)
      → c.jobs ≡ postgres keys now
      → IsDict s.jobs
      → let job = inserted (now s) (new_job (c.token s) request caller model) in
        get c (c.token s) caller (stored request caller model s)
        ≡ (ok (to_view job), stored request caller model s)
  unfolding get postgres
  read_stored request caller model s e dict =
      let job = inserted (now s) (new_job (c.token s) request caller model) in
      let jobs = insert (c.token s) job s.jobs in
      let self : str_eq (c.token s) (c.token s) ≡ true = eq_refl (c.token s) in
      let own : str_eq caller.id caller.id ≡ true = eq_refl caller.id in
      let there : lookup (c.token s) jobs ≡ some job = rw (lookup-insert, self) refl in
      let found : Store.get_postgres (c.token s) caller.id jobs ≡ some (to_view job) =
        get_postgres-eq-get (c.token s) caller.id jobs (insert-IsDict (c.token s) job s.jobs dict)
        ∙ unfold Store.get inserted in ground (arith, there, own) in
      rw (e, found) refl

  -- Accepted, stored, and shown to its owner; or refused and nothing stored.
  abbrev pub Verdict : JobRequest → Caller → String → JobState V → Type 0
  Verdict request caller model s =
      let o = accept c request caller model s in
      let after = stored request caller model s in
      (CanStore request caller model s
        × (o ≡ (ok (record { id = c.token s; status = JobStatus.pending }), after))
        × ((view : JobView) × (get c (c.token s) caller after ≡ (ok view, after))
            × (view.id ≡ c.token s)
            × (view.status ≡ JobStatus.pending)))
      ⊎ ((CanStore request caller model s → ⊥) × ((e : Raised) × (o ≡ (raised e, s))))

  judged :
      (request : JobRequest) (caller : Caller) (model : String) (s : JobState V)
      (fits free keyed : Bool)
      → c.jobs ≡ postgres keys now
      → IsDict s.jobs
      → fits_job (inserted (now s) (new_job (c.token s) request caller model)) ≡ fits
      → is_free (lookup (c.token s) s.jobs) ≡ free
      → has_key caller.id (keys s.rest) ≡ keyed
      → Verdict request caller model s
  unfolding to_view inserted
  judged request caller model s true true true e dict f g h =
      let row = inserted (now s) (new_job (c.token s) request caller model) in
      inl (
        (
          (fits_job-new_job (now s) (c.token s) request caller model).0 f,
          (is_free-none (lookup (c.token s) s.jobs)).0 g,
          h,
        ),
        accept_step request caller model s true true true e f g h,
        (to_view row, read_stored request caller model s e dict, refl, refl),
      )
  judged request caller model s true true false e dict f g h = inr (
    λ (_, _, k). cc,
    (crash "IntegrityError", accept_step request caller model s true true false e f g h),
  )
  judged request caller model s true false keyed e dict f g h = inr (
    λ (_, n, _). cc ((is_free-none (lookup (c.token s) s.jobs)).1 n),
    (crash "IntegrityError", accept_step request caller model s true false keyed e f g h),
  )
  judged request caller model s false free keyed e dict f g h = inr (
    λ (t, _, _). cc ((fits_job-new_job (now s) (c.token s) request caller model).1 t),
    (crash "DBAPIError", accept_step request caller model s false free keyed e f g h),
  )

  -- Over Postgres, where no id stands twice in the table, a job is accepted exactly when its texts
  -- fit their columns, its id is new and its caller has a row in the table of keys. Then its row is
  -- stored, the answer has its id, and its owner can read it as pending; else an exception is raised
  -- and nothing is stored.
  pub accept_exactly :
      (request : JobRequest) (caller : Caller) (model : String) (s : JobState V)
      → c.jobs ≡ postgres keys now
      → IsDict s.jobs
      → Verdict request caller model s
  accept_exactly request caller model s e dict =
      judged request caller model s _ _ _ e dict refl refl refl
