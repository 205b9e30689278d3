-- ===== src/Jobs/Postgres/Rows.antt =====
-- What any sequence of calls of `PostgresJobRepository` of src/repositories/jobs.py leaves of the
-- rows that are there.
use prd_api_wrapper.Prelude.{
  ℕ, String, ◌≡◌, refl, ◌∙◌, ap, Bool, true, Option, none, some, List, [], ◌∷◌, arith, eq_iff,
  str_eq, Bool-cases, inl, inr,
}
use prd_api_wrapper.Prelude.Dict.{Dict, lookup, insert, lookup-insert}
use prd_api_wrapper.Exec.{Result, ok, raised}
use prd_api_wrapper.Auth.Keys.{ApiKey}
use prd_api_wrapper.Database.{fits_job, checked}
use prd_api_wrapper.Jobs.Models.{Job}
use prd_api_wrapper.Jobs.Store.{Field, set_field, set_fields}
use prd_api_wrapper.Jobs.Repository.{JobState}
use prd_api_wrapper.Jobs.Postgres.{inserted, is_free, commit_jobs, create, change, update, postgres}
use prd_api_wrapper.Jobs.Postgres.Laws.{IsTable}
use prd_api_wrapper.Jobs.Postgres.Refinement.{
  Call, create_call, update_call, get_call, prompt_call, perform, perform_all, perform-IsTable,
}

-- What a job was submitted with.
abbrev pub submitted : Job → String × String × String × String × Option ℕ
submitted job = (job.id, job.api_key_id, job.prompt, job.callback_url, job.created_at)

-- Every row of the first table is in the second one, as it was submitted.
abbrev pub Keeps : Dict Job → Dict Job → Type 0
Keeps jobs jobs' =
    (id : String) (job : Job)
    → lookup id jobs ≡ some job
    → (later : Job) × (lookup id jobs' ≡ some later) × (submitted later ≡ submitted job)

Keeps-refl : (jobs : Dict Job) → Keeps jobs jobs
Keeps-refl jobs id job there = (job, there, refl)

Keeps-trans : (a b c : Dict Job) → Keeps a b → Keeps b c → Keeps a c
Keeps-trans a b c h k id job there =
    let (middle, at, same) = h id job there in
    let (later, at', same') = k id middle at in (later, at', same' ∙ same)

set_field-submitted : (f : Field) (job : Job) → submitted (set_field f job) ≡ submitted job
unfolding set_field
set_field-submitted (Field.status v) job = refl
set_field-submitted (Field.content v) job = refl
set_field-submitted (Field.model v) job = refl
set_field-submitted (Field.error_code v) job = refl
set_field-submitted (Field.error_message v) job = refl
set_field-submitted (Field.prompt_tokens v) job = refl
set_field-submitted (Field.completion_tokens v) job = refl
set_field-submitted (Field.delivery_attempts v) job = refl
set_field-submitted (Field.delivered_at v) job = refl

set_fields-submitted : (fs : List Field) (job : Job) → submitted (set_fields fs job) ≡ submitted job
unfolding set_fields
set_fields-submitted [] job = refl
set_fields-submitted (f ∷ fs) job =
    set_fields-submitted fs (set_field f job) ∙ set_field-submitted f job

insert-Keeps-free :
    (k : String) (row : Job) (jobs : Dict Job)
    → is_free (lookup k jobs) ≡ true
    → Keeps jobs (insert k row jobs)
insert-Keeps-free k row jobs free id job there =
    (job, ground (arith, eq_iff k id, lookup-insert k id row jobs), refl)

insert-Keeps-same :
    (k : String) (old row : Job) (jobs : Dict Job)
    → lookup k jobs ≡ some old
    → submitted row ≡ submitted old
    → Keeps jobs (insert k row jobs)
insert-Keeps-same k old row jobs at same id job there = elim (Bool-cases (str_eq k id)) [
  | inl own ↦
      let here : k ≡ id = (eq_iff k id).0 own in
      let one : old ≡ job = ground (arith, here, at, there) in
      (row, rw (lookup-insert, own) refl, same ∙ ap submitted one)
  | inr other ↦ (job, rw (lookup-insert, other) there, refl)
]

module _ {V : Type 0} where
  commit_jobs-Keeps :
      (verdict : Result (Unit {0})) (jobs : Dict Job) (s : JobState V)
      → (verdict ≡ ok tt → Keeps s.jobs jobs)
      → Keeps s.jobs (commit_jobs verdict jobs s).1.jobs
  commit_jobs-Keeps (ok _) jobs s new = new refl
  commit_jobs-Keeps (raised r) jobs s new = Keeps-refl s.jobs

checked-allowed : (fits allowed : Bool) → checked fits allowed ≡ ok tt → allowed ≡ true
checked-allowed fits allowed h = ground arith

module _ {V : Type 0} (keys : V → List ApiKey) where
  create-Keeps :
      (now : ℕ) (job : Job) (s : JobState V) → Keeps s.jobs (create keys now job s).1.jobs
  unfolding create
  create-Keeps now job s =
      let row = inserted now job in
      commit_jobs-Keeps _ (insert row.id row s.jobs) s (λ h.
        let allowed = checked-allowed (fits_job row) _ h in
        insert-Keeps-free row.id row s.jobs (ground arith))

  change-Keeps :
      (job_id : String) (fields : List Field) (o : Option Job) (s : JobState V)
      → lookup job_id s.jobs ≡ o
      → Keeps s.jobs (change keys job_id fields o s).1.jobs
  change-Keeps job_id fields none s there = Keeps-refl s.jobs
  change-Keeps job_id fields (some job) s there =
      let row = set_fields fields job in
      commit_jobs-Keeps _ (insert job_id row s.jobs) s
        (λ h. insert-Keeps-same job_id job row s.jobs there (set_fields-submitted fields job))

module _ {V : Type 0} (keys : V → List ApiKey) (now : JobState V → ℕ) where
  perform-Keeps :
      (c : Call) (s : JobState V) → Keeps s.jobs (perform (postgres keys now) c s).1.jobs
  unfolding postgres update
  perform-Keeps (create_call job) s = create-Keeps keys (now s) job s
  perform-Keeps (update_call id fields) s = change-Keeps keys id fields (lookup id s.jobs) s refl
  perform-Keeps (get_call id owner) s = Keeps-refl s.jobs
  perform-Keeps (prompt_call id) s = Keeps-refl s.jobs

  -- From a table in order on, and whatever is asked of the repository over Postgres, refused writes
  -- included, no job is lost or replaced by another: each row stays under its id with the owner,
  -- the prompt, the callback URL and the time of creation that it had. The table stays in order
  -- too: each id stands once, and every row fits its columns, has the id that it stands under, and
  -- belongs to a key that was issued.
  pub perform_all-Keeps :
      (cs : List Call) (s : JobState V)
      → IsTable (keys s.rest) s.jobs
      → let s' = (perform_all (postgres keys now) cs s).1 in
        Keeps s.jobs s'.jobs × IsTable (keys s'.rest) s'.jobs
  unfolding perform_all
  perform_all-Keeps [] s t = (Keeps-refl s.jobs, t)
  perform_all-Keeps (c ∷ cs) s t =
      let s' = (perform (postgres keys now) c s).1 in
      let (kept, ordered) = perform_all-Keeps cs s' (perform-IsTable keys now c s t) in
      (Keeps-trans s.jobs s'.jobs _ (perform-Keeps c s) kept, ordered)
