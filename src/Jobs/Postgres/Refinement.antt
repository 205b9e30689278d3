-- ===== src/Jobs/Postgres/Refinement.antt =====
-- Sequences of calls of a repository of src/repositories/jobs.py, and the proof that the one over
-- Postgres answers as the one in memory does.
use prd_api_wrapper.Prelude.{ℕ, String, ◌≡◌, refl, ◌∙◌, true, Option, none, some, List, [], ◌∷◌, ap}
use prd_api_wrapper.Prelude.Dict.{Dict, IsDict, lookup, insert}
use prd_api_wrapper.Errors.Handlers.{Raised}
use prd_api_wrapper.Exec.{Result, ok, raised}
use prd_api_wrapper.Auth.Keys.{ApiKey}
use prd_api_wrapper.Database.{fits_job, checked}
use prd_api_wrapper.Jobs.Models.{Job, JobView}
use prd_api_wrapper.Jobs.Store
use prd_api_wrapper.Jobs.Store.{Field, set_fields}
use prd_api_wrapper.Jobs.Store.Laws.{get_postgres-eq-get}
use prd_api_wrapper.Jobs.Repository.{JobState, JobRepository, in_memory, write}
use prd_api_wrapper.Jobs.Postgres.{inserted, commit_jobs, create, change, update, postgres}
use prd_api_wrapper.Jobs.Postgres.Laws.{IsTable, create-IsTable, update-IsTable}

-- One call of a repository, and what it returned.
pub data Call : Type 0 where
  create_call : Job → Call
  update_call : String → List Field → Call
  get_call : String → String → Call
  prompt_call : String → Call

pub data Answer : Type 0 where
  done : Answer
  view : Option JobView → Answer
  prompt : Option (String × String × String) → Answer
  failed : Raised → Answer

abbrev answer : {A : Type 0} → (A → Answer) → Result A → Answer
answer f (ok a) = f a
answer f (raised r) = failed r

module _ {V : Type 0} where
  abbrev pub perform : JobRepository V → Call → JobState V → Answer × JobState V
  perform r (create_call job) s = let (o, s') = r.create job s in (answer (λ _. done) o, s')
  perform r (update_call id fields) s =
      let (o, s') = r.update id fields s in (answer (λ _. done) o, s')
  perform r (get_call id owner) s = let (o, s') = r.get id owner s in (answer view o, s')
  perform r (prompt_call id) s = let (o, s') = r.prompt_for id s in (answer prompt o, s')

  unfoldable pub perform_all : JobRepository V → List Call → JobState V → List Answer × JobState V
  perform_all r [] s = ([], s)
  perform_all r (c ∷ cs) s =
      let (a, s') = perform r c s in let (rest, last) = perform_all r cs s' in (a ∷ rest, last)

abbrev IsAnswer : Answer → Type 0
IsAnswer (failed r) = ⊥
IsAnswer _ = Unit

-- No call failed.
abbrev pub AllAnswered : List Answer → Type 0
AllAnswered [] = Unit
AllAnswered (a ∷ rest) = IsAnswer a × AllAnswered rest

module _ {V : Type 0} (keys : V → List ApiKey) (now : JobState V → ℕ) where
  pub perform-IsTable :
      (c : Call) (s : JobState V)
      → IsTable (keys s.rest) s.jobs
      → IsTable
          (keys (perform (postgres keys now) c s).1.rest)
          (perform (postgres keys now) c s).1.jobs
  unfolding postgres
  perform-IsTable (create_call job) s t = create-IsTable keys (now s) job s t
  perform-IsTable (update_call id fields) s t = update-IsTable keys id fields s t
  perform-IsTable (get_call id owner) s t = t
  perform-IsTable (prompt_call id) s t = t

  abbrev Agrees : Answer × JobState V → Answer × JobState V → Type 0
  Agrees (failed r, s) o = Unit
  Agrees p o = p ≡ o

  commit_jobs-Agrees :
      (verdict : Result (Unit {0})) (jobs : Dict Job) (s : JobState V)
      → let (o, s') = commit_jobs verdict jobs s in
        Agrees (answer (λ _. done) o, s') (done, record s { jobs = jobs })
  commit_jobs-Agrees (ok _) jobs s = refl
  commit_jobs-Agrees (raised r) jobs s = tt

  pub write-none :
      (id : String) (fields : List Field) (s : JobState V)
      → lookup id s.jobs ≡ none
      → write id fields s ≡ s
  unfolding Store.update
  write-none id fields s e = rw (Store.update, e) refl

  pub write-some :
      (id : String) (fields : List Field) (job : Job) (s : JobState V)
      → lookup id s.jobs ≡ some job
      → write id fields s ≡ record s { jobs = insert id (set_fields fields job) s.jobs }
  unfolding Store.update
  write-some id fields job s e = rw (Store.update, e) refl

  change-Agrees :
      (id : String) (fields : List Field) (o : Option Job) (s : JobState V)
      → lookup id s.jobs ≡ o
      → let (a, s') = change keys id fields o s in
        Agrees (answer (λ _. done) a, s') (done, write id fields s)
  change-Agrees id fields none s e = rw (write-none id fields s e) refl
  change-Agrees id fields (some job) s e =
      let row = set_fields fields job in
      rw (write-some id fields job s e)
        (commit_jobs-Agrees (checked (fits_job row) true) (insert id row s.jobs) s)

  perform-Agrees :
      (c : Call) (s : JobState V)
      → IsDict s.jobs
      → Agrees (perform (postgres keys now) c s) (perform (in_memory now) c s)
  unfolding postgres
  perform-Agrees (create_call job) s t =
      unfold create inserted Store.create in
      commit_jobs-Agrees _ (insert job.id (inserted (now s) job) s.jobs) s
  perform-Agrees (update_call id fields) s t =
      unfold update in change-Agrees id fields (lookup id s.jobs) s refl
  perform-Agrees (get_call id owner) s t =
      ap (λ (v : Option JobView). (view v, s)) (get_postgres-eq-get id owner s.jobs t)
  perform-Agrees (prompt_call id) s t = refl

  Agrees-eq : (p o : Answer × JobState V) → Agrees p o → IsAnswer p.0 → p ≡ o
  Agrees-eq (done, s) o h a = h
  Agrees-eq (view v, s) o h a = h
  Agrees-eq (prompt v, s) o h a = h
  Agrees-eq (failed r, s) o h a = absurd a

  -- From a table in order on, and as long as the database refuses nothing, a sequence of calls gets
  -- the same answers from the repository over Postgres and from the one in memory, and leaves the
  -- same jobs behind.
  pub perform_all-eq :
      (cs : List Call) (s : JobState V)
      → IsTable (keys s.rest) s.jobs
      → AllAnswered (perform_all (postgres keys now) cs s).0
      → perform_all (postgres keys now) cs s ≡ perform_all (in_memory now) cs s
  unfolding perform_all
  perform_all-eq [] s t all = refl
  perform_all-eq (c ∷ cs) s t all =
      let p = perform (postgres keys now) c s in
      let same : p ≡ perform (in_memory now) c s =
        Agrees-eq p (perform (in_memory now) c s) (perform-Agrees c s t.unique) all.0 in
      let later : perform_all (postgres keys now) cs p.1 ≡ perform_all (in_memory now) cs p.1 =
        perform_all-eq cs p.1 (perform-IsTable c s t) all.1 in
      ap (λ (o : List Answer × JobState V). (p.0 ∷ o.0, o.1)) later
      ∙ ap
          (λ (q : Answer × JobState V).
            let (rest, last) = perform_all (in_memory now) cs q.1 in (q.0 ∷ rest, last))
          same
