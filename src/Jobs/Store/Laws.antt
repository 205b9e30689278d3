-- ===== src/Jobs/Store/Laws.antt =====
-- The jobs of src/repositories/jobs.py, each seen by its owner alone.
use prd_api_wrapper.Prelude.{
  String, ◌≡◌, refl, Option, none, some, List, [], ◌∷◌, arith, str_eq, eq_iff, if◌then◌else◌, inl,
  inr, Option-cases,
}
use prd_api_wrapper.Prelude.Dict.{Dict, IsDict, lookup, lookup-insert}
use prd_api_wrapper.Jobs.Models.{Job}
use prd_api_wrapper.Jobs.Store.{Field, set_fields, update, get, select_job, get_postgres}

-- `Option.map`, of a row under an update.
abbrev pub changed : List Field → Option Job → Option Job
changed fields none = none
changed fields (some job) = some (set_fields fields job)

-- An update changes the fields of its own job, if there is one, and of no other.
pub lookup-update :
    (j k : String) (fields : List Field) (jobs : Dict Job)
    → lookup j (update k fields jobs)
      ≡ (if str_eq k j then changed fields (lookup k jobs) else lookup j jobs)
unfolding update
lookup-update j k fields jobs = elim (Option-cases (lookup k jobs)) [
  | inl gone ↦ ground (arith, eq_iff k j)
  | inr (job, there) ↦ ground (arith, eq_iff k j, lookup-insert k j (set_fields fields job) jobs)
]

select_job-lookup :
    (k owner : String) (rows : Dict Job)
    → IsDict rows
    → select_job k owner rows ≡ elim (lookup k rows) [
      | none ↦ none
      | some job ↦ if str_eq job.api_key_id owner then some job else none
    ]
unfolding select_job lookup
select_job-lookup k owner [] h = refl
select_job-lookup k owner ((j, job) ∷ rows) h =
    ground (arith, eq_iff j k, select_job-lookup k owner rows h.1)

-- Over a table in which no id stands twice, the query for the id and the owner finds what the
-- in-memory repository finds by the id and then checks for the owner.
pub get_postgres-eq-get :
    (k owner : String) (rows : Dict Job)
    → IsDict rows
    → get_postgres k owner rows ≡ get k owner rows
unfolding get_postgres get
get_postgres-eq-get k owner rows h = ground (arith, select_job-lookup k owner rows h)
