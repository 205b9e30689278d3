-- ===== src/Auth/Agreement.antt =====
-- The two repositories of src/repositories/api_keys.py, over keys that were issued and not revoked.
use prd_api_wrapper.Prelude.{
  ℕ, String, ◌≡◌, refl, ◌∙◌, Option, none, some, List, [], ◌∷◌, ◌++◌, arith, str_eq, eq_iff, inl,
  inr, Option-cases, if◌then◌else◌,
}
use prd_api_wrapper.Prelude.Dict.{Dict, lookup, lookup-insert, or_else}
use prd_api_wrapper.Completion.Models.{Caller}
use prd_api_wrapper.Prelude.Case.{lower}
use prd_api_wrapper.Auth.Keys.{
  ApiKeyRecord, ApiKey, caller_of, add, from_records, find_by_hash, active_key, find_postgres,
  add_postgres,
}

-- The rows after `add` of each record in turn.
abbrev pub issued : List ApiKeyRecord → List ApiKey → List ApiKey
issued [] rows = rows
issued (r ∷ rs) rows = issued rs (add_postgres r rows)

-- The digests are unique, as the index of the table demands.
abbrev pub AreUnique : List ApiKeyRecord → Dict Caller → Type 0
AreUnique [] callers = Unit
AreUnique (r ∷ rs) callers =
    (lookup (lower r.key_hash) callers ≡ none) × AreUnique rs (add r callers)

abbrev owner : Option ApiKey → Option Caller
owner none = none
owner (some k) = some (record { id = k.id; name = k.name })

-- The same callers by digest.
abbrev Agree : List ApiKey → Dict Caller → Type 0
Agree rows callers = (digest : String) → owner (active_key digest rows) ≡ lookup digest callers

owner-append :
    (digest : String) (rows : List ApiKey) (k : ApiKey)
    → k.revoked_at ≡ none
    → owner (active_key digest (rows ++ (k ∷ [])))
      ≡ or_else
          (owner (active_key digest rows))
          (if str_eq k.key_hash digest then owner (some k) else none)
unfolding active_key
owner-append digest [] k kept = rw kept (ground arith)
owner-append digest (j ∷ rows) k kept = ground (arith, owner-append digest rows k kept)

add-Agree :
    (r : ApiKeyRecord) (rows : List ApiKey) (callers : Dict Caller)
    → lookup (lower r.key_hash) callers ≡ none
    → Agree rows callers
    → Agree (add_postgres r rows) (add r callers)
unfolding add_postgres add
add-Agree r rows callers fresh agree digest =
    let row : ApiKey = record {
      id = r.id;
      name = r.name;
      key_hash = lower r.key_hash;
      revoked_at = none;
      last_used_at = none;
    } in
    ground (
      arith,
      owner-append digest rows row refl,
      agree digest,
      lookup-insert (lower r.key_hash) digest (caller_of r) callers,
      eq_iff (lower r.key_hash) digest,
    )

issued-Agree :
    (rs : List ApiKeyRecord) (rows : List ApiKey) (callers : Dict Caller)
    → AreUnique rs callers
    → Agree rows callers
    → Agree (issued rs rows) (from_records rs callers)
unfolding from_records
issued-Agree [] rows callers unique agree = agree
issued-Agree (r ∷ rs) rows callers unique agree =
    issued-Agree rs (add_postgres r rows) (add r callers) unique.1
      (add-Agree r rows callers unique.0 agree)

find_postgres-owner :
    (now : ℕ) (key_hash : String) (rows : List ApiKey)
    → (find_postgres now key_hash rows).0 ≡ owner (active_key (lower key_hash) rows)
unfolding find_postgres
find_postgres-owner now key_hash rows = elim (Option-cases (active_key (lower key_hash) rows)) [
  | inl gone ↦ rw (find_postgres, gone) refl
  | inr (k, there) ↦ rw (find_postgres, there) refl
]

-- The repository over the table and the one in memory, filled with the same records of distinct
-- digests, name the same caller for every digest, in whichever case it is asked for.
pub find_postgres-eq-find_by_hash :
    (now : ℕ) (key_hash : String) (rs : List ApiKeyRecord)
    → AreUnique rs []
    → (find_postgres now key_hash (issued rs [])).0 ≡ find_by_hash key_hash (from_records rs [])
unfolding find_by_hash
find_postgres-eq-find_by_hash now key_hash rs unique =
    find_postgres-owner now key_hash (issued rs [])
    ∙ issued-Agree rs [] [] unique (λ digest. unfold active_key lookup in refl) (lower key_hash)
