-- ===== src/Auth/Keys.antt =====
-- src/models/caller.py and src/repositories/api_keys.py: the keys that were issued, by digest.
use prd_api_wrapper.Prelude.{
  ℕ, String, Bool, true, false, ◌&&◌, Option, none, some, List, [], ◌∷◌, ◌++◌, str_eq,
  if◌then◌else◌,
}
use prd_api_wrapper.Prelude.Dict.{Dict, lookup, insert}
use prd_api_wrapper.Prelude.Case.{lower}
use prd_api_wrapper.Completion.Models.{Caller}

pub record ApiKeyRecord : Type 0 where
  pub id : String
  pub name : String
  pub key_hash : String

abbrev pub caller_of : ApiKeyRecord → Caller
caller_of r = record { id = r.id; name = r.name }

-- `InMemoryApiKeyRepository`: the callers by digest.
unfoldable pub add : ApiKeyRecord → Dict Caller → Dict Caller
unfolding lower
add r callers = insert (lower r.key_hash) (caller_of r) callers

-- `__init__`
unfoldable pub from_records : List ApiKeyRecord → Dict Caller → Dict Caller
unfolding add
from_records [] callers = callers
from_records (r ∷ rs) callers = from_records rs (add r callers)

unfoldable pub find_by_hash : String → Dict Caller → Option Caller
unfolding lower
find_by_hash key_hash callers = lookup (lower key_hash) callers

-- A row of the table `ApiKey` of src/models/tables.py. Times are seconds.
pub record ApiKey : Type 0 where
  pub id : String
  pub name : String
  pub key_hash : String
  pub revoked_at : Option ℕ
  pub last_used_at : Option ℕ

abbrev pub is_none : Option ℕ → Bool
is_none none = true
is_none (some t) = false

-- The query of `PostgresApiKeyRepository.find_by_hash`: the row of that digest that is not revoked.
-- Digests are unique in the table, so there is one at most.
unfoldable pub active_key : String → List ApiKey → Option ApiKey
active_key key_hash [] = none
active_key key_hash (k ∷ rows) =
    let rest = active_key key_hash rows in
    if str_eq k.key_hash key_hash && is_none k.revoked_at then some k else rest

-- The update of `last_used_at`.
unfoldable pub touch : String → ℕ → List ApiKey → List ApiKey
touch id now [] = []
touch id now (k ∷ rows) =
    (if str_eq k.id id then record k { last_used_at = some now } else k) ∷ touch id now rows

unfoldable pub find_postgres : ℕ → String → List ApiKey → Option Caller × List ApiKey
unfolding active_key touch lower
find_postgres now key_hash rows = elim (active_key (lower key_hash) rows) [
  | none ↦ (none, rows)
  | some k ↦ (some (record { id = k.id; name = k.name }), touch k.id now rows)
]

unfoldable pub add_postgres : ApiKeyRecord → List ApiKey → List ApiKey
unfolding lower
add_postgres r rows =
    rows
    ++ (record {
      id = r.id;
      name = r.name;
      key_hash = lower r.key_hash;
      revoked_at = none;
      last_used_at = none;
    }
        ∷ [])
