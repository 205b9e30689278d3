-- ===== src/Auth/Mint.antt =====
-- `issue_key` and `main` of src/services/authentication.py: the script that mints a key.
--
-- The state is the table of keys beside what else is outside, `O`, where the engine lives.
pub mod Laws
mod Tests
use prd_api_wrapper.Prelude.{
  String, Bool, true, not, ◌&&◌, none, some, List, [], ◌∷◌, join, or_default, str_eq,
}
use prd_api_wrapper.Prelude.Case.{lower}
use prd_api_wrapper.Errors.Handlers.{Raised}
use prd_api_wrapper.Exec.{Result, ok, raised, Exec}
use prd_api_wrapper.Database.{fits_api_key, checked}
use prd_api_wrapper.Auth.Keys.{ApiKeyRecord, ApiKey, add_postgres}
use prd_api_wrapper.Auth.Service.{mint_key}
use prd_api_wrapper.Config.{Settings, Engine, create_database_engine}

-- The primary key and the unique index on the digest let a row in.
unfoldable pub is_new : String → String → List ApiKey → Bool
is_new id key_hash [] = true
is_new id key_hash (k ∷ rows) =
    not (str_eq k.id id) && (not (str_eq k.key_hash key_hash) && is_new id key_hash rows)

abbrev pub commit_key : Result (Unit {0}) → ApiKeyRecord → Exec (List ApiKey) (Unit {0})
commit_key (ok _) r rows = (ok tt, add_postgres r rows)
commit_key (raised e) r rows = (raised e, rows)

-- The row of a record.
abbrev pub row_of : ApiKeyRecord → ApiKey
row_of r = record {
  id = r.id;
  name = r.name;
  key_hash = lower r.key_hash;
  revoked_at = none;
  last_used_at = none;
}

-- The session of `issue_key`: the record is added and committed, or refused by its table.
unfoldable pub store_key : ApiKeyRecord → Exec (List ApiKey) (Unit {0})
unfolding is_new
store_key r rows =
    let row = row_of r in
    commit_key (checked (fits_api_key row) (is_new row.id row.key_hash rows)) r rows

-- What the `finally` raises takes the place of what the session has raised.
abbrev pub ended : String → Result (Unit {0}) → Result (Unit {0}) → Result String
ended key written (raised e) = raised e
ended key (raised e) (ok _) = raised e
ended key (ok _) (ok _) = ok key

module _ {O : Type 0} (hash_api_key : String → String) (dispose : Engine → Exec O (Unit {0})) where
  -- `issue_key`, of the two random texts that are drawn.
  unfoldable pub issue_key : Settings → String → String → String → Exec (List ApiKey × O) String
  unfolding mint_key store_key
  issue_key settings token id name (rows, o) =
      let engine = create_database_engine settings in
      let (key, r) = mint_key hash_api_key token id name in
      let (written, rows') = store_key r rows in
      let (closed, o') = dispose engine o in (ended key written closed, (rows', o'))

-- `" ".join(args)`
unfoldable pub join_words : List String → String
join_words [] = ""
join_words (w ∷ []) = w
join_words (w ∷ v ∷ ws) = join w (join " " (join_words (v ∷ ws)))

unfoldable pub name_of : List String → String
unfolding join_words
name_of args = or_default (some (join_words args)) "unnamed"

-- What is printed, a text for each `print`.
abbrev pub printed : (String → String) → String → String → List String
printed repr name key =
    join "\nStored a key for " (join (repr name) ".")
    ∷ "Give this to the client -- it cannot be recovered later:\n"
    ∷ join "  " (join key "\n")
    ∷ []

abbrev pub shown : (String → String) → String → Result String → Result (List String)
shown repr name (ok key) = ok (printed repr name key)
shown repr name (raised e) = raised e

module _ {O : Type 0} (hash_api_key : String → String) (dispose : Engine → Exec O (Unit {0})) where
  -- `main`, of `sys.argv[1:]`; `repr` is that of a text.
  unfoldable pub main :
      (String → String)
      → Settings
      → String
      → String
      → List String
      → Exec (List ApiKey × O) (List String)
  unfolding issue_key name_of
  main repr settings token id args s =
      let (r, t) = issue_key hash_api_key dispose settings token id (name_of args) s in
      (shown repr (name_of args) r, t)
