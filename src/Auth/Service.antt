-- ===== src/Auth/Service.antt =====
-- src/services/authentication.py and src/dependencies/auth.py.
use prd_api_wrapper.Prelude.{String, Bool, not, Option, none, some, join, non_empty, if◌then◌else◌}
use prd_api_wrapper.Errors.{ErrorClass, new, no_args}
use prd_api_wrapper.Errors.Handlers.{app}
use prd_api_wrapper.Exec.{Result, ok, raised, Exec}
use prd_api_wrapper.Completion.Models.{Caller}
use prd_api_wrapper.Auth.Keys.{ApiKeyRecord}

abbrev pub anonymous : Caller
anonymous = record { id = "anonymous"; name = "anonymous" }

-- What the service is built from: SHA-256 of a text in hexadecimal (`hash_api_key`), the lookup of
-- a repository with the state `S`, and whether a key is required.
pub record AuthenticationService (S : Type 0) : Type 0 where
  pub hash_api_key : String → String
  pub find_by_hash : String → S → Option Caller × S
  pub require_api_key : Bool

module _ {S : Type 0} where
  abbrev pub recognised : Option Caller × S → Result Caller × S
  recognised (none, s) = (raised (app (new ErrorClass.invalid_credentials no_args)), s)
  recognised (some caller, s) = (ok caller, s)

  abbrev pub decide : AuthenticationService S → Option String → Exec S Caller
  decide c none s =
      if not c.require_api_key
      then (ok anonymous, s)
      else (raised (app (new ErrorClass.missing_credentials no_args)), s)
  decide c (some key) s = recognised (c.find_by_hash (c.hash_api_key key) s)

  -- `authenticate`: an empty key is no key.
  unfoldable pub authenticate : AuthenticationService S → Option String → Exec S Caller
  authenticate c raw_key s = decide c (non_empty raw_key) s

-- `HTTPAuthorizationCredentials`
pub record Credentials : Type 0 where
  pub scheme : String
  pub credentials : String

-- `get_caller`
unfoldable pub get_caller :
    {S : Type 0} → AuthenticationService S → Option Credentials → Exec S Caller
unfolding authenticate
get_caller c none s = authenticate c none s
get_caller c (some given) s = authenticate c (some given.credentials) s

-- `mint_key`, of the two random texts that it draws.
unfoldable pub mint_key : (String → String) → String → String → String → String × ApiKeyRecord
mint_key hash_api_key token id name =
    let key = join "sk-" token in
    (key, record { id = id; name = name; key_hash = hash_api_key key })
