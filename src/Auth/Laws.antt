-- ===== src/Auth/Laws.antt =====
-- Who is let in by src/services/authentication.py.
use Prim.Native.String.append.{cons}
use prd_api_wrapper.Prelude.{
  ℕ, String, ◌≡◌, refl, true, false, none, some, List, [], ◌∷◌, ◌++◌, str_eq, eq_iff, inl, inr,
  Bool-cases, ap, join, non_empty,
}
use prd_api_wrapper.Errors.{ErrorClass, new, no_args}
use prd_api_wrapper.Errors.Handlers.{app}
use prd_api_wrapper.Exec.{ok, raised}
use prd_api_wrapper.Prelude.Case.{lower}
use prd_api_wrapper.Auth.Keys.{ApiKey, is_none, active_key, touch, find_postgres, add_postgres}
use prd_api_wrapper.Auth.Service.{
  AuthenticationService, Credentials, recognised, authenticate, get_caller, mint_key,
}

-- The service over the table of keys at the time `now`, where a key is required.
abbrev pub over_table : (String → String) → ℕ → AuthenticationService (List ApiKey)
over_table hash now = record {
  hash_api_key = hash;
  find_by_hash = find_postgres now;
  require_api_key = true;
}

-- No row of the digest is active: there is none, or it is revoked.
abbrev pub NoneActive : String → List ApiKey → Type 0
NoneActive digest [] = Unit
NoneActive digest (k ∷ rows) =
    ((k.key_hash ≡ digest) → is_none k.revoked_at ≡ false) × NoneActive digest rows

active_key-none :
    (digest : String) (rows : List ApiKey) → NoneActive digest rows → active_key digest rows ≡ none
unfolding active_key
active_key-none digest [] h = refl
active_key-none digest (k ∷ rows) h = elim (Bool-cases (str_eq k.key_hash digest)) [
  | inl same ↦ rw (same, h.0 ((eq_iff k.key_hash digest).0 same), active_key-none digest rows h.1)
  | inr other ↦ rw (other, active_key-none digest rows h.1)
]

active_key-append :
    (digest : String) (rows : List ApiKey) (k : ApiKey)
    → NoneActive digest rows
    → k.key_hash ≡ digest
    → k.revoked_at ≡ none
    → active_key digest (rows ++ (k ∷ [])) ≡ some k
unfolding active_key
active_key-append digest [] k h same kept = rw ((eq_iff k.key_hash digest).1 same, kept)
active_key-append digest (j ∷ rows) k h same kept = elim (Bool-cases (str_eq j.key_hash digest)) [
  | inl eq ↦
      rw (eq, h.0 ((eq_iff j.key_hash digest).0 eq), active_key-append digest rows k h.1 same kept)
  | inr other ↦ rw (other, active_key-append digest rows k h.1 same kept)
]

find_postgres-none :
    (now : ℕ) (key_hash : String) (rows : List ApiKey)
    → NoneActive (lower key_hash) rows
    → find_postgres now key_hash rows ≡ (none, rows)
unfolding find_postgres
find_postgres-none now key_hash rows h =
    rw (find_postgres, active_key-none (lower key_hash) rows h) refl

find_postgres-append :
    (now : ℕ) (id name key_hash : String) (rows : List ApiKey)
    → NoneActive (lower key_hash) rows
    → let rows' = add_postgres (record { id = id; name = name; key_hash = key_hash }) rows in
      find_postgres now key_hash rows'
      ≡ (some (record { id = id; name = name }), touch id now rows')
unfolding find_postgres add_postgres
find_postgres-append now id name key_hash rows h =
    let row : ApiKey = record {
      id = id;
      name = name;
      key_hash = lower key_hash;
      revoked_at = none;
      last_used_at = none;
    } in
    rw (find_postgres, active_key-append (lower key_hash) rows row h refl refl) refl

-- A key that is unknown, and one that was revoked, are refused alike, and without a trace: where no
-- row of its digest is active, a key that is not empty gets the same error over the same table.
pub get_caller_refuses :
    (hash : String → String) (now : ℕ) (given : Credentials) (rows : List ApiKey)
    → non_empty (some given.credentials) ≡ some given.credentials
    → NoneActive (lower (hash given.credentials)) rows
    → get_caller (over_table hash now) (some given) rows
      ≡ (raised (app (new ErrorClass.invalid_credentials no_args)), rows)
unfolding get_caller authenticate
get_caller_refuses hash now given rows full h =
    rw full (ap recognised (find_postgres-none now (hash given.credentials) rows h))

minted_full : (token : String) → non_empty (some (join "sk-" token)) ≡ some (join "sk-" token)
minted_full token = rw cons refl

-- A key whose record was added lets its client in, by the id and the name that it was minted for, and
-- notes the use of its own row, where no active row has its digest yet.
pub mint_key-authenticates :
    (hash : String → String) (now : ℕ) (token id name : String) (rows : List ApiKey)
    → NoneActive (lower (hash (join "sk-" token))) rows
    → let (key, r) = mint_key hash token id name in
      authenticate (over_table hash now) (some key) (add_postgres r rows)
      ≡ (ok (record { id = id; name = name }), touch id now (add_postgres r rows))
unfolding authenticate mint_key
mint_key-authenticates hash now token id name rows h =
    rw (minted_full token)
      (ap recognised (find_postgres-append now id name (hash (join "sk-" token)) rows h))
