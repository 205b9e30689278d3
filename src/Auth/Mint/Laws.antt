-- ===== src/Auth/Mint/Laws.antt =====
-- What the script of src/services/authentication.py leaves behind.
use prd_api_wrapper.Prelude.{
  ℕ, String, ◌≡◌, refl, ◌⊎◌, inl, inr, true, some, List, [], ◌∷◌, join, eq_iff, arith, Bool-cases,
}
use prd_api_wrapper.Prelude.Case.{lower}
use prd_api_wrapper.Errors.Handlers.{Raised, crash}
use prd_api_wrapper.Exec.{Result, ok, raised, Exec}
use prd_api_wrapper.Database.{fits_api_key}
use prd_api_wrapper.Auth.Keys.{ApiKey, ApiKeyRecord, add_postgres, touch}
use prd_api_wrapper.Auth.Service.{authenticate, mint_key}
use prd_api_wrapper.Auth.Laws.{over_table, NoneActive, mint_key-authenticates}
use prd_api_wrapper.Config.{Settings, Engine, create_database_engine}
use prd_api_wrapper.Auth.Mint.{
  is_new, row_of, store_key, ended, issue_key, name_of, printed, shown, main,
}

is_new-NoneActive :
    (id digest : String) (rows : List ApiKey)
    → is_new id digest rows ≡ true
    → NoneActive digest rows
unfolding is_new
is_new-NoneActive id digest [] h = tt
is_new-NoneActive id digest (k ∷ rows) h = (
  λ same. ground (arith, eq_iff k.key_hash digest),
  is_new-NoneActive id digest rows (ground arith),
)

-- The record was new and is added, or an exception is raised and the table is as it was.
store_cases :
    (r : ApiKeyRecord) (rows : List ApiKey)
    → ((store_key r rows ≡ (ok tt, add_postgres r rows)) × NoneActive (lower r.key_hash) rows)
      ⊎ ((e : Raised) × (store_key r rows ≡ (raised e, rows)))
unfolding store_key
store_cases r rows = elim (Bool-cases (fits_api_key (row_of r))) [
  | inl fits ↦ elim (Bool-cases (is_new r.id (lower r.key_hash) rows)) [
    | inl fresh ↦ inl (rw (fits, fresh) refl, is_new-NoneActive r.id (lower r.key_hash) rows fresh)
    | inr taken ↦ inr (crash "IntegrityError", rw (fits, taken) refl)
  ]
  | inr unfit ↦ inr (crash "DBAPIError", rw unfit refl)
]

module _ (hash : String → String) (now : ℕ) (repr : String → String) (id name : String) where
  -- The text of a key is printed, and the key lets its client in.
  abbrev pub HasIssued : Result (List String) → List ApiKey → Type 0
  HasIssued r rows =
      (key : String) × (r ≡ ok (printed repr name key))
      × (authenticate (over_table hash now) (some key) rows
          ≡ (ok (record { id = id; name = name }), touch id now rows))

  -- An exception is raised: the table is as it was, or the exception is that of closing the engine.
  abbrev pub HasFailed :
      Result (List String) → List ApiKey → List ApiKey → Result (Unit {0}) → Type 0
  HasFailed r before after closed =
      (e : Raised) × (r ≡ raised e) × ((after ≡ before) ⊎ (closed ≡ raised e))

  ended_cases :
      (token : String) (rows : List ApiKey) (s : Result (Unit {0}) × List ApiKey)
      (closed : Result (Unit {0}))
      → let (key, r) = mint_key hash token id name in
        ((s ≡ (ok tt, add_postgres r rows)) × NoneActive (lower r.key_hash) rows)
          ⊎ ((e : Raised) × (s ≡ (raised e, rows)))
        → HasIssued (shown repr name (ended key s.0 closed)) s.1
          ⊎ HasFailed (shown repr name (ended key s.0 closed)) rows s.1 closed
  unfolding mint_key
  ended_cases token rows s (raised e) h = inr (e, refl, inr refl)
  ended_cases token rows s (ok _) (inl (e, fresh)) =
      rw e (inl (join "sk-" token, refl, mint_key-authenticates hash now token id name rows fresh))
  ended_cases token rows s (ok _) (inr (x, e)) = rw e (inr (x, refl, inl refl))

-- When the script has printed a key, that key lets its client in, by the id that was drawn and the
-- name of the arguments, or `unnamed`. Otherwise it raises: then the table of keys is as it was,
-- unless what was raised is the failure to close the engine.
pub main-HasIssued :
    {O : Type 0} (hash : String → String) (dispose : Engine → Exec O (Unit {0}))
    (repr : String → String) (settings : Settings) (token id : String) (args : List String)
    (rows : List ApiKey) (o : O) (now : ℕ)
    → let (r, (after, o')) = main hash dispose repr settings token id args (rows, o) in
      HasIssued hash now repr id (name_of args) r after
      ⊎ HasFailed hash now repr id
          (name_of args)
          r
          rows
          after
          (dispose (create_database_engine settings) o).0
unfolding main issue_key
main-HasIssued hash dispose repr settings token id args rows o now =
    let r = (mint_key hash token id (name_of args)).1 in
    ended_cases hash now repr id (name_of args) token rows (store_key r rows)
      (dispose (create_database_engine settings) o).0 (store_cases r rows)
