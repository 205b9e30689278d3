-- ===== src/Auth/Mint/Tests.antt =====
-- Runs of the script that mints a key.
use prd_api_wrapper.Prelude.{ℕ, suc, String, ◌≡◌, refl, ◌⊎◌, [], ◌∷◌, join}
use prd_api_wrapper.Prelude.Case.{lower}
use prd_api_wrapper.Errors.Handlers.{crash}
use prd_api_wrapper.Exec.{Result, ok, raised}
use prd_api_wrapper.Config.{Engine, default_settings}
use prd_api_wrapper.Database.{fits_api_key}
use prd_api_wrapper.Auth.Keys.{ApiKey, add_postgres}
use prd_api_wrapper.Auth.Mint.{row_of, name_of, main}
use prd_api_wrapper.Auth.Mint.Laws.{HasIssued, HasFailed, main-HasIssued}

-- A digest that marks its text.
abbrev marked : String → String
marked key = join "d" key

abbrev quoted : String → String
quoted text = join "'" (join text "'")

-- The engines that were closed are counted.
abbrev close_engine : Engine → ℕ → Result (Unit {0}) × ℕ
close_engine engine n = (ok tt, suc n)

abbrev ann : ApiKey
ann = row_of (record { id = "k1"; name = "Ann"; key_hash = "dsk-old" })

-- The words of the name are joined, the key is printed, and the engine is closed.
main-ann :
    let (r, (rows, closed)) =
      main marked close_engine quoted default_settings "new" "k2"
        ("Some" ∷ "client" ∷ [])
        (ann ∷ [], 0) in
    (r
      ≡ ok (
          "\nStored a key for 'Some client'."
          ∷ "Give this to the client -- it cannot be recovered later:\n" ∷ "  sk-new\n" ∷ []))
    × (rows ≡ ann ∷ row_of (record { id = "k2"; name = "Some client"; key_hash = "dsk-new" }) ∷ [])
    × (closed ≡ 1)
unfolding main lower fits_api_key add_postgres
main-ann = (refl, refl, refl)

-- A digest that the table has already: nothing is stored, and the engine is closed all the same.
main-taken :
    main marked close_engine quoted default_settings "old" "k2" [] (ann ∷ [], 0)
    ≡ (raised (crash "IntegrityError"), (ann ∷ [], 1))
unfolding main lower fits_api_key add_postgres
main-taken = refl

main-HasIssued_example :
    let (r, (after, closed)) =
      main marked close_engine quoted default_settings "new" "k2" [] (ann ∷ [], 0) in
    HasIssued marked 9 quoted "k2" (name_of []) r after
    ⊎ HasFailed marked 9 quoted "k2" (name_of []) r (ann ∷ []) after (ok tt)
main-HasIssued_example =
    main-HasIssued marked close_engine quoted default_settings "new" "k2" [] (ann ∷ []) 0 9
