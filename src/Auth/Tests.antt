-- ===== src/Auth/Tests.antt =====
-- Tests of authentication, and its theorems at concrete inputs.
use prd_api_wrapper.Prelude.{String, ◌≡◌, refl, none, some, [], ◌∷◌, join}
use prd_api_wrapper.Prelude.Dict.{lookup, insert}
use prd_api_wrapper.Prelude.Case.{lower}
use prd_api_wrapper.Auth.Keys.{ApiKeyRecord, ApiKey, add, from_records, find_by_hash, find_postgres}
use prd_api_wrapper.Auth.Agreement.{issued, find_postgres-eq-find_by_hash}

-- A digest that marks its text.
abbrev marked : String → String
marked key = join "D" key

abbrev revoked : ApiKey
revoked = record {
  id = "k1";
  name = "old client";
  key_hash = "dsk-old";
  revoked_at = some 5;
  last_used_at = none;
}

lower-ascii : lower "ABCxyz-019Z" ≡ "abcxyz-019z"
unfolding lower
lower-ascii = refl

abbrev ann : ApiKeyRecord
ann = record { id = "a"; name = "Ann"; key_hash = "0A" }

abbrev bob : ApiKeyRecord
bob = record { id = "b"; name = "Bob"; key_hash = "0B" }

find_postgres-eq-find_by_hash_example :
    (find_postgres 9 "0b" (issued (ann ∷ bob ∷ []) [])).0
    ≡ find_by_hash "0b" (from_records (ann ∷ bob ∷ []) [])
unfolding lookup add insert lower
find_postgres-eq-find_by_hash_example =
    find_postgres-eq-find_by_hash 9 "0b" (ann ∷ bob ∷ []) (refl, (refl, tt))
