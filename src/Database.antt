-- ===== src/Database.antt =====
-- What the tables of src/models/tables.py accept: the lengths and ranges of their columns, their
-- keys, and the row that a foreign key points to. Postgres refuses a row that breaks one of these,
-- and a text with a NUL in it, when it is written.
use Prim.Native.Char.{code}
use prd_api_wrapper.Prelude.{
  ℕ, ℤ, pos, negsuc, String, Bool, true, false, not, ◌&&◌, ◌||◌, Option, none, some, List, [], ◌∷◌,
  str_eq, length, ltb, leb, ◌==◌, if◌then◌else◌,
}
use prd_api_wrapper.Errors.Handlers.{crash}
use prd_api_wrapper.Exec.{Result, ok, raised}
use prd_api_wrapper.Completion.Models.{UsageEntry}
use prd_api_wrapper.Jobs.Models.{Job, status_value}
use prd_api_wrapper.Auth.Keys.{ApiKey}

-- `Text`: any characters but NUL.
unfoldable pub is_text : String → Bool
is_text String.[] = true
is_text (String.◌∷◌ c s) = not (code c == 0) && is_text s

-- `String(n)`
unfoldable pub is_varchar : ℕ → String → Bool
unfolding is_text
is_varchar n s = leb (length s) n && is_text s

-- `Integer`: 32 bits.
unfoldable pub is_integer : ℤ → Bool
is_integer (pos n) = ltb n 2_147_483_648
is_integer (negsuc n) = ltb n 2_147_483_648

-- A column that may be empty.
abbrev pub all_some : {A : Type 0} → (A → Bool) → Option A → Bool
all_some test none = true
all_some test (some a) = test a

unfoldable pub fits_api_key : ApiKey → Bool
unfolding is_varchar
fits_api_key k = is_varchar 32 k.id && is_varchar 255 k.name && is_varchar 64 k.key_hash

unfoldable pub fits_usage : UsageEntry → Bool
unfolding is_varchar is_integer
fits_usage e =
    is_varchar 32 e.api_key_id
    && is_varchar 255 e.model
    && is_integer e.prompt_tokens
    && is_integer e.completion_tokens
    && is_integer (pos e.status_code)
    && is_integer (pos e.duration_ms)

abbrev pub value_fits : Option ℕ → Bool
value_fits none = true
value_fits (some n) = is_integer (pos n)

unfoldable pub fits_job : Job → Bool
unfolding is_varchar is_text is_integer status_value
fits_job j =
    is_varchar 32 j.id
    && is_varchar 32 j.api_key_id
    && is_varchar 16 (status_value j.status)
    && is_varchar 255 j.model
    && is_text j.prompt
    && is_varchar 2048 j.callback_url
    && all_some is_text j.content
    && all_some (is_varchar 64) j.error_code
    && all_some is_text j.error_message
    && all_some is_integer j.prompt_tokens
    && all_some is_integer j.completion_tokens
    && value_fits j.delivery_attempts

-- `ForeignKey("api_key.id")`
unfoldable pub has_key : String → List ApiKey → Bool
has_key id [] = false
has_key id (k ∷ rows) = str_eq k.id id || has_key id rows

-- What writing a row gives: `fits` that it fits its columns, `keyed` that its keys are in order.
abbrev pub checked : Bool → Bool → Result (Unit {0})
checked fits keyed =
    if fits
    then (if keyed then ok tt else raised (crash "IntegrityError"))
    else raised (crash "DBAPIError")
