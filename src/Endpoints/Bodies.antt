-- ===== src/Endpoints/Bodies.antt =====
-- The fields of `CompletionRequest` in src/models/completion.py and of `JobRequest` in
-- src/models/job.py, with their bounds and defaults, as a body in JSON is read by them.
pub mod Laws
pub mod Posts
mod Tests
use prd_api_wrapper.Prelude.{
  ℕ, ℤ, pos, negsuc, String, Bool, true, false, ◌&&◌, Option, none, some, length, leb,
  if◌then◌else◌,
}
use prd_api_wrapper.Json.{Json, Entries, obj, float, null, get_entry}
use prd_api_wrapper.Completion.Models.{CompletionRequest}
use prd_api_wrapper.Prelude.Options.{◌>>=◌}
use prd_api_wrapper.Jobs.Models.{JobRequest}
use prd_api_wrapper.Endpoints.{Body, valid, invalid}

-- What pydantic makes of the value of a field of type `str`, `int`, `float` or `HttpUrl`, how it
-- compares a float with a number, and the errors that it lists.
pub record Fields : Type 0 where
  pub str_field : Json → Option String
  pub int_field : Json → Option ℤ
  pub float_field : Json → Option Json
  pub url_field : Json → Option String
  pub ge : Json → ℕ → Bool
  pub le : Json → ℕ → Bool
  pub errors : Json → Json

abbrev pub default_temperature : Json
default_temperature = float "0.7" true

module _ {A : Type 0} where
  -- A value that meets its constraints.
  abbrev checked : Bool → A → Option A
  checked test a = if test then some a else none

  -- `A | None`, `None` where it is left out.
  abbrev optional : (Json → Option A) → Option Json → Option (Option A)
  optional read none = some none
  optional read (some null) = some none
  optional read (some v) = do a ← read v; some (some a)

module _ (f : Fields) where
  unfoldable pub prompt_field : Entries → Option String
  prompt_field fs = do
    v ← get_entry "prompt" fs
    p ← f.str_field v
    checked (leb 1 (length p) && leb (length p) 8000) p

  unfoldable pub model_field : Entries → Option (Option String)
  model_field fs = optional f.str_field (get_entry "model" fs)

  abbrev read_temperature : Option Json → Option Json
  read_temperature none = some default_temperature
  read_temperature (some v) = do t ← f.float_field v; checked (f.ge t 0 && f.le t 2) t

  unfoldable pub temperature_field : Entries → Option Json
  temperature_field fs = read_temperature (get_entry "temperature" fs)

  abbrev token_count : ℤ → Option ℕ
  token_count (pos n) = checked (leb 1 n && leb n 4096) n
  token_count (negsuc n) = none

  unfoldable pub max_tokens_field : Entries → Option (Option ℕ)
  max_tokens_field fs =
      optional (λ v. do n ← f.int_field v; token_count n) (get_entry "max_tokens" fs)

  unfoldable pub read_completion : Entries → Option CompletionRequest
  unfolding prompt_field model_field temperature_field max_tokens_field
  read_completion fs = do
    prompt ← prompt_field fs
    model ← model_field fs
    temperature ← temperature_field fs
    max_tokens ← max_tokens_field fs
    some (record {
      prompt = prompt;
      model = model;
      temperature = temperature;
      max_tokens = max_tokens;
    })

  unfoldable pub read_job : Entries → Option JobRequest
  unfolding prompt_field model_field temperature_field max_tokens_field
  read_job fs = do
    prompt ← prompt_field fs
    model ← model_field fs
    temperature ← temperature_field fs
    max_tokens ← max_tokens_field fs
    callback_url ← get_entry "callback_url" fs >>= f.url_field
    some (record {
      prompt = prompt;
      model = model;
      temperature = temperature;
      max_tokens = max_tokens;
      callback_url = callback_url;
    })

  abbrev body_of : {A : Type 0} → Json → Option A → Body A
  body_of v none = invalid (f.errors v)
  body_of v (some a) = valid a

  abbrev entries : Json → Option Entries
  entries (obj fs) = some fs
  entries _ = none

  unfoldable pub completion_body : Json → Body CompletionRequest
  unfolding read_completion
  completion_body v = body_of v (entries v >>= read_completion)

  unfoldable pub job_body : Json → Body JobRequest
  unfolding read_job
  job_body v = body_of v (entries v >>= read_job)
