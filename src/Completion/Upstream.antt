-- ===== src/Completion/Upstream.antt =====
-- The error and response mappings of `CompletionService` in src/services/completion.py.
use prd_api_wrapper.Prelude.{
  ℕ, ℤ, String, Bool, ◌&&◌, ◌||◌, Option, none, some, [], ◌∷◌, ltb, leb, ◌==◌, or_default,
  non_empty, join, if◌then◌else◌,
}
use prd_api_wrapper.Prelude.Dict.{Dict}
use prd_api_wrapper.Prelude.Options.{◌>>=◌}
use prd_api_wrapper.Json.{
  Json, Entries, str, obj, arr, nat, no_entry, element, json_truthy, member, get_entry,
}
use prd_api_wrapper.Errors.{AppError, ErrorClass, new, no_args}
use prd_api_wrapper.Errors.Handlers.{app}
use prd_api_wrapper.Exec.{Result, ok, raised}
use prd_api_wrapper.Completion.Models.{CompletionResponse}

-- What the service reads of an `httpx.Response`. `body` is what `json()` returns, and `none` where
-- it raises a `ValueError`.
pub record HttpResponse : Type 0 where
  pub status_code : ℕ
  pub is_error : Bool
  pub retry_after : Option String
  pub body : Option Json

-- A float as `Retry-After` may hold one: its sign, and its size in ticks.
pub record Reading : Type 0 where
  pub negative : Bool
  pub size : ℕ

-- What the mappings use and this repository does not define: `float` of a text, which raises a
-- `ValueError` where it is `none`; the quoted form of a text; and the fields of a pydantic model,
-- as a `str` and as an `int` field accept a JSON value, `none` being a `ValidationError`.
pub record Runtime : Type 0 where
  pub float_of : String → Option Reading
  pub repr : String → String
  pub str_field : Json → Option String
  pub int_field : Json → Option ℤ

-- `_upstream_message`
abbrev message_text : Option Json → Option String
message_text (some (str s)) = some s
message_text _ = none

abbrev message_of_error : Option Json → Option String
message_of_error (some (obj fs)) = message_text (get_entry "message" fs)
message_of_error o = message_text o

unfoldable pub upstream_message : Option Json → Option String
unfolding get_entry
upstream_message (some (obj fs)) = message_of_error (get_entry "error" fs)
upstream_message _ = none

-- `_retry_after_seconds`: a negative wait is no wait.
unfoldable pub retry_after_seconds : Runtime → Option String → Option ℕ
retry_after_seconds rt none = none
retry_after_seconds rt (some header) = elim (rt.float_of header) [
  | none ↦ none
  | some r ↦ some (if r.negative then 0 else r.size)
]

abbrev retry_after_header : Option String → Option (Dict String)
retry_after_header o = elim (non_empty o) [ none ↦ none | some h ↦ some (("Retry-After", h) ∷ []) ]

abbrev not_available : Runtime → String → String
not_available rt model = join "Model " (join (rt.repr model) " is not available.")

-- `_as_app_error`
unfoldable pub as_app_error : Runtime → HttpResponse → String → AppError
unfolding upstream_message retry_after_seconds new
as_app_error rt response model =
    let status = response.status_code in
    let details = ("upstream_status", nat status) ∷ [] in
    if status == 404
    then new ErrorClass.model_not_found (record no_args {
      message = some (or_default (upstream_message response.body) (not_available rt model));
      details = ("model", str model) ∷ [];
    })
    else if status == 429
    then new ErrorClass.upstream_rate_limited (record no_args {
      headers = retry_after_header response.retry_after;
      details = details;
      retry_after = retry_after_seconds rt response.retry_after;
    })
    else if status == 401 || status == 403
    then new ErrorClass.upstream_auth_failed (record no_args { details = details })
    else if leb 400 status && ltb status 500
    then new ErrorClass.upstream_rejected_request
        (record no_args { message = upstream_message response.body; details = details })
    else new ErrorClass.upstream_error (record no_args { details = details })

-- `v[0]`, where every failure is one that `_to_response` catches: an `IndexError`, a `KeyError`, a
-- `TypeError`. The first character of a text is no object, so it fails at the next step.
unfoldable pub first : Json → Option Json
first (arr (element v vs)) = some v
first _ = none

-- `usage.get(name, 0)` of the usage, an object or anything else that is true.
unfoldable pub usage_field : Runtime → String → Json → Option ℤ
unfolding get_entry
usage_field rt name (obj fs) = elim (get_entry name fs) [
  | none ↦ rt.int_field (nat 0)
  | some v ↦ rt.int_field v
]
usage_field rt name _ = none

-- `data.get("usage") or {}`
unfoldable pub usage_of : Entries → Json
unfolding get_entry json_truthy
usage_of fs = elim (get_entry "usage" fs) [
  | none ↦ obj no_entry
  | some u ↦ if json_truthy u then u else obj no_entry
]

-- The model that `_to_response` builds from an object, `none` where it raises what it catches.
unfoldable pub response_of : Runtime → Entries → Option CompletionResponse
unfolding get_entry first usage_field usage_of member
response_of rt fs = do
  id ← get_entry "id" fs >>= rt.str_field
  model ← get_entry "model" fs >>= rt.str_field
  choices ← get_entry "choices" fs
  choice ← first choices
  message ← member "message" choice
  content ← member "content" message >>= rt.str_field
  prompt_tokens ← usage_field rt "prompt_tokens" (usage_of fs)
  completion_tokens ← usage_field rt "completion_tokens" (usage_of fs)
  some (record {
    id = id;
    model = model;
    content = content;
    usage = record { prompt_tokens = prompt_tokens; completion_tokens = completion_tokens };
  })

abbrev or_invalid : Option CompletionResponse → Result CompletionResponse
or_invalid none = raised (app (new ErrorClass.invalid_upstream_response no_args))
or_invalid (some r) = ok r

-- `_to_response`
unfoldable pub to_response : Runtime → Json → Result CompletionResponse
unfolding response_of
to_response rt (obj fs) = or_invalid (response_of rt fs)
to_response rt _ = raised (app (new ErrorClass.invalid_upstream_response no_args))
