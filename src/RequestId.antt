-- ===== src/RequestId.antt =====
-- `RequestIdMiddleware` of src/middleware/request_id.py, and how src/factory.py puts it between the
-- handlers of src/errors/handlers.py.
--
-- The names of headers are compared as they are spelled here.
mod Safe
pub mod Laws
mod Tests
use Prim.Native.Char.{Char, code}
use prd_api_wrapper.Prelude.{
  ℕ, zero, suc, String, Bool, true, false, ◌&&◌, ◌||◌, Option, none, some, truthy, or_default, leb,
  ◌==◌, if◌then◌else◌,
}
use prd_api_wrapper.Prelude.Dict.{insert}
use prd_api_wrapper.Errors.{or_empty}
use prd_api_wrapper.Errors.Handlers.{
  RequestState, JsonResponse, Raised, app, invalid_request, crash, handle_error,
}
use prd_api_wrapper.Exec.{Result, ok, raised, Exec}

-- `[A-Za-z0-9._-]`
unfoldable pub is_safe_char : Char → Bool
is_safe_char c =
    (leb b'A' (code c) && leb (code c) b'Z')
    || (leb b'a' (code c) && leb (code c) b'z')
    || (leb b'0' (code c) && leb (code c) b'9')
    || code c == b'.'
    || code c == b'_'
    || code c == b'-'

-- At most `n` more safe characters up to the end, before which `$` lets a line feed stand.
unfoldable pub matches_up_to : ℕ → String → Bool
unfolding is_safe_char
matches_up_to n String.[] = true
matches_up_to zero (String.◌∷◌ c String.[]) = code c == 10
matches_up_to zero (String.◌∷◌ c s) = false
matches_up_to (suc n) (String.◌∷◌ c String.[]) = is_safe_char c || code c == 10
matches_up_to (suc n) (String.◌∷◌ c s) = if is_safe_char c then matches_up_to n s else false

-- `SAFE_REQUEST_ID.match`
unfoldable pub is_safe_id : String → Bool
unfolding matches_up_to is_safe_char
is_safe_id String.[] = false
is_safe_id (String.◌∷◌ c s) = is_safe_char c && matches_up_to 63 s

-- `_incoming_id`, of the header's value.
unfoldable pub incoming_id : Option String → Option String
unfolding is_safe_id
incoming_id none = none
incoming_id (some candidate) =
    if truthy candidate && is_safe_id candidate then some candidate else none

abbrev pub chosen_id : Option String → String → String
chosen_id header fresh = or_default (incoming_id header) fresh

abbrev pub request_id_header : String
request_id_header = "X-Request-ID"

abbrev pub tag : {T : Type 0} → String → Result JsonResponse × T → Result JsonResponse × T
tag id (ok response, s) = (
  ok (record response { headers = some (insert request_id_header id (or_empty response.headers)) }),
  s,
)
tag id (raised r, s) = (raised r, s)

-- The state of a request beside the state that requests share.
module _ {S : Type 0} where
  -- `dispatch`; `fresh` is `uuid4().hex`, and `call_next` answers with the state that it leaves.
  unfoldable pub dispatch :
      String
      → Option String
      → Exec (RequestState × S) JsonResponse
      → Exec (RequestState × S) JsonResponse
  dispatch fresh header call_next (request, s) =
      let request_id = chosen_id header fresh in
      tag request_id (call_next (record request { request_id = some request_id }, s))

  -- The handlers of our errors and of refused bodies answer inside of the middleware.
  abbrev pub catch_known :
      Result JsonResponse × (RequestState × S) → Result JsonResponse × (RequestState × S)
  catch_known (ok response, s) = (ok response, s)
  catch_known (raised (app e), s) = (ok (handle_error s.0 (app e)), s)
  catch_known (raised (invalid_request errors), s) =
      (ok (handle_error s.0 (invalid_request errors)), s)
  catch_known (raised (crash m), s) = (raised (crash m), s)

  -- The handler of `Exception` answers outside of it.
  abbrev pub catch_all : Result JsonResponse × (RequestState × S) → JsonResponse × S
  catch_all (ok response, s) = (response, s.1)
  catch_all (raised r, s) = (handle_error s.0 r, s.1)

  -- What a request is answered with, by the application that `create_app` puts together.
  unfoldable pub serve :
      String
      → Option String
      → Exec (RequestState × S) JsonResponse
      → RequestState × S
      → JsonResponse × S
  unfolding dispatch
  serve fresh header route request =
      catch_all (dispatch fresh header (λ s. catch_known (route s)) request)
