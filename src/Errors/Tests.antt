-- ===== src/Errors/Tests.antt =====
-- Tests of the taxonomy of src/errors/, and its theorems at concrete inputs.
use prd_api_wrapper.Prelude.{String, ◌≡◌, refl, some, [], ◌∷◌}
use prd_api_wrapper.Json.{str, nat, member}
use prd_api_wrapper.Errors.Handlers.{RequestState, Raised, handle_error}
use prd_api_wrapper.Errors.Laws.{error_member, IsAnswerTo, handle_error_envelope}

abbrev traced : RequestState
traced = record {
  request_id = some "trace-1";
  response_headers = some (("X-RateLimit-Limit", "10") ∷ []);
}

-- A refused request body is reported with its request id.
refused-request_id :
    error_member "request_id" (handle_error traced (Raised.invalid_request (nat 1))).content
    ≡ some (str "trace-1")
unfolding handle_error member
refused-request_id = refl

abbrev boom : Raised
boom = Raised.crash "boom"

handle_error_envelope_example :
    IsAnswerTo traced boom (handle_error traced boom)
    × ((m n : String)
        → boom ≡ Raised.crash m
        → handle_error traced boom ≡ handle_error traced (Raised.crash n))
handle_error_envelope_example = handle_error_envelope traced boom
