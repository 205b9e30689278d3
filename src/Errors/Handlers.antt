-- ===== src/Errors/Handlers.antt =====
-- src/errors/handlers.py: what a request that failed is answered with.
use prd_api_wrapper.Prelude.{ℕ, String, Option, none, [], ◌∷◌}
use prd_api_wrapper.Prelude.Dict.{Dict, merge, non_empty_dict}
use prd_api_wrapper.Json.{Json}
use prd_api_wrapper.Errors.{ErrorClass, AppError, class_status, no_args, new, or_empty, to_payload}

-- `request.state`, as far as the handlers read it.
pub record RequestState : Type 0 where
  pub request_id : Option String
  pub response_headers : Option (Dict String)

pub record JsonResponse : Type 0 where
  pub status_code : ℕ
  pub content : Json
  pub headers : Option (Dict String)

-- What a route may raise: our own errors, a refused request body with the encoded list of its
-- errors, and anything else, named by its text.
pub data Raised : Type 0 where
  app : AppError → Raised
  invalid_request : Json → Raised
  crash : String → Raised

unfoldable pub collected_headers : RequestState → Dict String
collected_headers request = or_empty request.response_headers

unfoldable pub app_error_handler : RequestState → AppError → JsonResponse
unfolding collected_headers class_status to_payload
app_error_handler request error = record {
  status_code = class_status error.kind;
  content = to_payload request.request_id error;
  headers = non_empty_dict (merge (collected_headers request) error.headers);
}

unfoldable pub validation_error_handler : RequestState → Json → JsonResponse
unfolding class_status to_payload new
validation_error_handler request errors =
    let failure =
      new ErrorClass.validation_failed (record no_args { details = ("fields", errors) ∷ [] }) in
    record {
      status_code = class_status failure.kind;
      content = to_payload request.request_id failure;
      headers = none;
    }

unfoldable pub unhandled_error_handler : RequestState → JsonResponse
unfolding collected_headers class_status to_payload new
unhandled_error_handler request =
    let generic = new ErrorClass.app_error no_args in
    record {
      status_code = class_status generic.kind;
      content = to_payload request.request_id generic;
      headers = non_empty_dict (collected_headers request);
    }

-- `register_error_handlers`: the handler of the most specific class answers.
unfoldable pub handle_error : RequestState → Raised → JsonResponse
unfolding app_error_handler validation_error_handler unhandled_error_handler
handle_error request (Raised.app e) = app_error_handler request e
handle_error request (Raised.invalid_request errors) = validation_error_handler request errors
handle_error request (Raised.crash m) = unhandled_error_handler request
