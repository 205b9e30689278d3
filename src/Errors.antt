-- ===== src/Errors.antt =====
-- src/errors/exceptions.py: the error taxonomy. The handlers and the laws stand in the modules
-- below.
pub mod Handlers
pub mod Laws
mod Tests
use prd_api_wrapper.Prelude.{
  ℕ, String, Bool, true, false, Option, none, some, [], ◌∷◌, truthy, or_default, if◌then◌else◌,
}
use prd_api_wrapper.Prelude.Dict.{Dict}
use prd_api_wrapper.Json.{Json, Entries, str, obj, no_entry, entry, entries_of}

-- The classes of the taxonomy, `AppError` itself first.
pub data ErrorClass : Type 0 where
  app_error unauthenticated missing_credentials invalid_credentials : ErrorClass
  validation_failed model_not_found upstream_rejected_request : ErrorClass
  rate_limit_exceeded upstream_rate_limited upstream_error upstream_unavailable : ErrorClass
  upstream_timeout upstream_circuit_open upstream_auth_failed : ErrorClass
  webhook_delivery_failed job_not_found invalid_upstream_response : ErrorClass

unfoldable pub class_status : ErrorClass → ℕ
class_status ErrorClass.app_error = 500
class_status ErrorClass.unauthenticated = 401
class_status ErrorClass.missing_credentials = 401
class_status ErrorClass.invalid_credentials = 401
class_status ErrorClass.validation_failed = 422
class_status ErrorClass.model_not_found = 400
class_status ErrorClass.upstream_rejected_request = 400
class_status ErrorClass.rate_limit_exceeded = 429
class_status ErrorClass.upstream_rate_limited = 429
class_status ErrorClass.upstream_error = 502
class_status ErrorClass.upstream_unavailable = 503
class_status ErrorClass.upstream_timeout = 504
class_status ErrorClass.upstream_circuit_open = 503
class_status ErrorClass.upstream_auth_failed = 502
class_status ErrorClass.webhook_delivery_failed = 502
class_status ErrorClass.job_not_found = 404
class_status ErrorClass.invalid_upstream_response = 502

unfoldable pub class_code : ErrorClass → String
class_code ErrorClass.app_error = "internal_error"
class_code ErrorClass.unauthenticated = "unauthenticated"
class_code ErrorClass.missing_credentials = "missing_credentials"
class_code ErrorClass.invalid_credentials = "invalid_credentials"
class_code ErrorClass.validation_failed = "validation_error"
class_code ErrorClass.model_not_found = "model_not_found"
class_code ErrorClass.upstream_rejected_request = "upstream_rejected_request"
class_code ErrorClass.rate_limit_exceeded = "rate_limit_exceeded"
class_code ErrorClass.upstream_rate_limited = "upstream_rate_limited"
class_code ErrorClass.upstream_error = "upstream_error"
class_code ErrorClass.upstream_unavailable = "upstream_unavailable"
class_code ErrorClass.upstream_timeout = "upstream_timeout"
class_code ErrorClass.upstream_circuit_open = "upstream_circuit_open"
class_code ErrorClass.upstream_auth_failed = "upstream_auth_failed"
class_code ErrorClass.webhook_delivery_failed = "webhook_delivery_failed"
class_code ErrorClass.job_not_found = "job_not_found"
class_code ErrorClass.invalid_upstream_response = "invalid_upstream_response"

unfoldable pub class_message : ErrorClass → String
class_message ErrorClass.app_error = "Something went wrong on our side."
class_message ErrorClass.unauthenticated = "Authentication is required."
class_message ErrorClass.missing_credentials =
    "Provide an API key as 'Authorization: Bearer <key>'."
class_message ErrorClass.invalid_credentials = "The provided API key is not valid."
class_message ErrorClass.validation_failed = "The request body is invalid."
class_message ErrorClass.model_not_found = "The requested model is not available."
class_message ErrorClass.upstream_rejected_request = "The provider rejected the request."
class_message ErrorClass.rate_limit_exceeded = "Rate limit exceeded. Slow down."
class_message ErrorClass.upstream_rate_limited = "Rate limited by the provider. Retry shortly."
class_message ErrorClass.upstream_error = "The provider returned an unexpected error."
class_message ErrorClass.upstream_unavailable = "The provider could not be reached."
class_message ErrorClass.upstream_timeout = "The provider did not respond in time."
class_message ErrorClass.upstream_circuit_open =
    "The provider is failing; calls are paused. Retry shortly."
class_message ErrorClass.upstream_auth_failed = "The provider rejected our credentials."
class_message ErrorClass.webhook_delivery_failed = "The callback could not be delivered."
class_message ErrorClass.job_not_found = "No such job."
class_message ErrorClass.invalid_upstream_response =
    "The provider returned a response we could not parse."

unfoldable pub class_retryable : ErrorClass → Bool
class_retryable ErrorClass.upstream_rate_limited = true
class_retryable ErrorClass.upstream_error = true
class_retryable ErrorClass.upstream_unavailable = true
class_retryable ErrorClass.upstream_timeout = true
class_retryable _ = false

pub record AppError : Type 0 where
  pub kind : ErrorClass
  pub message : String
  pub details : Dict Json
  pub headers : Dict String
  pub retry_after : Option ℕ
  pub retryable : Bool

-- The arguments of `__init__`; a header argument that is not given is `none`.
pub record Args : Type 0 where
  pub message : Option String
  pub details : Dict Json
  pub headers : Option (Dict String)
  pub retry_after : Option ℕ

abbrev pub no_args : Args
no_args = record { message = none; details = []; headers = none; retry_after = none }

abbrev pub or_empty : Option (Dict String) → Dict String
or_empty none = []
or_empty (some d) = d

-- `AppError.__init__`
unfoldable pub init : ErrorClass → Args → AppError
unfolding class_message class_retryable
init k args = record {
  kind = k;
  message = or_default args.message (class_message k);
  details = args.details;
  headers = or_empty args.headers;
  retry_after = args.retry_after;
  retryable = class_retryable k;
}

-- `Unauthenticated.__init__` sets its header unless the caller gives headers.
unfoldable pub default_headers : ErrorClass → Option (Dict String) → Option (Dict String)
default_headers k (some h) = some h
default_headers ErrorClass.unauthenticated none = some (("WWW-Authenticate", "Bearer") ∷ [])
default_headers ErrorClass.missing_credentials none = some (("WWW-Authenticate", "Bearer") ∷ [])
default_headers ErrorClass.invalid_credentials none = some (("WWW-Authenticate", "Bearer") ∷ [])
default_headers _ none = none

-- The call of a class.
unfoldable pub new : ErrorClass → Args → AppError
unfolding init default_headers
new k args = init k (record args { headers = default_headers k args.headers })

-- `WebhookDeliveryFailed.__init__`
unfoldable pub new_delivery_failure : Args → Bool → AppError
unfolding init
new_delivery_failure args retryable = record (init ErrorClass.webhook_delivery_failed args) {
  retryable = retryable;
}

abbrev details_entry : Dict Json → Entries → Entries
details_entry [] rest = rest
details_entry (d ∷ ds) rest = entry "details" (obj (entries_of (d ∷ ds))) rest

abbrev request_id_entry : Option String → Entries
request_id_entry none = no_entry
request_id_entry (some i) = if truthy i then entry "request_id" (str i) no_entry else no_entry

unfoldable pub to_payload : Option String → AppError → Json
unfolding class_code entries_of
to_payload request_id e = obj (
    entry "error"
      (obj (
        entry "code" (str (class_code e.kind)) (
          entry "message" (str e.message) (details_entry e.details (request_id_entry request_id)))))
      no_entry)
