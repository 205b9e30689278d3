-- ===== src/Errors/Laws.antt =====
-- The taxonomy of src/errors/exceptions.py and the responses of src/errors/handlers.py, proved.
use prd_api_wrapper.Prelude.{
  String, ◌≡◌, refl, ◌∙◌, sym, ap, [], ◌∷◌, Option, none, some, arith, str_eq, non_empty,
  if◌then◌else◌,
}
use prd_api_wrapper.Prelude.Dict.{
  Dict, IsDict, lookup, or_else, merge, lookup-merge, non_empty_dict,
}
use prd_api_wrapper.Json.{Json, str, obj, entry, no_entry, entries_of, member, get_entry}
use prd_api_wrapper.Errors.{
  default_headers, ErrorClass, AppError, Args, class_code, class_status, class_message,
  details_entry, request_id_entry, new, or_empty,
}
use prd_api_wrapper.Errors.Handlers.{
  RequestState, JsonResponse, Raised, app_error_handler, handle_error, collected_headers,
}

-- The class that a client reads off a code.
class_of_code : String → Option ErrorClass
class_of_code c =
    if str_eq c "internal_error"
    then some ErrorClass.app_error
    else if str_eq c "unauthenticated"
    then some ErrorClass.unauthenticated
    else if str_eq c "missing_credentials"
    then some ErrorClass.missing_credentials
    else if str_eq c "invalid_credentials"
    then some ErrorClass.invalid_credentials
    else if str_eq c "validation_error"
    then some ErrorClass.validation_failed
    else if str_eq c "model_not_found"
    then some ErrorClass.model_not_found
    else if str_eq c "upstream_rejected_request"
    then some ErrorClass.upstream_rejected_request
    else if str_eq c "rate_limit_exceeded"
    then some ErrorClass.rate_limit_exceeded
    else if str_eq c "upstream_rate_limited"
    then some ErrorClass.upstream_rate_limited
    else if str_eq c "upstream_error"
    then some ErrorClass.upstream_error
    else if str_eq c "upstream_unavailable"
    then some ErrorClass.upstream_unavailable
    else if str_eq c "upstream_timeout"
    then some ErrorClass.upstream_timeout
    else if str_eq c "upstream_circuit_open"
    then some ErrorClass.upstream_circuit_open
    else if str_eq c "upstream_auth_failed"
    then some ErrorClass.upstream_auth_failed
    else if str_eq c "webhook_delivery_failed"
    then some ErrorClass.webhook_delivery_failed
    else if str_eq c "job_not_found"
    then some ErrorClass.job_not_found
    else if str_eq c "invalid_upstream_response"
    then some ErrorClass.invalid_upstream_response
    else none

class_of_code-class_code : (k : ErrorClass) → class_of_code (class_code k) ≡ some k
unfolding class_of_code class_code
class_of_code-class_code ErrorClass.app_error = refl
class_of_code-class_code _ = refl

some-eq : {k j : ErrorClass} → some k ≡ some j → k ≡ j
some-eq h = cc

-- Two classes never share a code, so a client that branches on the code knows the class.
pub class_code-injective : (k j : ErrorClass) → class_code k ≡ class_code j → k ≡ j
class_code-injective k j h =
    some-eq (sym (class_of_code-class_code k) ∙ ap class_of_code h ∙ class_of_code-class_code j)

-- `content["error"][name]` of a response body.
abbrev pub error_member : String → Json → Option Json
error_member name v = elim (member "error" v) [ none ↦ none | some e ↦ member name e ]

abbrev pub text : Option String → Option Json
text none = none
text (some s) = some (str s)

pub or_empty-non_empty :
    (d : Dict String) (name : String) → lookup name (or_empty (non_empty_dict d)) ≡ lookup name d
or_empty-non_empty [] name = refl
or_empty-non_empty (e ∷ d) name = refl

-- What a failure is called to a client: our own errors by their class, a refused body as a failed
-- validation, and anything else as the one generic error.
abbrev pub class_of_raised : Raised → ErrorClass
class_of_raised (Raised.app e) = e.kind
class_of_raised (Raised.invalid_request errors) = ErrorClass.validation_failed
class_of_raised (Raised.crash m) = ErrorClass.app_error

abbrev pub message_of_raised : Raised → String
message_of_raised (Raised.app e) = e.message
message_of_raised (Raised.invalid_request errors) = class_message ErrorClass.validation_failed
message_of_raised (Raised.crash m) = class_message ErrorClass.app_error

abbrev pub details_of_raised : Raised → Option Json
details_of_raised (Raised.app e) = elim e.details [
  | [] ↦ none
  | d ∷ ds ↦ some (obj (entries_of (d ∷ ds)))
]
details_of_raised (Raised.invalid_request errors) = some (obj (entry "fields" errors no_entry))
details_of_raised (Raised.crash m) = none

request_id-member :
    (o : Option String) → get_entry "request_id" (request_id_entry o) ≡ text (non_empty o)
unfolding get_entry
request_id-member none = refl
request_id-member (some String.[]) = refl
request_id-member (some (String.◌∷◌ c s)) = refl

details-member :
    (o : Option String) (d : Dict Json)
    → (get_entry "request_id" (details_entry d (request_id_entry o)) ≡ text (non_empty o))
      × (get_entry "details" (details_entry d (request_id_entry o))
          ≡ elim d [ [] ↦ none | e ∷ es ↦ some (obj (entries_of (e ∷ es))) ])
unfolding get_entry
details-member none [] = (refl, refl)
details-member (some String.[]) [] = (refl, refl)
details-member (some (String.◌∷◌ c s)) [] = (refl, refl)
details-member o (e ∷ es) = (request_id-member o, refl)

-- The status and the code of the class of a failure, its message, its details when there are any,
-- and the id of the request exactly when there is a non-empty one.
abbrev pub IsAnswerTo : RequestState → Raised → JsonResponse → Type 0
IsAnswerTo request r response =
    (response.status_code ≡ class_status (class_of_raised r))
    × (error_member "code" response.content ≡ some (str (class_code (class_of_raised r))))
    × (error_member "message" response.content ≡ some (str (message_of_raised r)))
    × (error_member "details" response.content ≡ details_of_raised r)
    × (error_member "request_id" response.content ≡ text (non_empty request.request_id))

pub enveloped :
    (request : RequestState) (r : Raised) → IsAnswerTo request r (handle_error request r)
unfolding handle_error member
enveloped request (Raised.app e) =
    let m = details-member request.request_id e.details in (refl, refl, refl, m.1, m.0)
enveloped request (Raised.invalid_request errors) =
    (refl, refl, refl, refl, request_id-member request.request_id)
enveloped request (Raised.crash m) = (
  refl,
  refl,
  refl,
  (details-member request.request_id []).1,
  request_id-member request.request_id,
)

-- Outside of debug mode, a failure that a route or one of its dependencies raises is answered in
-- one envelope: the status and the code of its class, its message, its details when there are any,
-- and the id of the request exactly when there is a non-empty one. One that is not of ours shows
-- nothing of itself: the whole response, headers included, is the same whatever it is.
pub handle_error_envelope :
    (request : RequestState) (r : Raised)
    → let response = handle_error request r in
      IsAnswerTo request r response
      × ((m n : String) → r ≡ Raised.crash m → response ≡ handle_error request (Raised.crash n))
unfolding handle_error
handle_error_envelope request r = (enveloped request r, λ m n e. rw e refl)

-- A response header of a failure of ours is the failure's own, whose headers name no key twice, and
-- else the one that a dependency collected for the request.
pub app_error_handler_headers :
    (request : RequestState) (e : AppError) (name : String)
    → IsDict e.headers
    → lookup name (or_empty (app_error_handler request e).headers)
      ≡ or_else (lookup name e.headers) (lookup name (collected_headers request))
unfolding app_error_handler
app_error_handler_headers request e name h =
    or_empty-non_empty (merge (collected_headers request) e.headers) name
    ∙ lookup-merge name (collected_headers request) e.headers h

default_headers-challenge :
    (k : ErrorClass)
    → class_status k ≡ 401
    → default_headers k none ≡ some (("WWW-Authenticate", "Bearer") ∷ [])
unfolding default_headers class_status
default_headers-challenge ErrorClass.unauthenticated h = refl
default_headers-challenge _ h = ground arith

new-challenge :
    (k : ErrorClass) (args : Args)
    → class_status k ≡ 401
    → args.headers ≡ none
    → (new k args).headers ≡ ("WWW-Authenticate", "Bearer") ∷ []
unfolding new
new-challenge k args h e = rw (e, default_headers-challenge k h)

-- A 401 of ours says how to authenticate, unless its headers were given otherwise.
pub unauthenticated_challenge :
    (request : RequestState) (k : ErrorClass) (args : Args)
    → class_status k ≡ 401
    → args.headers ≡ none
    → lookup "WWW-Authenticate" (or_empty (app_error_handler request (new k args)).headers)
      ≡ some "Bearer"
unfolding lookup
unauthenticated_challenge request k args h e =
    let c = new-challenge k args h e in
    app_error_handler_headers request (new k args) "WWW-Authenticate" (rw c (refl, tt)) ∙ rw c

-- Known defect: headers that a dependency collected for the request are left out of the response to
-- an invalid body, which has no headers at all, while the response to an unexpected exception has
-- them.
pub validation_error_headers :
    (request : RequestState) (errors : Json) (d : String × String) (ds : Dict String)
    → request.response_headers ≡ some (d ∷ ds)
    → ((handle_error request (Raised.invalid_request errors)).headers ≡ none)
      × ((m : String) → (handle_error request (Raised.crash m)).headers ≡ some (d ∷ ds))
unfolding handle_error
validation_error_headers request errors d ds h = (refl, λ m. rw h)
