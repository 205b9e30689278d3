-- ===== src/Endpoints/Closing.antt =====
-- What a response of src/endpoints shows of how its route ended, through the session of
-- src/dependencies/common.py, the handlers of src/errors/handlers.py and the request id.
use prd_api_wrapper.Prelude.{ℕ, String, ◌≡◌, refl, ◌∙◌, false, Option, some, [], str_eq}
use prd_api_wrapper.Prelude.Dict.{lookup, non_empty_dict, lookup-insert}
use prd_api_wrapper.Json.{Json}
use prd_api_wrapper.Errors.{class_status, or_empty}
use prd_api_wrapper.Errors.Handlers.{
  RequestState, JsonResponse, Raised, app, crash, invalid_request,
}
use prd_api_wrapper.Errors.Laws.{enveloped, class_of_raised, or_empty-non_empty}
use prd_api_wrapper.Exec.{ok, raised, Exec}
use prd_api_wrapper.RequestId.{chosen_id, request_id_header, serve, dispatch}
use prd_api_wrapper.Endpoints.{AppState, Context, close_session, respond, route}

-- A request as its route finds it: under its id, with nothing written.
abbrev pub open_request :
    {W : Type 0} → String → Option String → RequestState → AppState W → Context W
open_request fresh header request shared = record {
  shared = shared;
  request = record request { request_id = some (chosen_id header fresh) };
  response = [];
  pending = λ rows. rows;
}

-- A response of this status, and this state behind it.
abbrev pub Gives : {W : Type 0} → ℕ → AppState W → JsonResponse × AppState W → Type 0
Gives status shared o = (o.0.status_code ≡ status) × (o.1 ≡ shared)

module _ {W A : Type 0} (status : ℕ) (encode : A → Json) (fresh : String)
    (header : Option String) where
  closed_raised :
      (r : Raised) (s : Context W)
      → Gives (class_status (class_of_raised r)) s.shared (
          serve fresh header
            (λ _. respond status encode (close_session (raised r, s)))
            (s.request, s.shared))
  unfolding serve dispatch close_session
  closed_raised (app e) s = ((enveloped s.request (app e)).0, refl)
  closed_raised (invalid_request v) s = ((enveloped s.request (invalid_request v)).0, refl)
  closed_raised (crash m) s = ((enveloped s.request (crash m)).0, refl)

  -- A route that raises: its session is dropped.
  pub serve_raised :
      (f : Exec (Context W) A) (request : RequestState) (shared : AppState W) (r : Raised)
      (s : Context W) (n : ℕ)
      → f (open_request fresh header request shared) ≡ (raised r, s)
      → class_status (class_of_raised r) ≡ n
      → Gives n s.shared (serve fresh header (route status encode f) (request, shared))
  unfolding serve dispatch route
  serve_raised f request shared r s n e is_n =
      let given : Gives (class_status (class_of_raised r)) s.shared
          (serve fresh header (route status encode f) (request, shared)) =
        rw e (closed_raised r s) in
      (given.0 ∙ is_n, given.1)

  -- A route that returns: its session is committed.
  pub serve_ok :
      (f : Exec (Context W) A) (request : RequestState) (shared : AppState W) (v : A)
      (s : Context W)
      → f (open_request fresh header request shared) ≡ (ok v, s)
      → let o = serve fresh header (route status encode f) (request, shared) in
        Gives status (record s.shared { keys = s.pending s.shared.keys }) o
        × (o.0.content ≡ encode v)
        × ((name : String)
            → str_eq request_id_header name ≡ false
            → lookup name (or_empty o.0.headers) ≡ lookup name s.response)
  unfolding serve dispatch route close_session
  serve_ok f request shared v s e = rw e (
    (refl, refl),
    refl,
    λ name other.
        lookup-insert request_id_header name (chosen_id header fresh)
          (or_empty (non_empty_dict s.response))
        ∙ rw other (or_empty-non_empty s.response name),
  )
