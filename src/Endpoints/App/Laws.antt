-- ===== src/Endpoints/App/Laws.antt =====
-- What the whole application of src/factory.py answers, beside a route under the request id alone.
use prd_api_wrapper.Prelude.{
  ℕ, String, ◌≡◌, refl, ap, ◌∙◌, ◌⊎◌, inl, inr, Bool, true, false, Option,
}
use prd_api_wrapper.Json.{Json}
use prd_api_wrapper.Errors.{AppError, ErrorClass, class_status, new, no_args}
use prd_api_wrapper.Errors.Handlers.{RequestState, JsonResponse, app as app_error}
use prd_api_wrapper.Exec.{Result, ok, raised, Exec}
use prd_api_wrapper.RequestId.{dispatch, catch_known, catch_all, serve}
use prd_api_wrapper.Auth.Service.{Credentials}
use prd_api_wrapper.Config.{
  Settings, Waiting, Application, Cors, open_cors, build_app, lifespan, create_app,
}
use prd_api_wrapper.Config.Laws.{create_app-lifespan}
use prd_api_wrapper.Endpoints.{AppState, Context, Api, complete, submit, show, route, close_session}
use prd_api_wrapper.Endpoints.Closing.{open_request, Gives, serve_raised}
use prd_api_wrapper.Endpoints.Steps.{
  IsJson, parse_body-IsJson, new_status, IsStranger, get_caller-stranger,
}
use prd_api_wrapper.Endpoints.Traffic.{with_settings}
use prd_api_wrapper.Endpoints.App.{
  Libraries, Keyed, completes, submits, shows, keyed, Handler, handle, decorated, last_resort,
  serve_app,
}

module _ {W : Type 0} (lib : Libraries W) where
  -- The CORS middleware adds headers to an answer and leaves the rest of it alone.
  abbrev pub AddsHeaders : Type 0
  AddsHeaders =
      (o : Cors) (response : JsonResponse)
      → ((lib.with_cors o response).status_code ≡ response.status_code)
        × ((lib.with_cors o response).content ≡ response.content)

  -- The same status, content and state.
  abbrev pub SameAnswer : JsonResponse × AppState W → JsonResponse × AppState W → Type 0
  SameAnswer o p = (o.0.status_code ≡ p.0.status_code) × (o.0.content ≡ p.0.content) × (o.1 ≡ p.1)

  decorated_same :
      (debug : Bool) (o : Cors) (d : Result JsonResponse × (RequestState × AppState W))
      → AddsHeaders
      → (debug ≡ false) ⊎ ((response : JsonResponse) × (d.0 ≡ ok response))
      → SameAnswer (last_resort lib debug (decorated lib (lib.with_cors o) d)) (catch_all d)
  decorated_same debug o (ok response, s) adds h = ((adds o response).0, (adds o response).1, refl)
  decorated_same debug o (raised r, s) adds (inl off) = rw off (refl, refl, refl)
  decorated_same debug o (raised r, s) adds (inr (response, wrong)) = cc

  module _ {S : Type 0} (wait : Waiting S) (settings : Settings) (app : Application S)
      (fresh : String) (header : Option String) (handler : Handler lib)
      (request : RequestState × AppState W) where
    same_answer :
        create_app wait settings ≡ ok app
        → AddsHeaders
        → (settings.debug ≡ false)
          ⊎ ((response : JsonResponse) × ((dispatch fresh header
                  (λ s. catch_known (handler s))
                  request).0
                ≡ ok response))
        → SameAnswer
            (serve_app lib app fresh header handler request)
            (serve fresh header handler request)
    unfolding serve_app serve lifespan build_app
    same_answer made adds h =
        rw (create_app-lifespan wait settings app made)
          (decorated_same settings.debug open_cors _ adds h)

  -- A failure of ours is answered inside of the middleware, in debug mode too.
  app_answered :
      {A : Type 0} (status : ℕ) (encode : A → Json) (f : Exec (Context W) A) (fresh : String)
      (header : Option String) (request : RequestState) (shared : AppState W) (e : AppError)
      (s : Context W)
      → f (open_request fresh header request shared) ≡ (raised (app_error e), s)
      → (response : JsonResponse) × ((dispatch fresh header
            (λ t. catch_known (route status encode f t))
            (request, shared)).0
          ≡ ok response)
  unfolding dispatch route close_session
  app_answered status encode f fresh header request shared e s h = rw h (_, refl)

  module _ {S : Type 0} (wait : Waiting S) (settings : Settings) (app : Application S)
      (unset : Api W) (fresh : String) (header : Option String) (request : RequestState)
      (shared : AppState W) where
    abbrev opened : Context W
    opened = open_request fresh header request shared

    turned_away :
        {A : Type 0} (status : ℕ) (encode : A → Json) (f : Exec (Context W) A) (k : ErrorClass)
        → create_app wait settings ≡ ok app
        → AddsHeaders
        → class_status k ≡ 401
        → f opened ≡ (raised (app_error (new k no_args)), opened)
        → Gives 401 shared
            (serve_app lib app fresh header (route status encode f) (request, shared))
    turned_away status encode f k made adds unauthorized e =
        let known =
          app_answered status encode f fresh header request shared (new k no_args) opened e in
        let (same, _, left) =
          same_answer wait settings app fresh header (route status encode f) (request, shared) made
            adds (inr known) in
        let (is_401, kept) =
          serve_raised status encode fresh header f request shared (app_error (new k no_args))
            opened 401 e (new_status k ∙ unauthorized) in
        (same ∙ is_401, left ∙ kept)

    keeps_strict :
        create_app wait settings ≡ ok app
        → settings.require_api_key ≡ true
        → (with_settings app unset).require_api_key ≡ true
    unfolding with_settings lifespan
    keeps_strict made strict =
        ap (λ (started : Application S). started.settings.require_api_key)
          (create_app-lifespan wait settings app made)
        ∙ strict

    -- The body of a call, where its route takes one, is JSON.
    abbrev pub HasJson : Keyed → Type 0
    HasJson (completes body) = IsJson body
    HasJson (submits body) = IsJson body
    HasJson (shows job_id) = Unit

    -- Once the application has started with keys required, a request without an active key gets a
    -- 401 from every route but the health checks, if its body is JSON where the route takes one, in
    -- debug mode too, and changes nothing: no token is spent, no service is called and nothing is
    -- written. The CORS middleware is taken to add
    -- nothing but headers.
    pub stranger_turned_away :
        (given : Option Credentials) (k : Keyed)
        → create_app wait settings ≡ ok app
        → AddsHeaders
        → settings.require_api_key ≡ true
        → IsStranger (with_settings app unset) given shared
        → HasJson k
        → Gives 401 shared (
            serve_app lib app fresh header
              (handle lib (with_settings app unset) app.built.routes (keyed given k))
              (request, shared))
    unfolding handle complete submit show
    stranger_turned_away given (completes body) made adds strict h is_json =
        let a = with_settings app unset in
        let (k, unauthorized, e) =
          get_caller-stranger a given opened (keeps_strict made strict) h in
        turned_away _ lib.encode_completion (complete a given body) k made adds unauthorized
          (rw (parse_body-IsJson body opened is_json, e) refl)
    stranger_turned_away given (submits body) made adds strict h is_json =
        let a = with_settings app unset in
        let (k, unauthorized, e) =
          get_caller-stranger a given opened (keeps_strict made strict) h in
        turned_away _ lib.encode_accepted (submit a given body) k made adds unauthorized
          (rw (parse_body-IsJson body opened is_json, e) refl)
    stranger_turned_away given (shows job_id) made adds strict h is_json =
        let a = with_settings app unset in
        let (k, unauthorized, e) =
          get_caller-stranger a given opened (keeps_strict made strict) h in
        turned_away _ lib.encode_view (show a given job_id) k made adds unauthorized (rw e refl)
