-- ===== src/Endpoints/App/Tests.antt =====
-- Requests through an application that has started.
use prd_api_wrapper.Prelude.{ℕ, ◌+◌, ◌^◌, ◌≡◌, refl, false, none, some, []}
use prd_api_wrapper.Prelude.Dict.{insert}
use prd_api_wrapper.Json.{null, str}
use prd_api_wrapper.Errors.{or_empty}
use prd_api_wrapper.Errors.Handlers.{RequestState, JsonResponse, crash}
use prd_api_wrapper.Exec.{raised}
use prd_api_wrapper.Config.{
  Settings, Waiting, Application, Endpoint, Cors, default_settings, build_app,
  check_production_settings, lifespan, create_app,
}
use prd_api_wrapper.Endpoints.{AppState, Api, invalid}
use prd_api_wrapper.Endpoints.Closing.{Gives}
use prd_api_wrapper.Endpoints.Traffic.{with_settings}
use prd_api_wrapper.Endpoints.App.{Libraries, keyed, submits, status_of, handle, serve_app}
use prd_api_wrapper.Endpoints.App.Laws.{stranger_turned_away}

-- The state is the clock.
abbrev halving : Waiting ℕ
halving = record { sleep = λ d s. s + d; jitter = λ s. (2 ^ 52, s); clock = λ s. s }

abbrev signing : Settings
signing = record default_settings { webhook_signing_secret = "secret" }

abbrev wrapper : Application ℕ
wrapper = lifespan halving signing

abbrev unset : Api ℕ
unset = record {
  hash_api_key = λ key. key;
  require_api_key = false;
  rate_limit_enabled = false;
  upstream_model = "";
  now = λ s. 7;
  monotonic = λ s. s.services;
  complete = λ payload caller s. (raised (crash "none"), s);
  accept = λ payload caller model s. (raised (crash "none"), s);
  get = λ job_id caller s. (raised (crash "none"), s);
}

abbrev any_origin : Cors → JsonResponse → JsonResponse
any_origin o response = record response {
  headers = some (insert "access-control-allow-origin" "*" (or_empty response.headers));
}

abbrev libraries : Libraries ℕ
libraries = record {
  with_cors = any_origin;
  debug_response = λ r. record { status_code = 500; content = str "Traceback"; headers = none };
  encode_completion = λ r. str r.content;
  encode_accepted = λ (accepted, task). str accepted.id;
  encode_view = λ v. str v.id;
  execute = λ s. (raised (crash "refused"), s);
  get = λ s. (raised (crash "refused"), s);
}

abbrev quiet : AppState ℕ
quiet = record { keys = []; limiter = wrapper.rate_limiter; services = 1 }

abbrev bare_request : RequestState
bare_request = record { request_id = none; response_headers = none }

-- The statuses of the routes, and that of a path that there is none for.
build_app-statuses :
    (status_of Endpoint.submit (build_app signing).routes ≡ 202)
    × (status_of Endpoint.show (build_app signing).routes ≡ 200)
    × (status_of Endpoint.show [] ≡ 404)
unfolding build_app
build_app-statuses = (refl, refl, refl)

stranger_turned_away_example : Gives 401 quiet (
    serve_app libraries wrapper "0f" none
      (handle libraries
        (with_settings wrapper unset)
        wrapper.built.routes
        (keyed none (submits (invalid null))))
      (bare_request, quiet))
unfolding create_app check_production_settings lifespan
stranger_turned_away_example =
    stranger_turned_away libraries halving signing wrapper unset "0f" none bare_request quiet none
      (submits (invalid null)) refl (λ o response. (refl, refl)) refl tt tt
