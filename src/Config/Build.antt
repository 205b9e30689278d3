-- ===== src/Config/Build.antt =====
-- `create_app` of src/factory.py after its checks: what it puts together before the application
-- starts, with the routers of src/endpoints.
use prd_api_wrapper.Prelude.{ℕ, String, Bool, true, List, [], ◌∷◌, ◌++◌, join}
use prd_api_wrapper.Config.Values.{Settings}

-- The options of `CORSMiddleware`.
pub record Cors : Type 0 where
  pub allow_origins : List String
  pub allow_credentials : Bool
  pub allow_methods : List String
  pub allow_headers : List String

pub data Middleware : Type 0 where
  request_id : Middleware
  cors : Cors → Middleware

-- The functions that the routers decorate.
pub data Endpoint : Type 0 where
  health ready complete submit show : Endpoint

pub record Route : Type 0 where
  pub method : String
  pub path : String
  pub status_code : ℕ
  pub endpoint : Endpoint

pub record Router : Type 0 where
  pub prefix : String
  pub routes : List Route

abbrev pub get_route : String → Endpoint → Route
get_route path endpoint = record {
  method = "GET";
  path = path;
  status_code = 200;
  endpoint = endpoint;
}

abbrev pub health_router : Router
health_router = record {
  prefix = "";
  routes = get_route "/health" Endpoint.health ∷ get_route "/health/ready" Endpoint.ready ∷ [];
}

abbrev pub completion_router : Router
completion_router = record {
  prefix = "/v1";
  routes =
      record {
        method = "POST";
        path = "/complete";
        status_code = 200;
        endpoint = Endpoint.complete;
      }
      ∷ [];
}

abbrev pub jobs_router : Router
jobs_router = record {
  prefix = "/v1/jobs";
  routes =
      record { method = "POST"; path = ""; status_code = 202; endpoint = Endpoint.submit }
      ∷ get_route "/{job_id}" Endpoint.show
      ∷ [];
}

-- What FastAPI is given. The middleware stands outermost first.
pub record Built : Type 0 where
  pub debug : Bool
  pub middleware : List Middleware
  pub routes : List Route

-- `add_middleware` puts it in front.
abbrev pub add_middleware : Middleware → Built → Built
add_middleware m b = record b { middleware = m ∷ b.middleware }

abbrev prefixed : String → List Route → List Route
prefixed prefix [] = []
prefixed prefix (r ∷ rs) = record r { path = join prefix r.path } ∷ prefixed prefix rs

-- `include_router` appends the routes, with the prefix of the router before their paths.
abbrev pub include_router : Router → Built → Built
include_router r b = record b { routes = b.routes ++ prefixed r.prefix r.routes }

abbrev pub open_cors : Cors
open_cors = record {
  allow_origins = "*" ∷ [];
  allow_credentials = true;
  allow_methods = "*" ∷ [];
  allow_headers = "*" ∷ [];
}

unfoldable pub build_app : Settings → Built
build_app settings =
    let bare : Built = record { debug = settings.debug; middleware = []; routes = [] } in
    let wrapped =
      add_middleware (Middleware.cors open_cors) (add_middleware Middleware.request_id bare) in
    include_router jobs_router
      (include_router completion_router (include_router health_router wrapped))
