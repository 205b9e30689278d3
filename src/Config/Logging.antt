-- ===== src/Config/Logging.antt =====
-- src/logs.py and src/runserver.py: the sinks of the logger, and what the server is started with.
use prd_api_wrapper.Prelude.{ℕ, String, Bool, false, not, List, [], ◌∷◌, join}
use prd_api_wrapper.Config.Values.{Settings, log_as_json, is_production}

abbrev human_format : String
human_format = join "<green>{time:HH:mm:ss.SSS}</green> | " (
    join "<level>{level: <7}</level> | " (
      join "<cyan>{name}</cyan>:<cyan>{line}</cyan> - "
        (join "<level>{message}</level> " "<dim>{extra}</dim>")))

-- A sink on the standard output.
pub record Sink : Type 0 where
  pub level : String
  pub serialize : Bool
  pub format : String
  pub backtrace : Bool
  pub diagnose : Bool

-- `configure_logging`: every sink is removed, and one is added.
unfoldable pub configure_logging : Settings → List Sink → List Sink
unfolding log_as_json
configure_logging settings sinks =
    record {
      level = settings.log_level;
      serialize = log_as_json settings;
      format = human_format;
      backtrace = false;
      diagnose = false;
    }
    ∷ []

-- What `uvicorn.run` is called with.
pub record Server : Type 0 where
  pub app : String
  pub host : String
  pub port : ℕ
  pub reload : Bool

unfoldable pub server : Settings → Server
server settings = record {
  app = "src.runserver:app";
  host = settings.host;
  port = settings.port;
  reload = not (is_production settings.environment);
}
