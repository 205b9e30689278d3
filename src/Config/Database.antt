-- ===== src/Config/Database.antt =====
-- src/databases/session.py: what the engine and the factory of sessions are built with.
use prd_api_wrapper.Prelude.{String, Bool, true, false}
use prd_api_wrapper.Config.Values.{Settings, postgresql_uri}

pub record Engine : Type 0 where
  pub url : String
  pub echo : Bool
  pub pool_pre_ping : Bool
  pub search_path : String

pub record SessionFactory : Type 0 where
  pub engine : Engine
  pub expire_on_commit : Bool

unfoldable pub create_database_engine : Settings → Engine
unfolding postgresql_uri
create_database_engine settings = record {
  url = postgresql_uri settings;
  echo = settings.postgresql_echo;
  pool_pre_ping = true;
  search_path = settings.postgresql_schema;
}

unfoldable pub create_session_factory : Engine → SessionFactory
create_session_factory engine = record { engine = engine; expire_on_commit = false }
