-- ===== src/Migrations/Start.antt =====
-- migrations/env.py: what Alembic is asked for when it starts the scripts.
--
-- `S` is the state of the process and of the databases, `E` an engine of SQLAlchemy and `C` a
-- connection. A `with` of Alembic or SQLAlchemy is a function of its body.
pub mod Outcome
pub mod Laws
mod Tests
use prd_api_wrapper.Prelude.{String, Bool, true, false, Option, none, some, List, if◌then◌else◌}
use prd_api_wrapper.Prelude.Dict.{Dict}
use prd_api_wrapper.Exec.{ok, Exec, ◌>>=◌, ◌>>◌}
use prd_api_wrapper.Config.{Settings, postgresql_uri}
use prd_api_wrapper.Migrations.Classes.{Model, classes}

-- What `context.configure` is called with; what is not given is `none`.
pub record Configuration (C : Type 0) : Type 0 where
  pub url : Option String
  pub connection : Option C
  pub target_metadata : List Model
  pub literal_binds : Option Bool
  pub paramstyle : Option String

-- `get_section` is that of the main section, and `async_engine_from_config` reads the options that
-- start with `sqlalchemy.`, and pools no connection. `connect` opens a connection for its body.
pub record Alembic (S E C : Type 0) : Type 0 where
  pub config_file_name : Option String
  pub file_config : String → Exec S (Unit {0})
  pub set_main_option : String → String → Exec S (Unit {0})
  pub get_main_option : String → Exec S (Option String)
  pub get_section : Exec S (Dict String)
  pub async_engine_from_config : Dict String → Exec S E
  pub connect : E → (C → Exec S (Unit {0})) → Exec S (Unit {0})
  pub dispose : E → Exec S (Unit {0})
  pub configure : Configuration C → Exec S (Unit {0})
  pub begin_transaction : Exec S (Unit {0}) → Exec S (Unit {0})
  pub run_migrations : Exec S (Unit {0})
  pub is_offline_mode : Bool

module _ {S E C : Type 0} (alembic : Alembic S E C) where
  abbrev pub offline : Option String → Configuration C
  offline url = record {
    url = url;
    connection = none;
    target_metadata = classes;
    literal_binds = some true;
    paramstyle = some "named";
  }

  abbrev pub online : C → Configuration C
  online connection = record {
    url = none;
    connection = some connection;
    target_metadata = classes;
    literal_binds = none;
    paramstyle = none;
  }

  unfoldable pub run_migrations_offline : Exec S (Unit {0})
  run_migrations_offline = do
    url ← alembic.get_main_option "sqlalchemy.url"
    alembic.configure (offline url)
    alembic.begin_transaction alembic.run_migrations

  unfoldable pub do_run_migrations : C → Exec S (Unit {0})
  do_run_migrations connection =
      alembic.configure (online connection) >> alembic.begin_transaction alembic.run_migrations

  unfoldable pub run_async_migrations : Exec S (Unit {0})
  unfolding do_run_migrations
  run_async_migrations = do
    section ← alembic.get_section
    connectable ← alembic.async_engine_from_config section
    alembic.connect connectable do_run_migrations
    alembic.dispose connectable

  -- `run_migrations_online`, in an event loop of its own.
  abbrev pub run_migrations_online : Exec S (Unit {0})
  run_migrations_online = run_async_migrations

  abbrev pub read_file : Option String → Exec S (Unit {0})
  read_file none s = (ok tt, s)
  read_file (some name) s = alembic.file_config name s

  abbrev pub run_in_mode : Exec S (Unit {0})
  run_in_mode s =
      if alembic.is_offline_mode then run_migrations_offline s else run_migrations_online s

  -- The module, when Alembic loads it.
  unfoldable pub start : Settings → Exec S (Unit {0})
  unfolding run_migrations_offline run_async_migrations
  start settings = do
    read_file alembic.config_file_name
    alembic.set_main_option "sqlalchemy.url" (postgresql_uri settings)
    run_in_mode
