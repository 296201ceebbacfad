-- ===== src/Server/Start.antt =====
-- The start of the server: apps/server/cmd/server/main.go and apps/server/internal/db. The connection
-- and the migrations are run by third parties: whether they succeed is an argument.
use dysonsphere.Common.{
  Bool, true, false, none, List, [], ◌∷◌, ◌++◌, Text, text_eq, ◌==◌, if◌then◌else◌,
}
use dysonsphere.Common.Strings.{codes, is_empty}
use dysonsphere.Server.Store.{Env, Db}
use dysonsphere.Server.Alerting.{run_all}
use dysonsphere.Server.Api.Query.{ℤ}
use dysonsphere.Server.Api.Wire.{Formats, Response}
use dysonsphere.Server.Api.Router.{Settings, Site, Call, serve}
use dysonsphere.Server.Auth.{new_auth_manager}
use dysonsphere.Server.Config.{DatabaseConfig, Config, Loaded, unset, loaded, load}

module _ (show_int : ℤ → Text) where
  -- The connection string; no SSL mode stands for its absence.
  unfoldable pub dsn : DatabaseConfig → Text
  dsn c =
      codes "host="
      ++ (c.host
          ++ (codes " port="
              ++ (show_int c.port
                  ++ (codes " user="
                      ++ (c.user
                          ++ (codes " password="
                              ++ (c.password
                                  ++ (codes " dbname="
                                      ++ (c.db_name
                                          ++ (codes " sslmode="
                                              ++ (if is_empty c.ssl_mode
                                                  then codes "disable"
                                                  else c.ssl_mode)))))))))))

  -- The URL of the migrations.
  unfoldable pub pg_dsn : DatabaseConfig → Text
  pg_dsn c =
      codes "postgres://"
      ++ (c.user
          ++ (codes ":"
              ++ (c.password
                  ++ (codes "@"
                      ++ (c.host
                          ++ (codes ":"
                              ++ (show_int c.port
                                  ++ (codes "/"
                                      ++ (c.db_name ++ (codes "?sslmode=" ++ c.ssl_mode))))))))))

  unfoldable pub address : Config → Text
  address cfg = cfg.server.host ++ (codes ":" ++ show_int cfg.server.port)

pub data Failure : Type 0 where
  variable_unset : Text → Failure
  not_connected not_migrated : Failure
  unknown_direction : Text → Failure

pub data Started : Type 0 where
  failed : Failure → Started
  migrated : Started
  serving : Settings → Site → Started

unfoldable pub migrations_dir : (Text → Text) → Text
migrations_dir env =
    if is_empty (env (codes "MIGRATIONS_DIR"))
    then codes "./migrations"
    else env (codes "MIGRATIONS_DIR")

-- How a run of the migrations ended.
pub data Migration : Type 0 where
  not_opened changed no_change broken : Migration

-- What is run of the database's tools: a connection by its string, and the migrations of a source at a
-- URL, all upwards or the last one back; a connection that fails is false.
pub record Tools : Type 0 where
  pub connect : Text → Bool
  pub up : Text → Text → Migration
  pub step_back : Text → Text → Migration

-- That nothing is to be done is no error.
abbrev pub is_fine : Migration → Bool
is_fine not_opened = false
is_fine changed = true
is_fine no_change = true
is_fine broken = false

abbrev migration_ended : Bool → Started
migration_ended fine = if fine then migrated else failed not_migrated

abbrev source_of : Text → Text
source_of dir = codes "file://" ++ dir

unfoldable pub migrate_up : Tools → Text → Text → Bool
migrate_up tools url dir = is_fine (tools.up (source_of dir) url)

unfoldable pub migrate_down : Tools → Text → Text → Bool
migrate_down tools url dir = is_fine (tools.step_back (source_of dir) url)

module _ (tools : Tools) (show_int : ℤ → Text) where
  unfoldable pub run_migrate : Config → Text → Started
  run_migrate cfg direction =
      let url = pg_dsn show_int cfg.database in
      if direction == codes "up"
      then migration_ended (migrate_up tools url (codes "./migrations"))
      else if direction == codes "down"
      then migration_ended (migrate_down tools url (codes "./migrations"))
      else failed (unknown_direction direction)

  -- The settings and the manager that the configuration gives, over the tables; `serve` adds the
  -- validator of the agent service to the manager.
  abbrev pub wired : Formats → Config → Db → Started
  wired formats cfg db =
      serving
        (record {
          static_token = cfg.server.enrollment_token;
          public_url = cfg.server.public_url;
          formats = formats;
        })
        (record {
          auth =
              new_auth_manager cfg.server.token cfg.server.login_username cfg.server.login_password
                none;
          db = db;
        })

  unfoldable pub start_server : (Text → Text) → Formats → Config → Db → Started
  start_server env formats cfg db =
      if tools.connect (dsn show_int cfg.database)
      then if migrate_up tools (pg_dsn show_int cfg.database) (migrations_dir env)
        then wired formats cfg db
        else failed not_migrated
      else failed not_connected

  abbrev configured : (Text → Text) → List Text → Formats → Db → Loaded → Started
  configured env arguments formats db (unset name) = failed (variable_unset name)
  configured env (program ∷ command ∷ direction ∷ rest) formats db (loaded cfg) =
      if command == codes "migrate"
      then run_migrate cfg direction
      else start_server env formats cfg db
  configured env arguments formats db (loaded cfg) = start_server env formats cfg db

  -- `run`, up to the serving of requests, by the environment and the arguments of the command.
  unfoldable pub run : (Text → Text) → List Text → Formats → Db → Started
  run env arguments formats db = configured env arguments formats db (load env)

-- What a server that serves does: it answers a request, or a minute has passed and the alert rules are
-- run. The events are a sequence.
pub data Event : Type 0 where
  request : Call → Event
  minute : Event

abbrev pub on_event : Env → Settings → Event → Site → List Response × Site
on_event env s (request c) site = let (r, after) = serve env s c site in (r ∷ [], after)
on_event env s minute site = ([], record site { db = (run_all env site.db).1 })

unfoldable pub run_events : Env → Settings → List Event → Site → List Response × Site
run_events env s [] site = ([], site)
run_events env s (e ∷ events) site =
    let (answers, after) = on_event env s e site in
    let (later, final) = run_events env s events after in (answers ++ later, final)
