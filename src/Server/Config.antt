-- ===== src/Server/Config.antt =====
-- The configuration of the server: apps/server/internal/config/config.go. The environment is given by
-- os.Getenv, which is empty for a variable that is not set.
pub mod Defaults
use dysonsphere.Common.{ℕ, Bool, true, false, Text, if◌then◌else◌}
use dysonsphere.Common.Strings.{codes, is_empty}
use dysonsphere.Server.Api.Query.{ℤ, pos, atoi}

pub record ServerConfig : Type 0 where
  pub host : Text
  pub port : ℤ
  pub token : Text
  pub enrollment_token : Text
  pub public_url : Text
  pub login_username : Text
  pub login_password : Text

pub record DatabaseConfig : Type 0 where
  pub host : Text
  pub port : ℤ
  pub user : Text
  pub password : Text
  pub db_name : Text
  pub ssl_mode : Text

pub record Config : Type 0 where
  pub server : ServerConfig
  pub database : DatabaseConfig

-- The variable that must be set.
pub data Loaded : Type 0 where
  unset : Text → Loaded
  loaded : Config → Loaded

module _ (env : Text → Text) where
  unfoldable pub getenv : Text → Text → Text
  getenv key fallback = if is_empty (env key) then fallback else env key

  abbrev parsed : ℤ × Bool → ℤ → ℤ
  parsed (i, fine) fallback = if fine then i else fallback

  unfoldable pub getenv_int : Text → ℤ → ℤ
  getenv_int key fallback =
      if is_empty (env key) then fallback else parsed (atoi (env key)) fallback

  abbrev pub read_config : Config
  read_config = record {
    server = record {
      host = getenv (codes "SERVER_HOST") (codes "0.0.0.0");
      port = getenv_int (codes "SERVER_PORT") (pos 8000);
      token = getenv (codes "SERVER_TOKEN") (codes "dev-token");
      enrollment_token = getenv (codes "SERVER_ENROLLMENT_TOKEN") (codes "enroll-dev-token");
      public_url = getenv (codes "SERVER_PUBLIC_URL") (codes "");
      login_username = getenv (codes "SERVER_LOGIN_USERNAME") (codes "admin");
      login_password = getenv (codes "SERVER_LOGIN_PASSWORD") (codes "admin");
    };
    database = record {
      host = getenv (codes "POSTGRES_HOST") (codes "localhost");
      port = getenv_int (codes "POSTGRES_PORT") (pos 5432);
      user = getenv (codes "POSTGRES_USER") (codes "observer");
      password = getenv (codes "POSTGRES_PASSWORD") (codes "observer_secret");
      db_name = getenv (codes "POSTGRES_DB") (codes "observer");
      ssl_mode = getenv (codes "POSTGRES_SSLMODE") (codes "disable");
    };
  }

  -- The tests on the configuration that was read.
  unfoldable pub checked : Config → Loaded
  checked cfg =
      if is_empty cfg.server.token
      then unset (codes "SERVER_TOKEN")
      else if is_empty cfg.server.enrollment_token
      then unset (codes "SERVER_ENROLLMENT_TOKEN")
      else if is_empty cfg.server.login_username
      then unset (codes "SERVER_LOGIN_USERNAME")
      else if is_empty cfg.server.login_password
      then unset (codes "SERVER_LOGIN_PASSWORD")
      else loaded cfg

  unfoldable pub load : Loaded
  unfolding checked
  load = checked read_config
