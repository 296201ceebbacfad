-- ===== src/Server/Config/Defaults.antt =====
-- The defaults of apps/server/internal/config/config.go.
use dysonsphere.Common.{◌≡◌, refl, false, Text, arith}
use dysonsphere.Common.Strings.{codes, is_empty}
use dysonsphere.Server.Config.{loaded, getenv, read_config, checked, load}

getenv_filled :
    (env : Text → Text) (key fallback : Text)
    → is_empty fallback ≡ false
    → is_empty (getenv env key fallback) ≡ false
unfolding getenv
getenv_filled env key fallback h = ground (arith, h)

-- Whatever the environment is, the configuration is loaded: none of the tests for a variable that must
-- be set fails, since each of them has a default.
pub load_never_fails : (env : Text → Text) → load env ≡ loaded (read_config env)
unfolding load checked
load_never_fails env =
    rw
      (
        getenv_filled env (codes "SERVER_TOKEN") (codes "dev-token") refl,
        getenv_filled env (codes "SERVER_ENROLLMENT_TOKEN") (codes "enroll-dev-token") refl,
        getenv_filled env (codes "SERVER_LOGIN_USERNAME") (codes "admin") refl,
        getenv_filled env (codes "SERVER_LOGIN_PASSWORD") (codes "admin") refl,
      )
      refl
