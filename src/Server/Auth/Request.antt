-- ===== src/Server/Auth/Request.antt =====
-- The calls that reach an `AuthManager` of apps/server/internal/api/auth.go, one after the other: the
-- handlers of a request, and the rounds of `cleanupLoop`. Each call holds its locks for its changes.
use dysonsphere.Common.{ℕ, Option, List, [], ◌∷◌, Text}
use dysonsphere.Server.Auth.{AuthManager, login, logout, api_auth, cleanup}

pub record Attempt : Type 0 where
  pub now : ℕ
  pub later : ℕ
  pub bytes : Option Text
  pub username : Text
  pub password : Text

pub data Request : Type 0 where
  login_from : Text → Attempt → Request
  logout_of : Text → Request
  access : ℕ → Text → Text → Request
  cleanup_at : ℕ → Request

unfoldable pub step : AuthManager → Request → AuthManager
step a (login_from ip t) = (login a t.now t.later t.bytes ip t.username t.password).0
step a (logout_of token) = logout a token
step a (access now authorization host_id) = (api_auth a now authorization host_id).0
step a (cleanup_at now) = cleanup a now

unfoldable pub run : AuthManager → List Request → AuthManager
run a [] = a
run a (r ∷ rs) = run (step a r) rs

-- The time at which a request reads the state, and the last time that it writes.
abbrev pub read_at : Request → ℕ
read_at (login_from ip t) = t.now
read_at (logout_of token) = 0
read_at (access now authorization host_id) = now
read_at (cleanup_at now) = now
