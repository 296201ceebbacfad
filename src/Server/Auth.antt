-- ===== src/Server/Auth.antt =====
-- The authentication of requests: apps/server/internal/api/auth.go. `AuthManager` is the state, and
-- each method returns the new state with its result. Times are nanoseconds since Go's zero time.
pub mod Secure
pub mod Request
pub mod Lockout
pub mod Sessions
pub mod Cleanup
pub mod Access
mod Tests
use dysonsphere.Common.{
  ℕ, ◌+◌, ◌-◌, ◌*◌, Bool, true, false, not, ◌&&◌, ◌||◌, Option, none, some, List, [], Text, text_eq,
  ltb, leb, if◌then◌else◌,
}
use dysonsphere.Common.Assoc.{Assoc, lookup, insert, remove, sweep}
use dysonsphere.Common.Strings.{codes, is_empty, strip_prefix, trim_space}
use Secure.{secure_equal, hex_encode}

abbrev pub second : ℕ
second = 1_000_000_000

abbrev pub session_ttl : ℕ
session_ttl = 24 * 3600 * second

abbrev pub login_max_attempts : ℕ
login_max_attempts = 5

abbrev pub login_lockout : ℕ
login_lockout = 5 * 60 * second

pub record SessionEntry : Type 0 where
  pub username : Text
  pub created_at : ℕ

pub record LoginAttempt : Type 0 where
  pub failures : ℕ
  pub locked_at : ℕ

-- The credential check of the interface `CredentialValidator` is an argument, absent for nil.
pub record AuthManager : Type 0 where
  pub legacy_agent_token : Text
  pub login_username : Text
  pub login_password : Text
  pub validator : Option (Text → Text → Bool)
  pub sessions : Assoc Text SessionEntry
  pub attempts : Assoc Text LoginAttempt

pub record LoginResponse : Type 0 where
  pub token : Text
  pub username : Text

unfoldable pub new_auth_manager : Text → Text → Text → Option (Text → Text → Bool) → AuthManager
new_auth_manager legacy username password validator = record {
  legacy_agent_token = legacy;
  login_username = username;
  login_password = password;
  validator = validator;
  sessions = [];
  attempts = [];
}

-- The lock of an attempt record holds at `now`.
abbrev pub is_locked : ℕ → LoginAttempt → Bool
is_locked now att = leb login_max_attempts att.failures && ltb (now - att.locked_at) login_lockout

unfoldable pub is_locked_out : AuthManager → ℕ → Text → AuthManager × Bool
is_locked_out a now ip = elim (lookup ip a.attempts) [
  | none ↦ (a, false)
  | some att ↦
      if leb login_max_attempts att.failures
      then if ltb (now - att.locked_at) login_lockout
        then (a, true)
        else (record a { attempts = remove ip a.attempts }, false)
      else (a, false)
]

-- A first failure starts from the zero value of the record.
abbrev pub attempt_or_new : Option LoginAttempt → LoginAttempt
attempt_or_new none = record { failures = 0; locked_at = 0 }
attempt_or_new (some att) = att

-- `failures++`, and the time of the lock when the limit is met.
abbrev pub failed_once : ℕ → LoginAttempt → LoginAttempt
failed_once now att = record {
  failures = att.failures + 1;
  locked_at = if leb login_max_attempts (att.failures + 1) then now else att.locked_at;
}

unfoldable pub record_failure : AuthManager → ℕ → Text → AuthManager
record_failure a now ip = record a {
  attempts = insert ip (failed_once now (attempt_or_new (lookup ip a.attempts))) a.attempts;
}

unfoldable pub clear_failures : AuthManager → Text → AuthManager
clear_failures a ip = record a { attempts = remove ip a.attempts }

-- The 32 bytes of `rand.Read`, or its error.
unfoldable pub new_session_token : Option Text → Option Text
new_session_token none = none
new_session_token (some bytes) = some (hex_encode bytes)

abbrev pub open_session : AuthManager → ℕ → Text → Option Text → AuthManager × Option LoginResponse
open_session a now username none = (a, none)
open_session a now username (some token) = (
  record a {
    sessions = insert token (record { username = username; created_at = now }) a.sessions;
  },
  some (record { token = token; username = username }),
)

abbrev pub check_credentials : AuthManager → Text → Text → Bool
check_credentials a username password =
    secure_equal username a.login_username && secure_equal password a.login_password

-- `Login`: the lockout is read at `now`, and what follows is written at `later`.
unfoldable pub login :
    AuthManager → ℕ → ℕ → Option Text → Text → Text → Text → AuthManager × Option LoginResponse
login a now later bytes ip username password =
    let (b, locked) = is_locked_out a now ip in
    if locked
    then (b, none)
    else if not (check_credentials b username password)
    then (record_failure b later ip, none)
    else open_session (clear_failures b ip) later username (new_session_token bytes)

unfoldable pub logout : AuthManager → Text → AuthManager
logout a token = if is_empty token then a else record a { sessions = remove token a.sessions }

-- A session of age at most `session_ttl`.
abbrev pub is_live : ℕ → SessionEntry → Bool
is_live now entry = not (ltb session_ttl (now - entry.created_at))

unfoldable pub is_session_token : AuthManager → ℕ → Text → AuthManager × Bool
is_session_token a now token = elim (lookup token a.sessions) [
  | none ↦ (a, false)
  | some entry ↦
      if ltb session_ttl (now - entry.created_at)
      then (record a { sessions = remove token a.sessions }, false)
      else (a, true)
]

-- `strings.HasPrefix`, then `TrimPrefix` and `TrimSpace`.
unfoldable pub bearer_token : Text → Text
bearer_token header = elim (strip_prefix (codes "Bearer ") header) [
  | none ↦ []
  | some rest ↦ trim_space rest
]

abbrev pub validates : Option (Text → Text → Bool) → Text → Text → Bool
validates none host_id token = false
validates (some validate) host_id token = validate host_id token

-- `APIAuthMiddleware`, on the headers `Authorization` and `X-Host-ID`: whether the request goes on to
-- the next handler, or is answered with 401.
unfoldable pub api_auth : AuthManager → ℕ → Text → Text → AuthManager × Bool
unfolding is_session_token
api_auth a now authorization host_id =
    let token = bearer_token authorization in
    if is_empty token
    then (a, false)
    else let (b, session) = is_session_token a now token in
      if session
      then (b, true)
      else if not (is_empty b.legacy_agent_token) && secure_equal token b.legacy_agent_token
      then (b, true)
      else (b, not (is_empty host_id) && validates b.validator host_id token)

abbrev session_expired : ℕ → Text → SessionEntry → Bool
session_expired now token entry = ltb session_ttl (now - entry.created_at)

abbrev attempt_stale : ℕ → Text → LoginAttempt → Bool
attempt_stale now ip att =
    leb login_max_attempts att.failures && leb login_lockout (now - att.locked_at)
    || ltb att.failures login_max_attempts && ltb login_lockout (now - att.locked_at)

-- One round of `cleanupLoop`.
unfoldable pub cleanup : AuthManager → ℕ → AuthManager
cleanup a now = record a {
  sessions = sweep (session_expired now) a.sessions;
  attempts = sweep (attempt_stale now) a.attempts;
}
