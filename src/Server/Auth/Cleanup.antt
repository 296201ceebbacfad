-- ===== src/Server/Auth/Cleanup.antt =====
-- What a round of `cleanupLoop` leaves, and the invariant of the attempt records that it relies on:
-- apps/server/internal/api/auth.go.
use dysonsphere.Common.{
  ℕ, ◌≤◌, ◌<◌, ◌≡◌, inl, inr, Bool, false, Option, none, some, List, [], ◌∷◌, arith, Bool-cases,
  Text, text_eq, text_beq_refl, if◌then◌else◌,
}
use dysonsphere.Common.Assoc.{lookup, lookup-insert, lookup-remove, lookup-sweep}
use dysonsphere.Server.Auth.{
  open_session, check_credentials, new_session_token, AuthManager, SessionEntry, LoginAttempt,
  login_max_attempts, login_lockout, is_locked, is_locked_out, record_failure, clear_failures,
  login, logout, is_session_token, api_auth, cleanup, attempt_or_new, new_auth_manager, is_live,
}
use dysonsphere.Server.Auth.Request.{
  Attempt, Request, login_from, logout_of, access, cleanup_at, step, run,
}

-- A record counts one to five failures, and has the time of a lock only with five.
abbrev pub AttemptOk : Option LoginAttempt → Type 0
AttemptOk none = Unit
AttemptOk (some att) =
    (0 < att.failures)
    × (att.failures ≤ login_max_attempts)
    × (att.failures < login_max_attempts → att.locked_at ≡ 0)

pub record IsValid (a : AuthManager) : Type 0 where
  pub attempts_ok : (ip : Text) → AttemptOk (lookup ip a.attempts)

is_locked_out-IsValid :
    (a : AuthManager) (now : ℕ) (ip : Text) → IsValid a → IsValid (is_locked_out a now ip).0
unfolding is_locked_out
is_locked_out-IsValid a now ip v = record {
  attempts_ok = λ j. ground (arith, lookup-remove ip j a.attempts, v.attempts_ok j);
}

-- Where `isLockedOut` answers no, fewer failures than the limit are left on record.
below_limit :
    (a : AuthManager) (now : ℕ) (ip : Text)
    → (is_locked_out a now ip).1 ≡ false
    → (attempt_or_new (lookup ip (is_locked_out a now ip).0.attempts)).failures < login_max_attempts
unfolding is_locked_out
below_limit a now ip h = ground (arith, lookup-remove ip ip a.attempts, text_beq_refl ip)

record_failure-IsValid :
    (a : AuthManager) (now : ℕ) (ip : Text)
    → (attempt_or_new (lookup ip a.attempts)).failures < login_max_attempts
    → IsValid a
    → IsValid (record_failure a now ip)
unfolding record_failure
record_failure-IsValid a now ip h v = record {
  attempts_ok = λ j. rw lookup-insert (ground (arith, v.attempts_ok j, v.attempts_ok ip));
}

clear_failures-IsValid : (a : AuthManager) (ip : Text) → IsValid a → IsValid (clear_failures a ip)
unfolding clear_failures
clear_failures-IsValid a ip v = record {
  attempts_ok = λ j. rw lookup-remove (ground (arith, v.attempts_ok j));
}

open_session-IsValid :
    (a : AuthManager) (now : ℕ) (username : Text) (token : Option Text)
    → IsValid a
    → IsValid (open_session a now username token).0
open_session-IsValid a now username none v = v
open_session-IsValid a now username (some token) v = record { attempts_ok = v.attempts_ok }

login-IsValid :
    (a : AuthManager) (ip : Text) (t : Attempt)
    → IsValid a
    → IsValid (login a t.now t.later t.bytes ip t.username t.password).0
unfolding login
login-IsValid a ip t v =
    let b = (is_locked_out a t.now ip).0 in
    let w = is_locked_out-IsValid a t.now ip v in
    elim (Bool-cases (is_locked_out a t.now ip).1) [
      | inl locked ↦ rw locked w
      | inr free ↦ rw free (elim (Bool-cases (check_credentials b t.username t.password)) [
        | inl right ↦ rw right (
            open_session-IsValid (clear_failures b ip) t.later t.username
              (new_session_token t.bytes) (clear_failures-IsValid b ip w))
        | inr wrong ↦ rw wrong (record_failure-IsValid b t.later ip (below_limit a t.now ip free) w)
      ])
    ]

cleanup-IsValid : (a : AuthManager) (now : ℕ) → IsValid a → IsValid (cleanup a now)
unfolding cleanup
cleanup-IsValid a now v = record {
  attempts_ok = λ j. rw lookup-sweep (ground (arith, v.attempts_ok j));
}

api_auth-attempts :
    (a : AuthManager) (now : ℕ) (authorization host_id : Text)
    → (api_auth a now authorization host_id).0.attempts ≡ a.attempts
unfolding api_auth is_session_token
api_auth-attempts a now authorization host_id = ground arith

logout-attempts : (a : AuthManager) (token : Text) → (logout a token).attempts ≡ a.attempts
unfolding logout
logout-attempts a token = ground arith

-- Every request keeps the records of failed logins valid.
pub step-IsValid : (a : AuthManager) (r : Request) → IsValid a → IsValid (step a r)
unfolding step
step-IsValid a (login_from ip t) v = login-IsValid a ip t v
step-IsValid a (logout_of token) v = record {
  attempts_ok = λ j. rw (logout-attempts a token) (v.attempts_ok j);
}
step-IsValid a (access now authorization host_id) v = record {
  attempts_ok = λ j. rw (api_auth-attempts a now authorization host_id) (v.attempts_ok j);
}
step-IsValid a (cleanup_at now) v = cleanup-IsValid a now v

pub run-IsValid : (a : AuthManager) (rs : List Request) → IsValid a → IsValid (run a rs)
unfolding run
run-IsValid a [] v = v
run-IsValid a (r ∷ rs) v = run-IsValid (step a r) rs (step-IsValid a r v)

pub new_auth_manager-IsValid :
    (legacy username password : Text) (validator : Option (Text → Text → Bool))
    → IsValid (new_auth_manager legacy username password validator)
unfolding new_auth_manager lookup
new_auth_manager-IsValid legacy username password validator = record { attempts_ok = λ ip. tt }

abbrev pub kept_session : ℕ → Option SessionEntry → Option SessionEntry
kept_session now none = none
kept_session now (some entry) = if is_live now entry then some entry else none

abbrev pub kept_attempt : ℕ → Option LoginAttempt → Option LoginAttempt
kept_attempt now none = none
kept_attempt now (some att) = if is_locked now att then some att else none

cleanup-sessions :
    (a : AuthManager) (now : ℕ) (token : Text)
    → lookup token (cleanup a now).sessions ≡ kept_session now (lookup token a.sessions)
unfolding cleanup
cleanup-sessions a now token = rw lookup-sweep (ground arith)

cleanup-attempts :
    (a : AuthManager) (now : ℕ) (ip : Text)
    → IsValid a
    → login_lockout < now
    → lookup ip (cleanup a now).attempts ≡ kept_attempt now (lookup ip a.attempts)
unfolding cleanup
cleanup-attempts a now ip v h = rw lookup-sweep (ground (arith, v.attempts_ok ip))

-- From a new manager and after any requests, a cleanup more than five minutes past the zero time
-- keeps of the sessions exactly those of age at most 24 hours, and of the failure records exactly
-- those whose lock still holds: the counts of fewer than five failures are all forgotten.
pub cleanup_keeps_live :
    (legacy username password : Text) (validator : Option (Text → Text → Bool)) (rs : List Request)
    (now : ℕ) (key : Text)
    → login_lockout < now
    → let a = run (new_auth_manager legacy username password validator) rs in
      (lookup key (cleanup a now).sessions ≡ kept_session now (lookup key a.sessions))
      × (lookup key (cleanup a now).attempts ≡ kept_attempt now (lookup key a.attempts))
cleanup_keeps_live legacy username password validator rs now key h =
    let start = new_auth_manager legacy username password validator in
    let v = run-IsValid start rs (new_auth_manager-IsValid legacy username password validator) in
    (cleanup-sessions (run start rs) now key, cleanup-attempts (run start rs) now key v h)
