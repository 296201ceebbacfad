-- ===== src/Server/Auth/Lockout.antt =====
-- The lockout of an address after failed logins: `isLockedOut`, `recordFailure` and `clearFailures` of
-- apps/server/internal/api/auth.go.
pub mod Failures
use dysonsphere.Common.{
  ℕ, zero, suc, ◌+◌, ◌-◌, ◌≤◌, ◌<◌, ◌≡◌, ◌≢◌, refl, ap, ◌∙◌, inl, inr, Bool, true, false, Option,
  none, some, List, [], ◌∷◌, map, arith, ltb, leb, Bool-cases, Option-cases, length, All, Text,
  text_eq, text_beq_iff, text_beq, text_beq_refl, if◌then◌else◌,
}
use native.Mathlib.Nat.{add-zero, add-suc, suc-add}
use dysonsphere.Common.Assoc.{lookup, insert, remove, lookup-insert, lookup-remove, lookup-sweep}
use dysonsphere.Server.Auth.{
  AuthManager, LoginAttempt, LoginResponse, login_max_attempts, login_lockout, is_locked,
  is_locked_out, record_failure, clear_failures, check_credentials, login, logout, is_session_token,
  api_auth, cleanup, failed_once, attempt_or_new,
}
use dysonsphere.Server.Auth.Request.{
  Attempt, Request, login_from, logout_of, access, cleanup_at, step, run, read_at,
}

module _ (a : AuthManager) (now : ℕ) (ip : Text) (att : LoginAttempt) where
  is_locked_out_of_locked :
      lookup ip a.attempts ≡ some att
      → is_locked now att ≡ true
      → is_locked_out a now ip ≡ (a, true)
  unfolding is_locked_out
  is_locked_out_of_locked h k = ground arith

-- While the lock of an address holds, a login from it fails, whatever its credentials, and changes
-- nothing.
pub login_of_locked :
    (a : AuthManager) (ip : Text) (t : Attempt) (att : LoginAttempt)
    → lookup ip a.attempts ≡ some att
    → is_locked t.now att ≡ true
    → login a t.now t.later t.bytes ip t.username t.password ≡ (a, none)
unfolding login
login_of_locked a ip t att h k = ground (arith, is_locked_out_of_locked a t.now ip att h k)

-- The calls for one address leave the records of the others alone.
module _ (a : AuthManager) (now : ℕ) (from ip : Text) (other : text_beq from ip ≡ false) where
  is_locked_out_other : lookup ip (is_locked_out a now from).0.attempts ≡ lookup ip a.attempts
  unfolding is_locked_out
  is_locked_out_other = ground (arith, lookup-remove from ip a.attempts)

  record_failure_other : lookup ip (record_failure a now from).attempts ≡ lookup ip a.attempts
  unfolding record_failure
  record_failure_other = rw lookup-insert (rw other)

  clear_failures_other : lookup ip (clear_failures a from).attempts ≡ lookup ip a.attempts
  unfolding clear_failures
  clear_failures_other = rw lookup-remove (rw other)

login_other :
    (a : AuthManager) (from ip : Text) (t : Attempt)
    → text_beq from ip ≡ false
    → lookup ip (login a t.now t.later t.bytes from t.username t.password).0.attempts
      ≡ lookup ip a.attempts
unfolding login
login_other a from ip t other =
    let b = (is_locked_out a t.now from).0 in
    ground (
      arith,
      is_locked_out_other a t.now from ip other,
      record_failure_other b t.later from ip other,
      clear_failures_other b t.now from ip other,
    )

login-attempts :
    (a : AuthManager) (from ip : Text) (t : Attempt) (att : LoginAttempt)
    → lookup ip a.attempts ≡ some att
    → is_locked t.now att ≡ true
    → lookup ip (login a t.now t.later t.bytes from t.username t.password).0.attempts ≡ some att
login-attempts a from ip t att h k = elim (Bool-cases (text_beq from ip)) [
  | inl same ↦ rw ((text_beq_iff from ip).0 same) (rw (login_of_locked a ip t att h k) h)
  | inr other ↦ login_other a from ip t other ∙ h
]

cleanup-locked :
    (a : AuthManager) (now : ℕ) (ip : Text) (att : LoginAttempt)
    → lookup ip a.attempts ≡ some att
    → is_locked now att ≡ true
    → lookup ip (cleanup a now).attempts ≡ some att
unfolding cleanup
cleanup-locked a now ip att h k = rw lookup-sweep (rw h (ground arith))

-- The record of an address that met the limit is not touched while its lock holds.
step-attempts :
    (a : AuthManager) (ip : Text) (att : LoginAttempt) (r : Request)
    → lookup ip a.attempts ≡ some att
    → is_locked (read_at r) att ≡ true
    → lookup ip (step a r).attempts ≡ some att
unfolding step
step-attempts a ip att (login_from from t) h k = login-attempts a from ip t att h k
step-attempts a ip att (logout_of token) h k = unfold logout in ground arith
step-attempts a ip att (access now authorization host_id) h k =
    unfold api_auth is_session_token in ground arith
step-attempts a ip att (cleanup_at now) h k = cleanup-locked a now ip att h k

-- The requests of a list all read the state before a given time.
abbrev pub Before : ℕ → List Request → Type 0
Before limit = All (λ r. read_at r < limit)

pub locked_before :
    (now : ℕ) (att : LoginAttempt)
    → login_max_attempts ≤ att.failures
    → now < att.locked_at + login_lockout
    → is_locked now att ≡ true
locked_before now att h k = ground arith

pub run-attempts :
    (a : AuthManager) (ip : Text) (att : LoginAttempt) (rs : List Request)
    → lookup ip a.attempts ≡ some att
    → login_max_attempts ≤ att.failures
    → Before (att.locked_at + login_lockout) rs
    → lookup ip (run a rs).attempts ≡ some att
unfolding run
run-attempts a ip att [] h k b = h
run-attempts a ip att (r ∷ rs) h k b =
    run-attempts (step a r) ip att rs
      (step-attempts a ip att r h (locked_before (read_at r) att k b.0)) k b.1
