-- ===== src/Server/Auth/Lockout/Failures.antt =====
-- Failed logins in a row lock an address: `recordFailure` and `Login` of
-- apps/server/internal/api/auth.go.
use dysonsphere.Common.{
  ℕ, suc, ◌+◌, ◌<◌, ◌≡◌, ap, inl, inr, false, Option, none, some, List, [], ◌∷◌, map, arith,
  Option-cases, length, All, Text, text_eq, text_beq_refl,
}
use native.Mathlib.Nat.{add-zero, add-suc, suc-add}
use dysonsphere.Common.Assoc.{lookup, lookup-insert}
use dysonsphere.Server.Auth.{
  AuthManager, LoginAttempt, LoginResponse, login_max_attempts, login_lockout, is_locked_out,
  record_failure, check_credentials, login, failed_once, attempt_or_new,
}
use dysonsphere.Server.Auth.Request.{Attempt, Request, login_from, step, run}
use dysonsphere.Server.Auth.Lockout.{login_of_locked, run-attempts, locked_before, Before}

-- Neither credential of a try is the manager's.
abbrev pub IsWrong : AuthManager → Attempt → Type 0
IsWrong a t = check_credentials a t.username t.password ≡ false

abbrev tally : ℕ → LoginAttempt
tally n = record { failures = n; locked_at = 0 }

-- A failed login of an address that is not locked counts one more failure.
failure_counted :
    (a : AuthManager) (ip : Text) (t : Attempt) (n : ℕ)
    → n < login_max_attempts
    → attempt_or_new (lookup ip a.attempts) ≡ tally n
    → IsWrong a t
    → login a t.now t.later t.bytes ip t.username t.password ≡ (record_failure a t.later ip, none)
unfolding login is_locked_out
failure_counted a ip t n h k w = elim (Option-cases (lookup ip a.attempts)) [
  | inl e ↦ ground arith
  | inr (att, e) ↦ ground arith
]

lookup-record_failure :
    (a : AuthManager) (now : ℕ) (ip : Text)
    → lookup ip (record_failure a now ip).attempts
      ≡ some (failed_once now (attempt_or_new (lookup ip a.attempts)))
unfolding record_failure
lookup-record_failure a now ip = rw lookup-insert (rw (text_beq_refl ip))

step_failed :
    (a : AuthManager) (ip : Text) (t : Attempt) (n : ℕ)
    → n < login_max_attempts
    → attempt_or_new (lookup ip a.attempts) ≡ tally n
    → IsWrong a t
    → step a (login_from ip t) ≡ record_failure a t.later ip
unfolding step
step_failed a ip t n h k w =
    ap (λ (r : AuthManager × Option LoginResponse). r.0) (failure_counted a ip t n h k w)

All-IsWrong :
    (a : AuthManager) (now : ℕ) (ip : Text) (ts : List Attempt)
    → All (IsWrong a) ts
    → All (IsWrong (record_failure a now ip)) ts
unfolding record_failure
All-IsWrong a now ip ts h = h

tally_next :
    (a : AuthManager) (now : ℕ) (ip : Text) (n : ℕ)
    → n + 1 < login_max_attempts
    → attempt_or_new (lookup ip a.attempts) ≡ tally n
    → attempt_or_new (lookup ip (record_failure a now ip).attempts) ≡ tally (suc n)
tally_next a now ip n h k = rw lookup-record_failure (rw k (ground arith))

failures_add :
    (a : AuthManager) (ip : Text) (n : ℕ) (tries : List Attempt)
    → n + length tries < login_max_attempts
    → attempt_or_new (lookup ip a.attempts) ≡ tally n
    → All (IsWrong a) tries
    → attempt_or_new (lookup ip (run a (map (login_from ip) tries)).attempts)
      ≡ tally (n + length tries)
unfolding run
failures_add a ip n [] h k w = rw add-zero k
failures_add a ip n (t ∷ ts) h k w =
    rw (step_failed a ip t n (omega arith) k w.0, run)
      (rw (add-suc, ← suc-add)
        (failures_add (record_failure a t.later ip) ip (suc n) ts (omega arith)
          (tally_next a t.later ip n (omega arith) k) (All-IsWrong a t.later ip ts w.1)))

run-IsWrong :
    (a : AuthManager) (ip : Text) (n : ℕ) (tries : List Attempt) (t : Attempt)
    → n + length tries < login_max_attempts
    → attempt_or_new (lookup ip a.attempts) ≡ tally n
    → All (IsWrong a) tries
    → IsWrong a t
    → IsWrong (run a (map (login_from ip) tries)) t
unfolding run
run-IsWrong a ip n [] t h k w l = l
run-IsWrong a ip n (u ∷ us) t h k w l =
    rw (step_failed a ip u n (omega arith) k w.0, run)
      (run-IsWrong (record_failure a u.later ip) ip (suc n) us t (omega arith)
        (tally_next a u.later ip n (omega arith) k) (All-IsWrong a u.later ip us w.1)
        (All-IsWrong a u.later ip (t ∷ []) (l, tt)).0)

abbrev pub locked_record : Attempt → LoginAttempt
locked_record t = record { failures = login_max_attempts; locked_at = t.later }

-- The fifth failure in a row locks the address.
lookup-run :
    (a : AuthManager) (ip : Text) (tries : List Attempt) (t : Attempt)
    → lookup ip a.attempts ≡ none
    → length tries + 1 ≡ login_max_attempts
    → All (IsWrong a) tries
    → IsWrong a t
    → lookup ip (step (run a (map (login_from ip) tries)) (login_from ip t)).attempts
      ≡ some (locked_record t)
lookup-run a ip tries t h n w l =
    let b = run a (map (login_from ip) tries) in
    let start : attempt_or_new (lookup ip a.attempts) ≡ tally 0 = rw h in
    let counted = failures_add a ip 0 tries (omega arith) start w in
    let wrong = run-IsWrong a ip 0 tries t (omega arith) start w l in
    rw (step_failed b ip t (0 + length tries) (omega arith) counted wrong)
      (rw lookup-record_failure (rw counted (ground arith)))

-- Five failed logins in a row from an address without a record, the last written at a time T, refuse
-- every later login from that address, also one with the right credentials, that reads the state
-- before T + 5 minutes, and whatever requests before that time were served in between.
pub lockout_after_failures :
    (a : AuthManager) (ip : Text) (tries : List Attempt) (last : Attempt) (rs : List Request)
    (t : Attempt)
    → lookup ip a.attempts ≡ none
    → length tries + 1 ≡ login_max_attempts
    → All (IsWrong a) tries
    → IsWrong a last
    → Before (last.later + login_lockout) rs
    → t.now < last.later + login_lockout
    → let b = run (step (run a (map (login_from ip) tries)) (login_from ip last)) rs in
      login b t.now t.later t.bytes ip t.username t.password ≡ (b, none)
lockout_after_failures a ip tries last rs t h n w l b k =
    login_of_locked _ ip t (locked_record last)
      (run-attempts _ ip (locked_record last) rs (lookup-run a ip tries last h n w l) (omega arith)
        b)
      (locked_before t.now (locked_record last) (omega arith) k)
