-- ===== src/Server/Auth/Sessions/Expiry.antt =====
-- From login to expiry or logout, seen through the middleware:
-- apps/server/internal/api/auth.go.
use dysonsphere.Common.{
  ℕ, ◌<◌, ◌≡◌, ◌≢◌, refl, ◌∙◌, true, false, Option, none, some, List, [], ◌∷◌, arith, length, All,
  Text, text_eq, text_beq_refl,
}
use dysonsphere.Common.Assoc.{lookup, lookup-insert, lookup-remove, lookup-sweep}
use dysonsphere.Common.Strings.{is_empty}
use dysonsphere.Server.Auth.{
  AuthManager, SessionEntry, LoginResponse, is_live, login, logout, api_auth, is_session_token,
  cleanup, is_locked_out, clear_failures, new_session_token, open_session, bearer_token,
}
use dysonsphere.Server.Auth.Secure.{hex_encode}
use dysonsphere.Server.Auth.Access.{access_rule, bearer, bearer_token-bearer, hex_encode-IsSolid}
use dysonsphere.Server.Auth.Request.{
  Attempt, Request, login_from, logout_of, access, cleanup_at, step, run,
}
use dysonsphere.Common.Strings.Fields.{IsSolid}
use dysonsphere.Server.Auth.Sessions.{Holds, Calm, run-Holds, login-sessions}

abbrev pub entry_of : Attempt → SessionEntry
entry_of t = record { username = t.username; created_at = t.later }

open_session_result :
    (a : AuthManager) (now : ℕ) (username : Text) (drawn : Option Text) (resp : LoginResponse)
    → (open_session a now username drawn).1 ≡ some resp
    → (drawn ≡ some resp.token)
      × (lookup resp.token (open_session a now username drawn).0.sessions
          ≡ some (record { username = username; created_at = now }))
open_session_result a now username none resp h = cc
open_session_result a now username (some token) resp h =
    let e : token ≡ resp.token = ground arith in
    (cc, rw lookup-insert (rw e (rw (text_beq_refl resp.token))))

login_result :
    (a : AuthManager) (ip : Text) (t : Attempt) (resp : LoginResponse)
    → (login a t.now t.later t.bytes ip t.username t.password).1 ≡ some resp
    → (new_session_token t.bytes ≡ some resp.token)
      × Holds resp.token (entry_of t) (login a t.now t.later t.bytes ip t.username t.password).0
unfolding login
login_result a ip t resp h =
    let b = clear_failures (is_locked_out a t.now ip).0 ip in
    ground (arith, open_session_result b t.later t.username (new_session_token t.bytes) resp)

token-IsSolid :
    (bytes token : Text)
    → 0 < length bytes
    → All (λ b. b < 256) bytes
    → new_session_token (some bytes) ≡ some token
    → IsSolid token × (is_empty token ≡ false)
unfolding new_session_token
token-IsSolid (b ∷ bytes) token n h e =
    let same : hex_encode (b ∷ bytes) ≡ token = ground arith in
    rw (← same) (hex_encode-IsSolid (b ∷ bytes) h, unfold hex_encode in refl)
token-IsSolid [] token n h e = absurd (omega arith)

-- A login that succeeds at a time T with random bytes opens a session: after any requests that
-- neither log it out nor draw its token again, each reading the state at T + 24 hours at the latest,
-- a request at such a time that bears the token is let through, whatever host it names.
pub session_until_expiry :
    (a : AuthManager) (ip : Text) (t : Attempt) (bytes : Text) (resp : LoginResponse)
    (rs : List Request) (now : ℕ) (host_id : Text)
    → t.bytes ≡ some bytes
    → 0 < length bytes
    → All (λ b. b < 256) bytes
    → (login a t.now t.later t.bytes ip t.username t.password).1 ≡ some resp
    → Calm resp.token (entry_of t) rs
    → is_live now (entry_of t) ≡ true
    → let b = (login a t.now t.later t.bytes ip t.username t.password).0 in
      (api_auth (run b rs) now (bearer resp.token) host_id).1 ≡ true
session_until_expiry a ip t bytes resp rs now host_id e n small h c live =
    let r = login_result a ip t resp h in
    let k =
      run-Holds resp.token (entry_of t) (login a t.now t.later t.bytes ip t.username t.password).0
        rs c r.1 in
    let solid = token-IsSolid bytes resp.token n small (rw e at r.0) in
    rw access_rule (rw (bearer_token-bearer resp.token solid.0) (rw (solid.1, k, live)))

-- A login does not draw the token.
abbrev pub Undrawn : Text → Request → Type 0
Undrawn token (login_from ip t) = new_session_token t.bytes ≢ some token
Undrawn token _ = Unit

step-none :
    (a : AuthManager) (token : Text) (r : Request)
    → Undrawn token r
    → lookup token a.sessions ≡ none
    → lookup token (step a r).sessions ≡ none
unfolding step
step-none a token (login_from ip t) s h = login-sessions a token ip t s ∙ h
step-none a token (logout_of other) s h =
    unfold logout in ground (arith, lookup-remove other token a.sessions)
step-none a token (access now authorization host_id) s h =
    unfold api_auth is_session_token in
    ground (arith, lookup-remove (bearer_token authorization) token a.sessions)
step-none a token (cleanup_at now) s h = unfold cleanup in rw lookup-sweep (rw h)

run-none :
    (a : AuthManager) (token : Text) (rs : List Request)
    → All (Undrawn token) rs
    → lookup token a.sessions ≡ none
    → lookup token (run a rs).sessions ≡ none
unfolding run
run-none a token [] u h = h
run-none a token (r ∷ rs) u h = run-none (step a r) token rs u.1 (step-none a token r u.0 h)

no_session :
    (a : AuthManager) (now : ℕ) (token : Text)
    → lookup token a.sessions ≡ none
    → (is_session_token a now token).1 ≡ false
unfolding is_session_token
no_session a now token h = ground arith

expired_use :
    (a : AuthManager) (now : ℕ) (token : Text) (entry : SessionEntry)
    → lookup token a.sessions ≡ some entry
    → is_live now entry ≡ false
    → ((is_session_token a now token).1 ≡ false)
      × (lookup token (is_session_token a now token).0.sessions ≡ none)
unfolding is_session_token
expired_use a now token entry h dead =
    (ground arith, ground (arith, lookup-remove token token a.sessions, text_beq_refl token))

-- A token that was logged out is no session again, whatever requests follow, unless a later login
-- draws it.
pub logout_revokes :
    (a : AuthManager) (token : Text) (rs : List Request) (now : ℕ)
    → is_empty token ≡ false
    → All (Undrawn token) rs
    → (is_session_token (run (logout a token) rs) now token).1 ≡ false
logout_revokes a token rs now h u = no_session (run (logout a token) rs) now token (
    run-none (logout a token) token rs u
      (unfold logout in rw h (rw lookup-remove (rw (text_beq_refl token)))))

-- A session older than 24 hours is refused at its first use, and from then on at any time, also at an
-- earlier one, unless a later login draws its token.
pub expiry_revokes :
    (a : AuthManager) (token : Text) (entry : SessionEntry) (now : ℕ) (rs : List Request)
    (later : ℕ)
    → lookup token a.sessions ≡ some entry
    → is_live now entry ≡ false
    → All (Undrawn token) rs
    → ((is_session_token a now token).1 ≡ false)
      × ((is_session_token (run (is_session_token a now token).0 rs) later token).1 ≡ false)
expiry_revokes a token entry now rs later h dead u =
    let first = expired_use a now token entry h dead in
    (
      first.0,
      no_session (run (is_session_token a now token).0 rs) later token
          (run-none (is_session_token a now token).0 token rs u first.1),
    )
