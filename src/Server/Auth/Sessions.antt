-- ===== src/Server/Auth/Sessions.antt =====
-- The life of a dashboard session, from `Login` to its expiry or `Logout`:
-- apps/server/internal/api/auth.go.
pub mod Expiry
use dysonsphere.Common.{
  ℕ, zero, suc, ◌+◌, ◌-◌, ◌*◌, ◌≤◌, ◌<◌, ◌≡◌, ◌≢◌, refl, ap, ◌∙◌, inl, inr, Bool, true, false,
  Option, none, some, List, [], ◌∷◌, arith, ltb, leb, Bool-cases, Option-cases, length, All, Text,
  text_eq, text_beq_iff, text_beq_refl, text_beq, if◌then◌else◌, not, ◌&&◌, ◌||◌,
}
use dysonsphere.Common.Assoc.{lookup, lookup-insert, lookup-remove, lookup-sweep}
use dysonsphere.Common.Strings.{codes, is_empty}
use dysonsphere.Server.Auth.{
  AuthManager, SessionEntry, LoginResponse, session_ttl, is_live, login, logout, api_auth,
  is_session_token, cleanup, is_locked_out, record_failure, clear_failures, new_session_token,
  open_session, check_credentials, bearer_token,
}
use dysonsphere.Server.Auth.Secure.{hex_encode, length-hex_encode}
use dysonsphere.Server.Auth.Access.{
  live_entry, access_rule, bearer, bearer_token-bearer, hex_encode-IsSolid,
}
use dysonsphere.Server.Auth.Request.{
  Attempt, Request, login_from, logout_of, access, cleanup_at, step, run, read_at,
}

-- The requests that leave the session of a token alone: no logout of it, and no login that draws the
-- same token again.
abbrev pub Spares : Text → Request → Type 0
Spares token (login_from ip t) = new_session_token t.bytes ≢ some token
Spares token (logout_of other) = text_beq other token ≡ false
Spares token (access now authorization host_id) = Unit
Spares token (cleanup_at now) = Unit

module _ (a : AuthManager) (token : Text) where
  open_session-sessions :
      (now : ℕ) (username : Text) (drawn : Option Text)
      → drawn ≢ some token
      → lookup token (open_session a now username drawn).0.sessions ≡ lookup token a.sessions
  open_session-sessions now username none h = refl
  open_session-sessions now username (some other) h =
      rw lookup-insert (ground (arith, text_beq_iff other token))

  is_locked_out-sessions : (now : ℕ) (ip : Text) → (is_locked_out a now ip).0.sessions ≡ a.sessions
  unfolding is_locked_out
  is_locked_out-sessions now ip = ground arith

pub login-sessions :
    (a : AuthManager) (token ip : Text) (t : Attempt)
    → new_session_token t.bytes ≢ some token
    → lookup token (login a t.now t.later t.bytes ip t.username t.password).0.sessions
      ≡ lookup token a.sessions
unfolding login record_failure clear_failures
login-sessions a token ip t h =
    let b = (is_locked_out a t.now ip).0 in
    ground (
      arith,
      is_locked_out-sessions a token t.now ip,
      open_session-sessions (clear_failures b ip) token t.later t.username
          (new_session_token t.bytes) h,
    )

module _ (token : Text) (entry : SessionEntry) where
  -- The session is there.
  abbrev pub Holds : AuthManager → Type 0
  Holds a = lookup token a.sessions ≡ some entry

  access-Holds :
      (a : AuthManager) (now : ℕ) (authorization host_id : Text)
      → is_live now entry ≡ true
      → Holds a
      → Holds (api_auth a now authorization host_id).0
  unfolding api_auth is_session_token
  access-Holds a now authorization host_id live h = ground (
    arith,
    lookup-remove (bearer_token authorization) token a.sessions,
    text_beq_iff (bearer_token authorization) token,
  )

  step-Holds :
      (a : AuthManager) (r : Request)
      → Spares token r
      → is_live (read_at r) entry ≡ true
      → Holds a
      → Holds (step a r)
  unfolding step
  step-Holds a (login_from ip t) s live h = login-sessions a token ip t s ∙ h
  step-Holds a (logout_of other) s live h =
      unfold logout in ground (arith, lookup-remove other token a.sessions)
  step-Holds a (access now authorization host_id) s live h =
      access-Holds a now authorization host_id live h
  step-Holds a (cleanup_at now) s live h = unfold cleanup in rw lookup-sweep (rw h (ground arith))

  -- The requests of a list spare the session, and read the state while it is live.
  abbrev pub Calm : List Request → Type 0
  Calm = All (λ r. Spares token r × (is_live (read_at r) entry ≡ true))

  pub run-Holds : (a : AuthManager) (rs : List Request) → Calm rs → Holds a → Holds (run a rs)
  unfolding run
  run-Holds a [] c h = h
  run-Holds a (r ∷ rs) c h = run-Holds (step a r) rs c.1 (step-Holds a r c.0.0 c.0.1 h)
