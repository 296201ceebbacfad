-- ===== src/Server/Api/Router/Guarded.antt =====
-- Who is answered what: the authentication of requests, of apps/server/internal/api/router.go.
use dysonsphere.Common.{
  ◌≡◌, refl, Bool, not, ◌&&◌, ◌||◌, Bool-cases, inl, inr, Text, text_eq, if◌then◌else◌,
}
use dysonsphere.Common.Strings.{codes, is_empty}
use dysonsphere.Common.Assoc.{lookup}
use dysonsphere.Server.Auth.{bearer_token}
use dysonsphere.Server.Auth.Secure.{secure_equal}
use dysonsphere.Server.Auth.Access.{live_entry, access_rule}
use dysonsphere.Server.Store.{Env}
use dysonsphere.Server.Store.Query.{tick}
use dysonsphere.Server.Service.AgentService
use dysonsphere.Server.Api.Wire.{write_error}
use dysonsphere.Server.Api.Router.{
  Endpoint, Settings, Site, handle, with_validator, authenticated, guarded, serve,
}

-- What a request shows of itself: a live session, the legacy token, or a credential of its host.
abbrev pub is_entitled : Env → Site → Text → Text → Bool
is_entitled env site authorization host_id =
    let token = bearer_token authorization in
    not (is_empty token)
    && (live_entry (env.now site.db.steps) (lookup token site.auth.sessions)
        || not (is_empty site.auth.legacy_agent_token)
          && secure_equal token site.auth.legacy_agent_token
        || not (is_empty host_id) && (AgentService.validate_credential env host_id token site.db).0)

-- A request behind the middleware is answered by its handler, on the tables as they are, if its token
-- is a live session, the legacy token or a credential of the host that it names; otherwise it is
-- answered with 401, and no table changes.
pub guarded_exactly :
    (env : Env) (s : Settings) (authorization host_id : Text) (e : Endpoint) (site : Site)
    → let r = serve env s (guarded authorization host_id e) site in
      ((r.0, r.1.db) ≡ (
        if is_entitled env site authorization host_id
        then handle env s host_id e (tick site.db)
        else (write_error 401 (codes "invalid or missing token"), tick site.db)))
unfolding serve authenticated
guarded_exactly env s authorization host_id e site =
    let rule =
      access_rule (with_validator env site) (env.now site.db.steps) authorization host_id in
    elim (Bool-cases (is_entitled env site authorization host_id)) [
      | inl entitled ↦ rw (rule, entitled) refl
      | inr stranger ↦ rw (rule, stranger) refl
    ]
