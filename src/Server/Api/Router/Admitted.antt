-- ===== src/Server/Api/Router/Admitted.antt =====
-- An agent that has enrolled is let in: `Enroll` of apps/server/internal/service/agent.go, and then
-- the middleware of apps/server/internal/api/router.go.
use dysonsphere.Common.{◌≡◌, refl, ◌∙◌, true, false, none, some, [], ◌∷◌, Text, text_eq, arith}
use dysonsphere.Common.Strings.{is_empty}
use dysonsphere.Common.Strings.Fields.{IsSolid}
use dysonsphere.Server.Domain.{Host}
use dysonsphere.Server.Auth.Access.{bearer, bearer_token-bearer, hex_encode-IsSolid}
use dysonsphere.Server.Store.{Env, ok}
use dysonsphere.Server.Store.Query.{tick}
use dysonsphere.Server.Repository.CredentialRepo.Contract.{OnePerHost}
use dysonsphere.Server.Service.AgentService.{
  EnrollmentResult, hash_token, enroll, validate_credential,
}
use dysonsphere.Server.Api.Router.{Endpoint, Settings, Site, handle, guarded, serve}
use dysonsphere.Server.Api.Router.Guarded.{is_entitled, guarded_exactly}
use dysonsphere.Server.Enrollment.Stored.{
  DrawsBytes, hex_encode-empty, stored_uuid, enroll-Stored, Stored-validates,
}

uuid_named :
    (env : Env) (id uuid : Text)
    → env.pg_uuid [] ≡ none
    → env.pg_uuid id ≡ some uuid
    → is_empty id ≡ false
uuid_named env [] uuid no_uuid u = ground arith
uuid_named env (c ∷ id) uuid no_uuid u = refl

pub drawn-nonempty :
    (env : Env) (static_token token : Text) (h : Host) (x : EnrollmentResult) (site : Site)
    → DrawsBytes env
    → (enroll env static_token token h site.db).0 ≡ ok x
    → is_empty x.agent_token ≡ false
drawn-nonempty env static_token token h x site bytes accepted =
    let st = enroll-Stored env static_token token h site.db x accepted in
    let (n, b, p, q) = st.drawn in rw q (hex_encode-empty b ∙ (bytes n b p).1)

-- After an enrollment that succeeded, a request with the credential that it returned and the id of
-- its host is answered by its handler, whatever the endpoint is, on the tables that the enrollment
-- left: for a table with at most one credential of a host, a source of random bytes that draws bytes
-- and draws some, a driver to which the empty text is no UUID, and a check of the credential whose
-- statement does not fail.
pub enrolled_admitted :
    (env : Env) (s : Settings) (static_token token : Text) (h : Host) (x : EnrollmentResult)
    (e : Endpoint) (site : Site)
    → OnePerHost site.db.credentials
    → DrawsBytes env
    → env.pg_uuid [] ≡ none
    → (enroll env static_token token h site.db).0 ≡ ok x
    → let db = (enroll env static_token token h site.db).1 in
      env.fails db.steps ≡ false
      → let r =
          serve env s (guarded (bearer x.agent_token) x.host.id e) (record site { db = db }) in
        ((r.0, r.1.db) ≡ handle env s x.host.id e (tick db))
enrolled_admitted env s static_token token h x e site one bytes no_uuid accepted up =
    let st = enroll-Stored env static_token token h site.db x accepted in
    let (n, b, p, q) = st.drawn in
    let db = (enroll env static_token token h site.db).1 in
    let solid : IsSolid x.agent_token = rw q (hex_encode-IsSolid b (bytes n b p).0) in
    let read = bearer_token-bearer x.agent_token solid in
    let nonempty = drawn-nonempty env static_token token h x site bytes accepted in
    let valid : (validate_credential env x.host.id x.agent_token db).0 ≡ true =
      Stored-validates env site.db.credentials x db st one up in
    let named : is_empty x.host.id ≡ false =
      uuid_named env x.host.id _ no_uuid
        (stored_uuid env x.host.id (hash_token env x.agent_token) st.before st.done).1 in
    let entitled : is_entitled env (record site { db = db }) (bearer x.agent_token) x.host.id
        ≡ true =
      ground (arith, read, nonempty, valid, named) in
    guarded_exactly env s (bearer x.agent_token) x.host.id e (record site { db = db })
    ∙ rw entitled refl
