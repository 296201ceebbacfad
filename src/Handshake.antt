-- ===== src/Handshake.antt =====
-- An agent and the server: the client of apps/agent/internal/client/client.go, with the credential that
-- apps/server/internal/service/agent.go issued, before the middleware of
-- apps/server/internal/api/router.go.
mod Tests
use dysonsphere.Common.{◌≡◌, ◌∙◌, false, none, [], List, ◌∷◌, Text}
use dysonsphere.Server.Domain.{Host}
use dysonsphere.Server.Store.{Env, ok}
use dysonsphere.Server.Store.Query.{tick}
use dysonsphere.Server.Repository.CredentialRepo.Contract.{OnePerHost}
use dysonsphere.Server.Service.AgentService.{EnrollmentResult, enroll}
use dysonsphere.Server.Enrollment.Stored.{DrawsBytes}
use dysonsphere.Server.Api.Router.{Endpoint, Settings, Site, handle, guarded, serve}
use dysonsphere.Server.Api.Router.Admitted.{drawn-nonempty, enrolled_admitted}
use dysonsphere.Agent.Client.{HttpRequest, Transport, new_client}
use dysonsphere.Agent.Client.Signed.{
  ClientOp, perform, Signed, perform-Signed, authorization-bearer,
}

-- After an enrollment that succeeded, every request that a client with the credential and the host id
-- of the answer sends is answered by its handler, whatever the endpoint is, on the tables that the
-- enrollment left: for a table with at most one credential of a host, a source of random bytes that
-- draws bytes and draws some, a driver to which the empty text is no UUID, and a check of the
-- credential whose statement does not fail.
pub client_admitted :
    (env : Env) (s : Settings) (static_token token : Text) (h : Host) (x : EnrollmentResult)
    (t : Transport) (url : Text) (op : ClientOp) (sent : List HttpRequest) (q : HttpRequest)
    (e : Endpoint) (site : Site)
    → OnePerHost site.db.credentials
    → DrawsBytes env
    → env.pg_uuid [] ≡ none
    → (enroll env static_token token h site.db).0 ≡ ok x
    → let db = (enroll env static_token token h site.db).1 in
      env.fails db.steps ≡ false
      → perform t (new_client url x.agent_token x.host.id) op sent ≡ q ∷ sent
      → let r = serve env s (guarded q.authorization q.host_id e) (record site { db = db }) in
        ((r.0, r.1.db) ≡ handle env s x.host.id e (tick db))
client_admitted env s static_token token h x t url op sent q e site one bytes no_uuid accepted up
      new =
    let c = new_client url x.agent_token x.host.id in
    let (header, named) = (perform-Signed t c op sent).headers q new in
    let nonempty = drawn-nonempty env static_token token h x site bytes accepted in
    rw (header ∙ authorization-bearer c nonempty, named)
      (enrolled_admitted env s static_token token h x e site one bytes no_uuid accepted up)
