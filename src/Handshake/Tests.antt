-- ===== src/Handshake/Tests.antt =====
-- A run of an agent against a small server.
use dysonsphere.Common.{◌≡◌, refl, true, none, some, [], ◌∷◌, arith}
use dysonsphere.Common.Strings.{codes}
use dysonsphere.Server.Store.{empty_db}
use dysonsphere.Server.Store.Query.{tick}
use dysonsphere.Server.Service.AgentService.{enroll}
use dysonsphere.Server.Tests.{host}
use dysonsphere.Server.Api.Tests.{settings, site, uuid_env, joined, draws, joined_first}
use dysonsphere.Server.Api.Router.{host_list, handle, guarded, serve}
use dysonsphere.Agent.Client.{
  HttpRequest, post, Transport, new_client, authorization, post_raw, post_json, heartbeat,
}
use dysonsphere.Agent.Client.Signed.{beat, perform}
use dysonsphere.Handshake.{client_admitted}

-- Every request is answered with 200.
abbrev transport : Transport
transport = record {
  marshal = λ j. some (codes "{}");
  valid_url = λ s. true;
  exchange = λ sent. some (record { status = 200; content = codes "{}" });
  read_enrollment = λ s. none;
  read_commands = λ s. some [];
  show_int = λ n. codes "5";
  rfc3339 = λ n. [];
}

abbrev beaten : HttpRequest
beaten = record {
  method = post;
  url = codes "http://s/api/v1/agents/heartbeat";
  authorization = codes "Bearer ab";
  host_id = codes "h1";
  content = some (codes "{}");
}

beats :
    perform transport (new_client (codes "http://s") (codes "ab") (codes "h1")) (beat []) []
    ≡ beaten ∷ []
unfolding heartbeat post_json post_raw authorization
beats = refl

client_admitted_example :
    let after = (enroll uuid_env (codes "s") (codes "s") host site.db).1 in
    let r =
      serve uuid_env settings
        (guarded (codes "Bearer ab") (codes "h1") host_list)
        (record site { db = after }) in
    ((r.0, r.1.db) ≡ handle uuid_env settings (codes "h1") host_list (tick after))
unfolding empty_db
client_admitted_example =
    client_admitted uuid_env settings (codes "s") (codes "s") host joined transport
      (codes "http://s") (beat []) [] beaten host_list site (λ u. omega arith) draws refl
      joined_first refl beats
