-- ===== src/Server/Api/Router.antt =====
-- The routes: apps/server/internal/api/router.go, with the handlers of the sessions. The middleware of
-- third parties is left out but for the answer to a panic.
pub mod Admitted
pub mod Guarded
pub mod ReadOnly
use dysonsphere.Common.{
  ℕ, Bool, true, false, suc, ◌||◌, Option, none, some, List, Text, if◌then◌else◌,
}
use dysonsphere.Common.Strings.{codes, is_empty}
use dysonsphere.Server.Store.{Env, Db}
use dysonsphere.Server.Store.Query.{tick}
use dysonsphere.Server.Auth.{AuthManager, LoginResponse, login, logout, bearer_token, api_auth}
use dysonsphere.Server.Service.AgentService.{validate_credential}
use dysonsphere.Server.Request.{
  RegisterRequest, EnrollRequest, DiscoveredJob, ExecutionEvent, MetricEntry,
}
use dysonsphere.Server.Api.Wire.{
  Decoded, malformed, body, LoginRequest, CompleteCommandRequest, CreateEnrollmentTokenRequest,
  healthy, acknowledged, logged_in, Response, write_json, write_error, Handler, Formats,
}
use dysonsphere.Server.Api.AgentHandlers.{
  enroll_agent, register_agent, agent_heartbeat, claim_agent_commands, complete_agent_command,
  submit_discovery, batch_executions, batch_metrics,
}
use dysonsphere.Server.Api.DashboardHandlers.{
  ExecutionQuery, list_executions, list_metrics_page, list_all_hosts, list_all_jobs, get_job,
  trigger_host_jobs, list_alerts_page, get_stats, window_stats_page, failure_trend_page,
  job_stats_page, host_stats_page, recovery_stats_page, create_enrollment_token, list_tokens_page,
}

-- The routes behind `APIAuthMiddleware` but for the logout, with what their handlers read of the path,
-- of the query and of the body.
pub data Endpoint : Type 0 where
  register : Decoded RegisterRequest → Endpoint
  heartbeat : Decoded Text → Endpoint
  claim_commands : Text → Endpoint
  complete_command : Text → Decoded CompleteCommandRequest → Endpoint
  discovery : Decoded (List DiscoveredJob) → Endpoint
  execution_batch : Decoded (List ExecutionEvent) → Endpoint
  execution_list : ExecutionQuery → Endpoint
  metric_batch : Decoded (List MetricEntry) → Endpoint
  metric_list : Text → Text → Endpoint
  host_list : Endpoint
  run_commands : Text → Decoded (List Text) → Endpoint
  job_list : Endpoint
  job : Text → Endpoint
  alert_list : Text → Text → Endpoint
  stats : Endpoint
  failure_stats : Text → Endpoint
  trend_stats : Text → Endpoint
  jobs_stats : Text → Endpoint
  hosts_stats : Text → Endpoint
  recovery : Endpoint
  create_token : Decoded CreateEnrollmentTokenRequest → Endpoint
  token_list : Endpoint

-- The configuration that handlers read: the static enrollment token and the public URL.
pub record Settings : Type 0 where
  pub static_token : Text
  pub public_url : Text
  pub formats : Formats

-- A handler is given the header `X-Host-ID`.
unfoldable pub handle : Env → Settings → Text → Endpoint → Handler
handle env s host_id (register req) = register_agent env req
handle env s host_id (heartbeat req) = agent_heartbeat env host_id req
handle env s host_id (claim_commands limit) = claim_agent_commands env host_id limit
handle env s host_id (complete_command id req) = complete_agent_command env id req
handle env s host_id (discovery req) = submit_discovery env host_id req
handle env s host_id (execution_batch req) = batch_executions env host_id req
handle env s host_id (execution_list q) = list_executions env q
handle env s host_id (metric_batch req) = batch_metrics env host_id req
handle env s host_id (metric_list limit offset) = list_metrics_page env limit offset
handle env s host_id host_list = list_all_hosts env
handle env s host_id (run_commands host req) = trigger_host_jobs env host req
handle env s host_id job_list = list_all_jobs env
handle env s host_id (job id) = get_job env id
handle env s host_id (alert_list limit offset) = list_alerts_page env limit offset
handle env s host_id stats = get_stats env s.formats
handle env s host_id (failure_stats window) = window_stats_page env s.formats window
handle env s host_id (trend_stats window) = failure_trend_page env window
handle env s host_id (jobs_stats window) = job_stats_page env s.formats window
handle env s host_id (hosts_stats window) = host_stats_page env s.formats window
handle env s host_id recovery = recovery_stats_page env s.formats
handle env s host_id (create_token req) = create_enrollment_token env s.formats s.public_url req
handle env s host_id token_list = list_tokens_page env s.formats

-- The state of the server: the sessions and the tables.
pub record Site : Type 0 where
  pub auth : AuthManager
  pub db : Db

-- Requests: `guarded` has the headers `Authorization` and `X-Host-ID`.
pub data Call : Type 0 where
  health : Call
  log_in : Text → Decoded LoginRequest → Call
  enroll : Decoded EnrollRequest → Call
  log_out : Text → Text → Call
  guarded : Text → Text → Endpoint → Call

abbrev login_response : Option LoginResponse → Response
login_response none = write_error 401 (codes "invalid username or password")
login_response (some r) = write_json 200 (logged_in r)

-- The clock is read before and after the test of the lockout.
unfoldable pub serve_login : Env → Text → Decoded LoginRequest → Site → Response × Site
serve_login env ip (malformed e) site = (write_error 400 (codes "invalid JSON"), site)
serve_login env ip (body req) site =
    if is_empty req.username || is_empty req.password
    then (write_error 400 (codes "username and password are required"), site)
    else let n = site.db.steps in
      let (auth, r) =
        login site.auth (env.now n) (env.now (suc n)) (env.random n) ip req.username req.password in
      (login_response r, record { auth = auth; db = tick (tick site.db) })

-- The validator of credentials reads the table of credentials.
abbrev pub with_validator : Env → Site → AuthManager
with_validator env site = record site.auth {
  validator = some (λ host_id token. (validate_credential env host_id token site.db).0);
}

-- The middleware: what follows is run if the request is let through.
unfoldable pub authenticated : Env → Text → Text → (Site → Response × Site) → Site → Response × Site
authenticated env authorization host_id next site =
    let (auth, passes) =
      api_auth (with_validator env site) (env.now site.db.steps) authorization host_id in
    let after : Site = record { auth = auth; db = tick site.db } in
    if passes then next after else (write_error 401 (codes "invalid or missing token"), after)

abbrev pub on_tables : Handler → Site → Response × Site
on_tables h site = let (r, db) = h site.db in (r, record site { db = db })

abbrev pub end_session : Text → Site → Response × Site
end_session authorization site = (
  write_json 200 acknowledged,
  record site { auth = logout site.auth (bearer_token authorization) },
)

unfoldable pub serve : Env → Settings → Call → Site → Response × Site
serve env s health site = (write_json 200 healthy, site)
serve env s (log_in ip req) site = serve_login env ip req site
serve env s (enroll req) site = on_tables (enroll_agent env s.static_token req) site
serve env s (log_out authorization host_id) site =
    authenticated env authorization host_id (end_session authorization) site
serve env s (guarded authorization host_id e) site =
    authenticated env authorization host_id (on_tables (handle env s host_id e)) site
