-- ===== src/Server/Api/AgentHandlers.antt =====
-- The handlers of the agents' requests: apps/server/internal/api/handlers.go.
use dysonsphere.Common.{ℕ, ◌||◌, Option, none, some, List, [], ◌++◌, Text, length, if◌then◌else◌}
use dysonsphere.Common.Strings.{codes, is_empty}
use dysonsphere.Server.Store.{Env, Error, token_used}
use dysonsphere.Server.Request.{
  RegisterRequest, register_host, EnrollRequest, enroll_host, DiscoveredJob, discovered_jobs,
  ExecutionEvent, executions_of, MetricEntry, metrics_of,
}
use dysonsphere.Server.Domain.{Execution}
use dysonsphere.Server.Service.AgentService.{EnrollmentResult, register, enroll, heartbeat}
use dysonsphere.Server.Service.CommandService.{claim_pending, complete}
use dysonsphere.Server.Service.DiscoveryService.{process_discovery}
use dysonsphere.Server.Service.ExecutionService
use dysonsphere.Server.Service.MetricService
use dysonsphere.Server.Api.Query.{atoi, at_least_zero}
use dysonsphere.Server.Api.Wire.{
  Decoded, malformed, body, CompleteCommandRequest, EnrollResponse, error_text, acknowledged,
  recovered, enrolled, host, commands, upserted, accepted, Response, write_json, write_error,
  Handler, answer, call,
}

abbrev pub enroll_status : Error → ℕ
enroll_status token_used = 409
enroll_status _ = 401

abbrev enroll_response : EnrollmentResult → EnrollResponse
enroll_response r = record {
  host_id = r.host.id;
  credential = r.agent_token;
  config = record {
    environment = r.environment;
    tags = r.tags;
    heartbeat_interval = codes "30s";
    discovery_interval = codes "5m";
    process_scan_interval = codes "30s";
    report_interval = codes "1m";
    command_poll_interval = codes "15s";
  };
}

unfoldable pub enroll_agent : Env → Text → Decoded EnrollRequest → Handler
enroll_agent env static_token (malformed e) = answer (write_error 400 (codes "invalid JSON: " ++ e))
enroll_agent env static_token (body req) =
    if is_empty req.enrollment_token || is_empty req.machine_id || is_empty req.hostname
    then answer (write_error 400 (codes "enrollment_token, machine_id, and hostname are required"))
    else call (enroll env static_token req.enrollment_token (enroll_host req))
        (λ r. write_json 201 (enrolled (enroll_response r)))
        (λ e. write_json (enroll_status e) (error_text e))

unfoldable pub register_agent : Env → Decoded RegisterRequest → Handler
register_agent env (malformed e) = answer (write_error 400 (codes "invalid JSON: " ++ e))
register_agent env (body req) =
    if is_empty req.machine_id || is_empty req.hostname
    then answer (write_error 400 (codes "machine_id and hostname are required"))
    else call (register env (register_host req)) (λ h. write_json 201 (host h))
        (λ e. write_error 500 (codes "registration failed"))

abbrev host_id_required : Response
host_id_required = write_error 400 (codes "X-Host-ID header required")

-- A body that cannot be decoded leaves the address empty.
abbrev address : Decoded Text → Text
address (malformed e) = []
address (body ip) = ip

unfoldable pub agent_heartbeat : Env → Text → Decoded Text → Handler
agent_heartbeat env host_id ip =
    if is_empty host_id
    then answer host_id_required
    else call (heartbeat env host_id (address ip)) (λ u. write_json 200 acknowledged)
        (λ e. write_error 500 (codes "heartbeat failed"))

-- An error of the conversion is dropped.
unfoldable pub claim_agent_commands : Env → Text → Text → Handler
claim_agent_commands env host_id limit =
    if is_empty host_id
    then answer host_id_required
    else call (claim_pending env host_id (at_least_zero (atoi limit).0))
        (λ cs. write_json 200 (commands cs)) (λ e. write_error 500 (codes "claim commands failed"))

unfoldable pub complete_agent_command : Env → Text → Decoded CompleteCommandRequest → Handler
complete_agent_command env id (malformed e) = answer (write_error 400 (codes "invalid JSON"))
complete_agent_command env id (body req) =
    call (complete env id req.status req.message req.started_at req.finished_at req.exit_code)
      (λ u. write_json 200 acknowledged) (λ e. write_json 400 (error_text e))

unfoldable pub discover : Env → Text → Decoded (List DiscoveredJob) → Handler
discover env host_id (malformed e) = answer (write_error 400 (codes "invalid JSON"))
discover env host_id (body req) =
    call (process_discovery env host_id (discovered_jobs req))
      (λ js. write_json 200 (upserted (length js) js))
      (λ e. write_error 500 (codes "discovery processing failed"))

unfoldable pub submit_discovery : Env → Text → Decoded (List DiscoveredJob) → Handler
unfolding discover
submit_discovery env host_id req =
    if is_empty host_id then answer host_id_required else discover env host_id req

-- The conversion of the events may panic.
abbrev pub report : Env → Text → Option (List Execution) → Handler
report env host_id none = answer (write_json 500 recovered)
report env host_id (some es) =
    call (ExecutionService.batch_report env host_id es)
      (λ xs. write_json 200 (accepted (length xs)))
      (λ e. write_error 500 (codes "batch report failed"))

unfoldable pub report_executions : Env → Text → Decoded (List ExecutionEvent) → Handler
report_executions env host_id (malformed e) = answer (write_error 400 (codes "invalid JSON"))
report_executions env host_id (body req) = report env host_id (executions_of req)

unfoldable pub batch_executions : Env → Text → Decoded (List ExecutionEvent) → Handler
unfolding report_executions
batch_executions env host_id req =
    if is_empty host_id then answer host_id_required else report_executions env host_id req

unfoldable pub report_metrics : Env → Text → Decoded (List MetricEntry) → Handler
report_metrics env host_id (malformed e) = answer (write_error 400 (codes "invalid JSON"))
report_metrics env host_id (body req) =
    call (MetricService.batch_report env host_id (metrics_of req))
      (λ ms. write_json 200 (accepted (length ms)))
      (λ e. write_error 500 (codes "metric batch failed"))

unfoldable pub batch_metrics : Env → Text → Decoded (List MetricEntry) → Handler
unfolding report_metrics
batch_metrics env host_id req =
    if is_empty host_id then answer host_id_required else report_metrics env host_id req
