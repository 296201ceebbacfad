-- ===== src/Server/Api/DashboardHandlers.antt =====
-- The handlers of the dashboard's requests: apps/server/internal/api/handlers.go.
pub mod Pages
use dysonsphere.Common.{
  ℕ, ◌+◌, ◌-◌, ◌*◌, Option, none, some, List, [], map, Text, length, count_if, if◌then◌else◌,
}
use dysonsphere.Common.Strings.{codes, is_empty}
use dysonsphere.Server.Domain.{Host, Job, Execution, EnrollmentToken, object, text, no_field, field}
use dysonsphere.Server.Domain.Stats.{WindowStats}
use dysonsphere.Server.Store.{Env, Result, ok, err, Action, pure, attempt, ◌>>=◌}
use dysonsphere.Server.Store.Query.{read_clock}
use dysonsphere.Server.Service.AgentService.{generate_enrollment_token, list_enrollment_tokens}
use dysonsphere.Server.Service.CommandService.{enqueue_runs}
use dysonsphere.Server.Service.DiscoveryService
use dysonsphere.Server.Service.ExecutionService.{list_by_job}
use dysonsphere.Server.Service.MetricService.{list_metrics}
use dysonsphere.Server.Repository.HostRepo.{list_hosts, is_active}
use dysonsphere.Server.Repository.JobRepo.{list_jobs}
use dysonsphere.Server.Repository.AlertRepo.{list_alerts, count_active}
use dysonsphere.Server.Repository.ExecutionRepo.{ExecutionFilter, list_filtered}
use dysonsphere.Server.StatsRepo.{
  get_window_stats, get_failure_trend, get_job_success_rates, get_host_failure_counts,
}
use dysonsphere.Server.StatsRepo.Recovery.{get_job_recovery_stats}
use dysonsphere.Server.Api.Query.{Window, hour, parse_pagination, parse_window}
use dysonsphere.Server.Api.Wire.{
  Decoded, malformed, body, CreateEnrollmentTokenRequest, StatsResponse,
  EnrollmentTokenCreatedResponse, EnrollmentTokenItem, error_text, acknowledged, hosts, queued,
  executions, metrics, jobs, job_detail, alerts, overview, window_stats, trend, job_stats,
  host_stats, recovery_stats, token_created, tokens, write_json, write_error, Handler, answer, call,
  Formats,
}

-- The query parameters of `ListExecutions`, empty where they are missing.
pub record ExecutionQuery : Type 0 where
  pub status : Text
  pub host_id : Text
  pub job_id : Text
  pub window : Text
  pub limit : Text
  pub offset : Text

abbrev pub windowed : {A : Type 0} → Env → Text → (Window → Action A) → Action A
windowed env window f = read_clock env >>= λ now. f (parse_window now window)

abbrev pub filter_of : ExecutionQuery → Option ℕ → ExecutionFilter
filter_of q since = record {
  host_id = q.host_id;
  job_id = q.job_id;
  status = q.status;
  since = since;
}

abbrev pub filtered : Env → ExecutionQuery → Option ℕ → Action (List Execution)
filtered env q since =
    let (limit, offset) = parse_pagination q.limit q.offset in
    list_filtered env (filter_of q since) limit offset

unfoldable pub list_executions : Env → ExecutionQuery → Handler
list_executions env q =
    call
      (if is_empty q.window
        then filtered env q none
        else windowed env q.window λ w. filtered env q (some w.since))
      (λ xs. write_json 200 (executions xs)) (λ e. write_error 500 (codes "list executions failed"))

unfoldable pub list_metrics_page : Env → Text → Text → Handler
list_metrics_page env limit offset =
    let page = parse_pagination limit offset in
    call (list_metrics env page.0 page.1) (λ ms. write_json 200 (metrics ms))
      (λ e. write_error 500 (codes "list metrics failed"))

unfoldable pub list_all_hosts : Env → Handler
list_all_hosts env =
    call (list_hosts env) (λ hs. write_json 200 (hosts hs))
      (λ e. write_error 500 (codes "list hosts failed"))

unfoldable pub list_all_jobs : Env → Handler
list_all_jobs env =
    call (list_jobs env) (λ js. write_json 200 (jobs js))
      (λ e. write_error 500 (codes "list jobs failed"))

abbrev pub or_nil : {A : Type 0} → Result (List A) → List A
or_nil (ok xs) = xs
or_nil (err e) = []

abbrev pub job_with_runs : Env → Text → Action (Job × List Execution)
job_with_runs env id = do
  job ← DiscoveryService.get_job env id
  runs ← attempt (list_by_job env id 20)
  pure (job, or_nil runs)

unfoldable pub get_job : Env → Text → Handler
get_job env id =
    call (job_with_runs env id) (λ r. write_json 200 (job_detail r.0 r.1))
      (λ e. write_error 404 (codes "job not found"))

unfoldable pub trigger_host_jobs : Env → Text → Decoded (List Text) → Handler
trigger_host_jobs env host_id (malformed e) = answer (write_error 400 (codes "invalid JSON"))
trigger_host_jobs env host_id (body job_ids) =
    if is_empty job_ids
    then answer (write_error 400 (codes "job_ids is required"))
    else call (enqueue_runs env host_id job_ids) (λ cs. write_json 202 (queued (length cs) cs))
        (λ e. write_json 400 (error_text e))

unfoldable pub list_alerts_page : Env → Text → Text → Handler
list_alerts_page env limit offset =
    let page = parse_pagination limit offset in
    call (list_alerts env page.0 page.1) (λ xs. write_json 200 (alerts xs))
      (λ e. write_error 500 (codes "list alerts failed"))

abbrev pub or_zero : Result ℕ → ℕ
or_zero (ok n) = n
or_zero (err e) = 0

abbrev pub failures : Result WindowStats → ℕ
failures (ok w) = w.failed + w.unknown
failures (err e) = 0

-- An error of a query leaves its number at 0.
abbrev pub stats_response :
    Result (List Host) → Result (List Job) → Result ℕ → Result WindowStats → StatsResponse
stats_response hs js active w = record {
  total_hosts = length (or_nil hs);
  active_hosts = count_if (λ h. is_active h.status) (or_nil hs);
  total_jobs = length (or_nil js);
  active_alerts = or_zero active;
  recent_failed = failures w;
}

abbrev pub overview_of : Env → Formats → Action StatsResponse
overview_of env go = do
  hs ← attempt (list_hosts env)
  js ← attempt (list_jobs env)
  active ← attempt (count_active env)
  now ← read_clock env
  w ← attempt (get_window_stats env go.floats go.rfc3339 (now - 24 * hour) (codes "24h"))
  pure (stats_response hs js active w)

-- The overview raises no error.
unfoldable pub get_stats : Env → Formats → Handler
get_stats env go =
    call (overview_of env go) (λ s. write_json 200 (overview s)) (λ e. write_json 200 acknowledged)

unfoldable pub window_stats_page : Env → Formats → Text → Handler
window_stats_page env go window =
    call (windowed env window λ w. get_window_stats env go.floats go.rfc3339 w.since w.label)
      (λ s. write_json 200 (window_stats s)) (λ e. write_error 500 (codes "stats query failed"))

unfoldable pub failure_trend_page : Env → Text → Handler
failure_trend_page env window =
    call (windowed env window λ w. get_failure_trend env w.since w.bucket_seconds)
      (λ ps. write_json 200 (trend ps)) (λ e. write_error 500 (codes "trend query failed"))

unfoldable pub job_stats_page : Env → Formats → Text → Handler
job_stats_page env go window =
    call (windowed env window λ w. get_job_success_rates env go.floats w.since)
      (λ rs. write_json 200 (job_stats rs)) (λ e. write_error 500 (codes "job stats query failed"))

unfoldable pub host_stats_page : Env → Formats → Text → Handler
host_stats_page env go window =
    call (windowed env window λ w. get_host_failure_counts env go.floats w.since)
      (λ cs. write_json 200 (host_stats cs))
      (λ e. write_error 500 (codes "host stats query failed"))

unfoldable pub recovery_stats_page : Env → Formats → Handler
recovery_stats_page env go =
    call (get_job_recovery_stats env go.floats) (λ ss. write_json 200 (recovery_stats ss))
      (λ e. write_error 500 (codes "recovery stats query failed"))

-- What the flag `--payload` of the agent takes.
abbrev pub payload_of : Formats → Text → Text → Text
payload_of go server_url token = go.base64_url (
    go.marshal (
      object (
        field (codes "server_url") (text server_url)
          (field (codes "token") (text token) no_field))))

abbrev created_response : Formats → Text → Text × EnrollmentToken → EnrollmentTokenCreatedResponse
created_response go server_url (raw, row) = record {
  id = row.id;
  label = row.label;
  payload = payload_of go server_url raw;
  expires_at = go.rfc3339 row.expires_at;
  created_at = go.rfc3339 row.created_at;
}

abbrev create_token : Env → Formats → Text → Text → Handler
create_token env go server_url label =
    if is_empty server_url
    then answer (
        write_error 400
          (codes "server_url is required (set SERVER_PUBLIC_URL or pass server_url in body)"))
    else call (generate_enrollment_token env label)
        (λ r. write_json 201 (token_created (created_response go server_url r)))
        (λ e. write_error 500 (codes "failed to generate token"))

unfoldable pub create_enrollment_token :
    Env → Formats → Text → Decoded CreateEnrollmentTokenRequest → Handler
create_enrollment_token env go public_url (malformed e) =
    answer (write_error 400 (codes "invalid JSON"))
create_enrollment_token env go public_url (body req) =
    create_token env go (if is_empty req.server_url then public_url else req.server_url) req.label

abbrev token_item : Formats → EnrollmentToken → EnrollmentTokenItem
token_item go t = record {
  id = t.id;
  label = t.label;
  used = t.used;
  used_at = elim t.used_at [ none ↦ none | some at ↦ some (go.rfc3339 at) ];
  expires_at = go.rfc3339 t.expires_at;
  created_at = go.rfc3339 t.created_at;
}

unfoldable pub list_tokens_page : Env → Formats → Handler
list_tokens_page env go =
    call (list_enrollment_tokens env) (λ ts. write_json 200 (tokens (map (token_item go) ts)))
      (λ e. write_error 500 (codes "list enrollment tokens failed"))
