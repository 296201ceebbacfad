-- ===== src/Server/Api/Router/ReadOnly.antt =====
-- Requests that change no table: apps/server/internal/api/router.go.
use dysonsphere.Common.{
  ℕ, ◌-◌, ◌*◌, text_eq, ◌==◌, ◌≡◌, refl, Bool, true, false, Option, none, some, Text, arith,
}
use dysonsphere.Common.Strings.{codes, is_empty}
use dysonsphere.Common.Tables.{find}
use dysonsphere.Server.Domain.Stats.{Floats, WindowStats}
use dysonsphere.Server.Store.{
  Env, Db, Error, bad_uuid, no_rows, Result, Action, pure, attempt, ◌>>=◌,
}
use dysonsphere.Server.Store.Query.{statement, tick, read_clock, parse_uuid}
use dysonsphere.Server.Store.Keeps.{
  Keeps, Keeps-pure, Keeps-lift, Keeps-attempt, Keeps-if, Keeps-statement, Keeps-bind,
}
use dysonsphere.Server.Repository.HostRepo.{list_hosts}
use dysonsphere.Server.Repository.JobRepo.{list_jobs, get_by_id}
use dysonsphere.Server.Repository.AlertRepo.{list_alerts, count_active}
use dysonsphere.Server.Repository.ExecutionRepo
use dysonsphere.Server.StatsRepo.{
  get_window_stats, get_failure_trend, get_job_success_rates, get_host_failure_counts,
}
use dysonsphere.Server.StatsRepo.Recovery.{get_job_recovery_stats}
use dysonsphere.Server.Repository.MetricRepo
use dysonsphere.Server.Repository.EnrollmentTokenRepo.{list_tokens}
use dysonsphere.Server.Service.AgentService.{list_enrollment_tokens}
use dysonsphere.Server.Service.DiscoveryService
use dysonsphere.Server.Service.ExecutionService
use dysonsphere.Server.Service.MetricService
use dysonsphere.Server.Api.Query.{Window, hour, parse_pagination, parse_window}
use dysonsphere.Server.Api.Wire.{Response, call, Formats}
use dysonsphere.Server.Api.DashboardHandlers.{
  windowed, filter_of, filtered, overview_of, job_with_runs, stats_response, or_nil, ExecutionQuery,
  list_executions, list_metrics_page, list_all_hosts, list_all_jobs, get_job, list_alerts_page,
  get_stats, window_stats_page, failure_trend_page, job_stats_page, host_stats_page,
  recovery_stats_page, list_tokens_page,
}
use dysonsphere.Server.Api.Router.{
  Endpoint, register, heartbeat, claim_commands, complete_command, discovery, execution_batch,
  execution_list, metric_batch, metric_list, host_list, run_commands, job_list, job, alert_list,
  stats, failure_stats, trend_stats, jobs_stats, hosts_stats, recovery, create_token, token_list,
  Settings, handle,
}

-- The tables are those of `before`, whatever the number of steps made.
abbrev pub SameTables : Db → Db → Type 0
SameTables before db = db ≡ record before { steps = db.steps }

-- The routes of GET but for `/agents/commands`.
abbrev pub is_query : Endpoint → Bool
is_query (execution_list q) = true
is_query (metric_list limit offset) = true
is_query host_list = true
is_query job_list = true
is_query (job id) = true
is_query (alert_list limit offset) = true
is_query stats = true
is_query (failure_stats window) = true
is_query (trend_stats window) = true
is_query (jobs_stats window) = true
is_query (hosts_stats window) = true
is_query recovery = true
is_query token_list = true
is_query _ = false

module _ (before : Db) where
  abbrev Same : Db → Type 0
  Same = SameTables before

  ticked : (db : Db) → Same db → Same (tick db)
  ticked db h = λ i. tick (h i)

  -- A statement that only reads.
  Same-statement :
      {A : Type 0} (env : Env) (q : ℕ → Db → Result A)
      → Keeps Same (statement env (λ now fresh db. (q now db, db)))
  Same-statement env q =
      Keeps-statement env (λ now fresh db. (q now db, db)) ticked
        λ now fresh. record { after = λ db h. h }

  Same-clock : (env : Env) → Keeps Same (read_clock env)
  unfolding read_clock
  Same-clock env = record { after = ticked }

  Same-call :
      {A : Type 0} (m : Action A) (f : A → Response) (g : Error → Response)
      → Keeps Same m
      → (db : Db) → Same db
      → Same (call m f g db).1
  Same-call m f g k db h = k.after db h

  module _ (env : Env) where
    list_hosts-Same : Keeps Same (list_hosts env)
    unfolding list_hosts
    list_hosts-Same = Same-statement env _

    list_jobs-Same : Keeps Same (list_jobs env)
    unfolding list_jobs
    list_jobs-Same = Same-statement env _

    count_active-Same : Keeps Same (count_active env)
    unfolding count_active
    count_active-Same = Same-statement env _

    window-Same :
        (go : Formats) (since : ℕ) (label : Text)
        → Keeps Same (get_window_stats env go.floats go.rfc3339 since label)
    unfolding get_window_stats
    window-Same go since label = Same-statement env _

    trend-Same : (since bucket : ℕ) → Keeps Same (get_failure_trend env since bucket)
    unfolding get_failure_trend
    trend-Same since bucket = Same-statement env _

    rates-Same : (fl : Floats) (since : ℕ) → Keeps Same (get_job_success_rates env fl since)
    unfolding get_job_success_rates
    rates-Same fl since = Same-statement env _

    counts-Same : (fl : Floats) (since : ℕ) → Keeps Same (get_host_failure_counts env fl since)
    unfolding get_host_failure_counts
    counts-Same fl since = Same-statement env _

    parse-Same : (s : Text) → Keeps Same (parse_uuid env s)
    unfolding parse_uuid
    parse-Same s = Keeps-lift bad_uuid (env.uuid_parse s)

    id_filter-Same : (id : Text) → Keeps Same (ExecutionRepo.id_filter env id)
    id_filter-Same id =
        Keeps-if (is_empty id) _ _ (Keeps-pure none)
          (Keeps-bind (parse_uuid env id) _ (parse-Same id) λ u. Keeps-pure (some u))

    filtered-Same :
        (f : ExecutionRepo.ExecutionFilter) (limit offset : ℕ)
        → Keeps Same (ExecutionRepo.list_filtered env f limit offset)
    unfolding ExecutionRepo.list_filtered
    filtered-Same f limit offset =
        Keeps-bind (ExecutionRepo.id_filter env f.host_id) _ (id_filter-Same f.host_id) λ host.
          Keeps-bind (ExecutionRepo.id_filter env f.job_id) _ (id_filter-Same f.job_id)
            λ job. Same-statement env _

    get_job-Same : (id : Text) → Keeps Same (DiscoveryService.get_job env id)
    unfolding DiscoveryService.get_job get_by_id
    get_job-Same id = Keeps-bind (parse_uuid env id) _ (parse-Same id) λ uuid.
        Keeps-statement env _ ticked λ now fresh. record {
          after =
              λ db h. (Keeps-lift {P = Same} no_rows (find (λ r. r.id == uuid) db.jobs)).after db h;
        }

    runs-Same : (id : Text) (limit : ℕ) → Keeps Same (ExecutionService.list_by_job env id limit)
    unfolding ExecutionService.list_by_job ExecutionRepo.list_by_job
    runs-Same id limit =
        Keeps-bind (parse_uuid env id) _ (parse-Same id) λ job. Same-statement env _

    windowed-Same :
        {A : Type 0} (window : Text) (f : Window → Action A)
        → ((w : Window) → Keeps Same (f w))
        → Keeps Same (windowed env window f)
    windowed-Same window f k =
        Keeps-bind (read_clock env) _ (Same-clock env) λ now. k (parse_window now window)

    asked-Same : (q : ExecutionQuery) (since : Option ℕ) → Keeps Same (filtered env q since)
    asked-Same q since =
        filtered-Same (filter_of q since) (parse_pagination q.limit q.offset).0
          (parse_pagination q.limit q.offset).1

    executions-Same : (q : ExecutionQuery) (db : Db) → Same db → Same (list_executions env q db).1
    unfolding list_executions
    executions-Same q db h =
        (Keeps-if (is_empty q.window) (filtered env q none)
            (windowed env q.window λ w. filtered env q (some w.since)) (asked-Same q none)
            (windowed-Same q.window (λ w. filtered env q (some w.since))
              λ w. asked-Same q (some w.since))).after
          db h

    abbrev last_day : Formats → ℕ → Action WindowStats
    last_day go now = get_window_stats env go.floats go.rfc3339 (now - 24 * hour) (codes "24h")

    overview-Same : (go : Formats) → Keeps Same (overview_of env go)
    overview-Same go =
        Keeps-bind (attempt (list_hosts env)) _ (Keeps-attempt _ list_hosts-Same) λ hs.
          Keeps-bind (attempt (list_jobs env)) _ (Keeps-attempt _ list_jobs-Same) λ js.
            Keeps-bind (attempt (count_active env)) _ (Keeps-attempt _ count_active-Same) λ n.
              Keeps-bind (read_clock env)
                (λ now. attempt (last_day go now) >>= λ w. pure (stats_response hs js n w))
                (Same-clock env)
                λ now. record { after = (window-Same go (now - 24 * hour) (codes "24h")).after }

    detail-Same : (id : Text) → Keeps Same (job_with_runs env id)
    detail-Same id = Keeps-bind (DiscoveryService.get_job env id) _ (get_job-Same id) λ j.
        Keeps-bind (attempt (ExecutionService.list_by_job env id 20)) (λ r. pure (j, or_nil r))
          (Keeps-attempt _ (runs-Same id 20)) λ r. Keeps-pure (j, or_nil r)

-- A query changes no table, whichever statements fail.
pub queries_only_read :
    (env : Env) (s : Settings) (host_id : Text) (e : Endpoint) (db : Db)
    → is_query e ≡ true
    → SameTables db (handle env s host_id e db).1
unfolding handle list_metrics_page list_all_hosts list_all_jobs get_job list_alerts_page get_stats
    window_stats_page failure_trend_page job_stats_page host_stats_page recovery_stats_page
    list_tokens_page MetricService.list_metrics MetricRepo.list_metrics list_hosts list_jobs
    list_alerts get_job_recovery_stats list_enrollment_tokens list_tokens
queries_only_read env s host_id (execution_list q) db h = executions-Same db env q db refl
queries_only_read env s host_id (metric_list limit offset) db h =
    (Same-statement db env _).after db refl
queries_only_read env s host_id host_list db h = (Same-statement db env _).after db refl
queries_only_read env s host_id job_list db h = (Same-statement db env _).after db refl
queries_only_read env s host_id (job id) db h = (detail-Same db env id).after db refl
queries_only_read env s host_id (alert_list limit offset) db h =
    (Same-statement db env _).after db refl
queries_only_read env s host_id stats db h = (overview-Same db env s.formats).after db refl
queries_only_read env s host_id (failure_stats window) db h =
    (windowed-Same db env window _ λ w. window-Same db env s.formats w.since w.label).after db refl
queries_only_read env s host_id (trend_stats window) db h =
    (windowed-Same db env window _ λ w. trend-Same db env w.since w.bucket_seconds).after db refl
queries_only_read env s host_id (jobs_stats window) db h =
    (windowed-Same db env window _ λ w. rates-Same db env s.formats.floats w.since).after db refl
queries_only_read env s host_id (hosts_stats window) db h =
    (windowed-Same db env window _ λ w. counts-Same db env s.formats.floats w.since).after db refl
queries_only_read env s host_id recovery db h = (Same-statement db env _).after db refl
queries_only_read env s host_id token_list db h = (Same-statement db env _).after db refl
queries_only_read env s host_id (register req) db h = ground (arith, h)
queries_only_read env s host_id (heartbeat ip) db h = ground (arith, h)
queries_only_read env s host_id (claim_commands limit) db h = ground (arith, h)
queries_only_read env s host_id (complete_command id req) db h = ground (arith, h)
queries_only_read env s host_id (discovery req) db h = ground (arith, h)
queries_only_read env s host_id (execution_batch req) db h = ground (arith, h)
queries_only_read env s host_id (metric_batch req) db h = ground (arith, h)
queries_only_read env s host_id (run_commands host req) db h = ground (arith, h)
queries_only_read env s host_id (create_token req) db h = ground (arith, h)
