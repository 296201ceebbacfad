-- ===== src/Server/Repository/Tests.antt =====
-- Statements on small tables.
use dysonsphere.Common.{
  ℕ, ◌+◌, ◌≡◌, refl, false, none, some, List, [], ◌∷◌, ◌++◌, ◌&&◌, Text, text_beq, text_eq, ◌==◌,
  if◌then◌else◌, arith,
}
use dysonsphere.Common.Strings.{codes}
use dysonsphere.Common.Tables.{exists_row, select, order_by, place}
use dysonsphere.Server.Domain.{Execution, ExecutionStatus, success, failed, partial}
use dysonsphere.Server.Domain.Stats.{Floats, WindowStats, TrendPoint, HostFailureCount}
use dysonsphere.Server.Store.{Db, empty_db, ok}
use dysonsphere.Server.Store.Query.{statement, column_uuid}
use dysonsphere.Server.Tests.{env, host}
use dysonsphere.Server.Repository.CredentialRepo.{upsert, validate}
use dysonsphere.Server.Repository.CredentialRepo.Contract.{
  stored, OnePerHost, is_ok, matches, upsert_refines, validate_refines,
}
use dysonsphere.Server.StatsRepo.{
  get_window_stats, get_failure_trend, get_host_failure_counts, window_of, bucket_of, point_of,
  failures_of, distinct,
}
use dysonsphere.Server.StatsRepo.Counts.{trend_adds_up, hosts_add_up}
use dysonsphere.Server.StatsRepo.Counts.Groups.{sum_of}
use dysonsphere.Server.StatsRepo.Recovery.Grouping.{collected, episodes_in, OnePerJob, rows_grouped}
use dysonsphere.Server.StatsRepo.Recovery.{RecoveryRow, episode, add_rows, islands, bad_islands}
use dysonsphere.Server.StatsRepo.Recovery.Islands.{bad_runs, islands_are_runs}

abbrev floats : Floats
floats = record {
  of_count = λ n. n;
  add = λ a b. a;
  mul = λ a b. a;
  div = λ a b. a;
  seconds = λ n. n;
}

abbrev run : ℕ → ExecutionStatus → Execution
run time status = record {
  id = time ∷ [];
  host_id = codes "h1";
  job_id = some (codes "j1");
  scheduled_at = none;
  detected_started_at = none;
  detected_finished_at = none;
  duration_seconds = none;
  status = status;
  confidence_score = 0;
  detection_sources = [];
  output_text = none;
  evidence = none;
  created_at = time;
}

abbrev runs : List Execution
runs = run 1 failed ∷ run 2 failed ∷ run 3 success ∷ run 4 partial ∷ run 5 failed ∷ []

islands_are_runs_example : islands runs ≡ bad_runs runs
islands_are_runs_example = islands_are_runs runs

two_islands : islands runs ≡ (run 1 failed ∷ run 2 failed ∷ []) ∷ (run 5 failed ∷ []) ∷ []
unfolding islands bad_islands distinct exists_row select
two_islands = refl

abbrev db : Db
db = record empty_db { hosts = host ∷ []; executions = runs }

abbrev window : WindowStats
window = window_of floats [] (codes "24h") runs

window_found : (get_window_stats env floats (λ n. []) 0 (codes "24h") db).0 ≡ ok window
unfolding get_window_stats statement select
window_found = refl

abbrev points : List TrendPoint
unfolding bucket_of
points = point_of (bucket_of 3600 1) runs ∷ []

points_found : (get_failure_trend env 0 3600 db).0 ≡ ok points
unfolding get_failure_trend statement select distinct exists_row order_by place points bucket_of
points_found = refl

trend_adds_up_example :
    (sum_of (λ p. p.total) points ≡ window.total)
    × ((sum_of (λ p. p.success) points ≡ window.success)
        × ((sum_of (λ p. p.failed) points ≡ window.failed)
            × (sum_of (λ p. p.unknown) points ≡ window.unknown + window.partial)))
trend_adds_up_example =
    trend_adds_up env floats (λ n. []) 0 3600 (codes "24h") db window points window_found
      points_found

abbrev counts : List HostFailureCount
counts = failures_of floats (codes "h1") runs ∷ []

counts_found : (get_host_failure_counts env floats 0 db).0 ≡ ok counts
unfolding get_host_failure_counts statement select distinct exists_row text_beq order_by place
counts_found = refl

hosts_add_up_example :
    (sum_of (λ c. c.total) counts ≡ window.total) × (sum_of (λ c. c.failed) counts ≡ window.failed)
hosts_add_up_example =
    hosts_add_up env floats (λ n. []) 0 (codes "24h") db window counts window_found counts_found

no_credentials : OnePerHost db.credentials
unfolding empty_db
no_credentials j = omega arith

upsert_refines_example :
    let after = upsert env (codes "h1") (codes "x") db in
    OnePerHost after.1.credentials
    × ((j : Text)
        → stored after.1.credentials j ≡ (
            if is_ok after.0 && codes "h1" == j then some (codes "x") else stored db.credentials j))
upsert_refines_example =
    upsert_refines env (codes "h1") (codes "x") (codes "h1") db no_credentials refl

validate_refines_example : false ≡ matches (stored db.credentials (codes "h1")) (codes "x")
unfolding validate column_uuid statement empty_db
validate_refines_example =
    validate_refines env (codes "h1") (codes "x") (codes "h1") db false no_credentials refl refl

abbrev recovery_row : ℕ → RecoveryRow
recovery_row time = record {
  job_id = codes "j1";
  host_id = codes "h1";
  found = episode floats (run time failed ∷ []) none;
}

no_summaries : OnePerJob []
no_summaries job = omega arith

rows_grouped_example :
    let ss = add_rows [] (recovery_row 5 ∷ recovery_row 1 ∷ []) in
    OnePerJob ss
    × ((job : Text)
        → collected job ss
          ≡ collected job [] ++ episodes_in job (recovery_row 5 ∷ recovery_row 1 ∷ []))
rows_grouped_example = rows_grouped (recovery_row 5 ∷ recovery_row 1 ∷ []) [] no_summaries
