-- ===== src/Agent/Status/Tests.antt =====
-- The local status of three runs.
use dysonsphere.Common.{ℕ, ◌≡◌, refl, none, List, [], ◌∷◌, Text, text_eq, text_beq, count_if, map}
use dysonsphere.Common.Strings.{codes, is_some}
use dysonsphere.Common.Assoc.{lookup, insert}
use dysonsphere.Common.Tables.{exists_row, order_by, place}
use dysonsphere.Server.Domain.{null}
use dysonsphere.Agent.World.{LocalExecution}
use dysonsphere.Agent.MailSpool.{size}
use dysonsphere.Agent.Paths.{truncate}
use dysonsphere.Agent.Status.{group, add_record, rows_of, cells}
use dysonsphere.Agent.Status.Tally.{
  summary_counts, has_key, of_key, is_success, is_failed, is_running, is_partial, tally, latest,
}

abbrev run_of : Text → Text → ℕ → LocalExecution
run_of hash status started = record {
  id = [];
  job_id = [];
  command_hash = hash;
  command = codes "/bin/a";
  schedule = codes "daily";
  status = status;
  trigger = codes "cron";
  confidence_score = 0;
  started_at = started;
  finished_at = none;
  duration_seconds = none;
  pid = none;
  exit_code = none;
  evidence = null;
  last_updated_at = started;
}

abbrev runs : List LocalExecution
runs =
    run_of (codes "h") (codes "failed") 20
    ∷ run_of [] (codes "success") 30
    ∷ run_of (codes "h") (codes "success") 10
    ∷ []

summary_counts_example :
    let o = lookup (codes "h") (group [] runs) in
    (is_some o ≡ exists_row (has_key (codes "h")) runs)
    × (tally (λ s. s.success) o ≡ count_if (of_key (codes "h") is_success) runs)
    × (tally (λ s. s.failed) o ≡ count_if (of_key (codes "h") is_failed) runs)
    × (tally (λ s. s.running) o ≡ count_if (of_key (codes "h") is_running) runs)
    × (tally (λ s. s.partial) o ≡ count_if (of_key (codes "h") is_partial) runs)
    × (tally (λ s. s.last_run) o ≡ latest (has_key (codes "h")) 0 runs)
summary_counts_example = summary_counts (codes "h") runs

-- The job without a hash ran last; the other one's status is that of its later record.
printed :
    map (λ r. cells (λ t. t ∷ []) (λ n. n ∷ []) r) (rows_of runs)
    ≡ ((30 ∷ [])
        ∷ codes "success"
        ∷ codes "cron"
        ∷ (1 ∷ [])
        ∷ (0 ∷ [])
        ∷ (0 ∷ [])
        ∷ (0 ∷ [])
        ∷ codes "daily"
        ∷ codes "/bin/a"
        ∷ [])
      ∷ ((20 ∷ [])
          ∷ codes "failed"
          ∷ codes "cron"
          ∷ (1 ∷ [])
          ∷ (1 ∷ [])
          ∷ (0 ∷ [])
          ∷ (0 ∷ [])
          ∷ codes "daily"
          ∷ codes "/bin/a"
          ∷ [])
      ∷ []
unfolding rows_of group add_record cells lookup insert order_by place truncate text_beq size
printed = refl
