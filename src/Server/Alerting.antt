-- ===== src/Server/Alerting.antt =====
-- The alert rules: apps/server/internal/alerting/evaluator.go.
pub mod Fire
pub mod Exact
use dysonsphere.Common.{
  ℕ, ◌+◌, ◌-◌, ◌*◌, Bool, true, false, ◌&&◌, ◌||◌, Option, none, some, List, [], ◌∷◌, Text, ltb,
  leb, if◌then◌else◌,
}
use dysonsphere.Server.Domain.{
  Host, HostStatus, Job, Alert, TargetType, host_target, job_target, RuleName, stale_heartbeat,
  repeated_failures, AlertSeverity, AlertStatus,
}
use dysonsphere.Server.Store.{Env, Db, Result, ok, err, Action, pure, attempt, ◌>>=◌, ◌>>◌}
use dysonsphere.Server.Store.Query.{read_clock}
use dysonsphere.Server.Repository.HostRepo
use dysonsphere.Server.Repository.JobRepo
use dysonsphere.Server.Repository.ExecutionRepo
use dysonsphere.Server.Repository.AlertRepo

abbrev pub threshold : ℕ
threshold = 5 * 60 * 1_000_000_000

-- The alert that a rule fires for a target.
abbrev pub alert_for : TargetType → Text → RuleName → Alert
alert_for target id rule = record {
  id = [];
  target_type = target;
  target_id = id;
  rule_name = rule;
  severity = AlertSeverity.warning;
  status = AlertStatus.active;
  triggered_at = 0;
  resolved_at = none;
}

-- An error is logged only.
unfoldable pub fire_or_update : Env → Alert → Action (Unit {0})
fire_or_update env a = do
  existing ← attempt (AlertRepo.get_active_by_target env a.target_type a.target_id a.rule_name)
  elim existing [
    | err e ↦ pure tt
    | ok row ↦ elim row [ some r ↦ pure tt | none ↦ attempt (AlertRepo.insert env a) >> pure tt ]
  ]

abbrev host_stale : HostStatus → Bool
host_stale HostStatus.stale = true
host_stale _ = false

abbrev pub too_old : ℕ → Option ℕ → Bool
too_old now none = false
too_old now (some t) = ltb threshold (now - t)

abbrev pub is_stale : ℕ → Host → Bool
is_stale now h = host_stale h.status || too_old now h.last_heartbeat_at

-- Fires the rule for a target that breaks it, and resolves its alert otherwise.
unfoldable pub judge : Env → TargetType → Text → RuleName → Bool → Action (Unit {0})
judge env target id rule broken =
    if broken
    then fire_or_update env (alert_for target id rule)
    else (attempt (AlertRepo.resolve env target id rule) >> pure tt)

unfoldable pub check_hosts : Env → List Host → Action (Unit {0})
check_hosts env [] = pure tt
check_hosts env (h ∷ hs) = do
  now ← read_clock env
  judge env host_target h.id stale_heartbeat (is_stale now h)
  check_hosts env hs

unfoldable pub check_stale_heartbeats : Env → Action (Unit {0})
check_stale_heartbeats env = do
  HostRepo.mark_stale_hosts env threshold
  hosts ← HostRepo.list_hosts env
  check_hosts env hosts

abbrev pub fail_threshold : ℕ
fail_threshold = 3

unfoldable pub check_jobs : Env → List Job → Action (Unit {0})
check_jobs env [] = pure tt
check_jobs env (j ∷ js) = do
  count ← attempt (ExecutionRepo.count_recent_failures env j.id)
  elim count [
    | err e ↦ pure tt
    | ok n ↦ judge env job_target j.id repeated_failures (leb fail_threshold n)
  ]
  check_jobs env js

unfoldable pub check_repeated_failures : Env → Action (Unit {0})
check_repeated_failures env = do jobs ← JobRepo.list_jobs env; check_jobs env jobs

-- An error ends its own rule only.
unfoldable pub run_all : Env → Action (Unit {0})
run_all env = do
  _ ← attempt (check_stale_heartbeats env)
  _ ← attempt (check_repeated_failures env)
  pure tt
