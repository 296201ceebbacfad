-- ===== src/Server/Service/ExecutionService.antt =====
-- apps/server/internal/service/execution.go
use dysonsphere.Common.{ℕ, Option, none, some, List, [], ◌∷◌, Text, text_eq, ◌==◌, if◌then◌else◌}
use dysonsphere.Common.Strings.{codes, is_empty}
use dysonsphere.Server.Domain.{Execution, Job, Json, text, object, Fields, no_field, field}
use dysonsphere.Server.Store.{Env, Result, ok, err, Action, pure, attempt, ◌>>=◌, ◌>>◌}
use dysonsphere.Server.Repository.ExecutionRepo
use dysonsphere.Server.Repository.JobRepo
use dysonsphere.Server.Service.DiscoveryService.{keep_ok}

-- A key of a decoded object: the last of its fields with that name.
unfoldable pub get_field : Text → Fields → Option Json
get_field k no_field = none
get_field k (field j v fs) =
    let rest = get_field k fs in
    elim rest [ none ↦ if j == k then some v else none | some w ↦ some w ]

abbrev text_or_empty : Option Json → Text
text_or_empty (some (text s)) = s
text_or_empty _ = []

unfoldable pub command_hash_from_evidence : Option Json → Text
command_hash_from_evidence (some (object fs)) = text_or_empty (get_field (codes "command_hash") fs)
command_hash_from_evidence _ = []

abbrev pub link : Result Job → Execution → Execution
link (ok job) e = record e { job_id = some job.id }
link (err x) e = e

-- The job of an event that names none: by the command hash in its evidence.
unfoldable pub find_job : Env → Text → Execution → Action Execution
find_job env host_id e = elim e.job_id [
  | some id ↦ pure e
  | none ↦
      let hash = command_hash_from_evidence e.evidence in
      if is_empty hash
      then pure e
      else (attempt (JobRepo.get_by_host_and_hash env host_id hash) >>= λ r. pure (link r e))
]

abbrev last_run : Execution → Option ℕ
last_run e = elim e.detected_started_at [ some t ↦ some t | none ↦ e.scheduled_at ]

unfoldable pub update_job_state : Env → Execution → Action (Unit {0})
update_job_state env e = elim e.job_id [
  | none ↦ pure tt
  | some id ↦ ExecutionRepo.count_recent_failures env id >>= λ fails.
      JobRepo.upsert_current_state env id e.host_id e.status (last_run e) none fails
]

-- What follows a successful insert; an error is logged only.
abbrev pub refresh : Env → Result Execution → Action (Unit {0})
refresh env (ok saved) = attempt (update_job_state env saved) >> pure tt
refresh env (err x) = pure tt

-- One round of the loop.
unfoldable pub report_one : Env → Text → Execution → Action (Result Execution)
report_one env host_id e = do
  linked ← find_job env host_id (record e { host_id = host_id })
  saved ← attempt (ExecutionRepo.insert env linked)
  refresh env saved
  pure saved

unfoldable pub batch_report : Env → Text → List Execution → Action (List Execution)
batch_report env host_id [] = pure []
batch_report env host_id (e ∷ es) = do
  saved ← report_one env host_id e
  rest ← batch_report env host_id es
  pure (keep_ok saved rest)

unfoldable pub list_by_job : Env → Text → ℕ → Action (List Execution)
list_by_job env job_id limit = ExecutionRepo.list_by_job env job_id limit
