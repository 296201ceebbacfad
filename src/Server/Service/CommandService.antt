-- ===== src/Server/Service/CommandService.antt =====
-- apps/server/internal/service/command.go
use dysonsphere.Common.{
  ℕ, Bool, true, false, Option, none, List, [], ◌∷◌, Text, text_eq, ◌==◌, if◌then◌else◌,
}
use dysonsphere.Common.Strings.{codes}
use dysonsphere.Server.Domain.{
  AgentCommand, AgentCommandStatus, pending, dispatched, success, failed, other, Job,
}
use dysonsphere.Server.Store.{Env, wrong_host, bad_status, Action, pure, raise, ◌>>=◌}
use dysonsphere.Server.Repository.CommandRepo
use dysonsphere.Server.Repository.JobRepo.{get_by_id}

-- The fields that the database fills in are left at Go's zero values.
abbrev pub queued : Text → Job → AgentCommand
queued host_id job = record {
  id = [];
  host_id = host_id;
  job_id = job.id;
  command_hash = job.command_hash;
  raw_command = job.raw_command;
  schedule = job.schedule;
  status = pending;
  message = codes "queued by server";
  exit_code = none;
  requested_at = 0;
  dispatched_at = none;
  started_at = none;
  finished_at = none;
}

-- One round of the loop.
unfoldable pub enqueue_run : Env → Text → Text → Action AgentCommand
enqueue_run env host_id job_id = do
  job ← get_by_id env job_id
  if job.host_id == host_id then CommandRepo.insert env (queued host_id job) else raise wrong_host

unfoldable pub enqueue_runs : Env → Text → List Text → Action (List AgentCommand)
enqueue_runs env host_id [] = pure []
enqueue_runs env host_id (job_id ∷ ids) = do
  cmd ← enqueue_run env host_id job_id
  cmds ← enqueue_runs env host_id ids
  pure (cmd ∷ cmds)

unfoldable pub claim_pending : Env → Text → ℕ → Action (List AgentCommand)
claim_pending env host_id limit = CommandRepo.claim_pending env host_id limit

-- domain.AgentCommandStatus(s)
unfoldable pub status_of : Text → AgentCommandStatus
status_of s =
    if s == codes "pending"
    then pending
    else if s == codes "dispatched"
    then dispatched
    else if s == codes "success"
    then success
    else if s == codes "failed"
    then failed
    else other s

abbrev pub is_final : AgentCommandStatus → Bool
is_final success = true
is_final failed = true
is_final _ = false

unfoldable pub complete :
    Env → Text → Text → Text → Option ℕ → Option ℕ → Option ℕ → Action (Unit {0})
complete env id status message started finished code =
    if is_final (status_of status)
    then CommandRepo.complete env id (status_of status) message started finished code
    else raise bad_status
