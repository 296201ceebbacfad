-- ===== src/Agent/App.antt =====
-- The observation of jobs by the agent: apps/agent/internal/app/app.go. The memory of the agent is
-- passed on beside its world.
pub mod Active
pub mod Events
pub mod Remote
pub mod Tests
use dysonsphere.Common.{
  ℕ, suc, Bool, true, false, Option, none, some, List, [], ◌∷◌, ◌++◌, map, Text, text_eq, nat_eq,
  ◌==◌, if◌then◌else◌,
}
use dysonsphere.Common.Assoc.{Assoc, lookup, insert, remove}
use dysonsphere.Common.Tables.{exists_row}
use dysonsphere.Common.Strings.{codes, is_some}
use dysonsphere.Server.Domain.{
  Json, Float64, number, text, array, object, Items, no_item, item, Fields, no_field, field,
}
use dysonsphere.Agent.World.{
  AgentEnv, StoredJob, LocalExecution, Action, pure, ◌>>=◌, ◌>>◌, ask, request, clock, new_uuid,
}
use dysonsphere.Agent.Store.{save_job, save_local_execution}
use dysonsphere.Agent.Discovery.{DiscoveredJob}
use dysonsphere.Agent.Process.{ProcessSnapshot, MatchedProcess, match_jobs}
use dysonsphere.Agent.Reporter.{buffer_execution}
use Events.{note, started_event, gone_event, discovery_payload}

pub record ActiveExecution : Type 0 where
  pub local_id : Text
  pub job_hash : Text
  pub command : Text
  pub schedule : Text
  pub started_at : ℕ
  pub confidence : Float64
  pub pid : ℕ

-- The maps of an `Agent`.
pub record Memory : Type 0 where
  pub known_jobs : Assoc Text DiscoveredJob
  pub active_jobs : Assoc ℕ ActiveExecution

-- current[pid]
abbrev pub is_current : List MatchedProcess → ℕ → Bool
is_current matched pid = exists_row (λ m. m.process.pid == pid) matched

-- `knownJobsForMatch`
abbrev pub command_of : Text × DiscoveredJob → Text × Text
command_of (hash, job) = (hash, job.normalized_command)

module _ (env : AgentEnv) where
  -- An error is logged only.
  abbrev pub save_run : LocalExecution → Action env (Unit {0})
  save_run exec = save_local_execution env exec >> pure tt

  abbrev stored_job : DiscoveredJob → StoredJob
  stored_job j = record {
    command_hash = j.command_hash;
    schedule = j.schedule;
    timezone = j.timezone;
    user = j.user;
    raw_command = j.raw_command;
    normalized_command = j.normalized_command;
    source_file = j.source_file;
    updated_at = 0;
  }

  -- The loop over the jobs of a scan.
  unfoldable pub remember_jobs :
      List DiscoveredJob → Assoc Text DiscoveredJob → Action env (Assoc Text DiscoveredJob)
  remember_jobs [] known = pure known
  remember_jobs (j ∷ jobs) known = do
    save_job env (stored_job j)
    remember_jobs jobs (insert j.command_hash j known)

  -- The scan of the crontabs gives no job list on an error; an error of the request is logged only.
  unfoldable pub run_discovery : Option (List DiscoveredJob) → Memory → Action env Memory
  run_discovery none mem = pure mem
  run_discovery (some jobs) mem = do
    known ← remember_jobs jobs mem.known_jobs
    request env
    pure (record mem { known_jobs = known })

  abbrev running_run : Text → MatchedProcess → DiscoveredJob → LocalExecution
  running_run id m job = record {
    id = id;
    job_id = [];
    command_hash = m.job_hash;
    command = job.raw_command;
    schedule = job.schedule;
    status = codes "running";
    trigger = codes "detected-process";
    confidence_score = m.confidence;
    started_at = m.process.create_time;
    finished_at = none;
    duration_seconds = none;
    pid = some m.process.pid;
    exit_code = none;
    evidence = object (
        field (codes "ppid") (number (env.show_int m.process.ppid))
          (field (codes "note") (text m.evidence) no_field));
    last_updated_at = 0;
  }

  abbrev pub active_of : Text → MatchedProcess → DiscoveredJob → ActiveExecution
  active_of id m job = record {
    local_id = id;
    job_hash = m.job_hash;
    command = job.raw_command;
    schedule = job.schedule;
    started_at = m.process.create_time;
    confidence = m.confidence;
    pid = m.process.pid;
  }

  abbrev ActiveJobs : Type 0
  ActiveJobs = Assoc ℕ ActiveExecution

  -- What is done for a process that is not active yet, and whose job may be known.
  abbrev pub start_job : MatchedProcess → Option DiscoveredJob → ActiveJobs → Action env ActiveJobs
  start_job m none active = pure active
  start_job m (some job) active = do
    id ← new_uuid env
    save_run (running_run id m job)
    buffer_execution env id (started_event env m)
    pure (insert m.process.pid (active_of id m job) active)

  -- One round of the loop over the matches.
  unfoldable pub start_one :
      Assoc Text DiscoveredJob → MatchedProcess → ActiveJobs → Action env ActiveJobs
  start_one known m active =
      if is_some (lookup m.process.pid active)
      then pure active
      else start_job m (lookup m.job_hash known) active

  unfoldable pub start_all :
      Assoc Text DiscoveredJob → List MatchedProcess → ActiveJobs → Action env ActiveJobs
  start_all known [] active = pure active
  start_all known (m ∷ ms) active = do next ← start_one known m active; start_all known ms next

  abbrev partial_run : ℕ → ActiveExecution → LocalExecution
  partial_run now a = record {
    id = a.local_id;
    job_id = [];
    command_hash = a.job_hash;
    command = a.command;
    schedule = a.schedule;
    status = codes "partial";
    trigger = codes "detected-process";
    confidence_score = a.confidence;
    started_at = a.started_at;
    finished_at = some now;
    duration_seconds = some (env.seconds a.started_at now);
    pid = none;
    exit_code = none;
    evidence = note (codes "process disappeared; completion inferred");
    last_updated_at = 0;
  }

  -- What is done for an active execution whose process is gone.
  unfoldable pub finish_one : ℕ → ℕ → ActiveExecution → ActiveJobs → Action env ActiveJobs
  finish_one now pid a active = do
    save_run (partial_run now a)
    id ← new_uuid env
    buffer_execution env id (gone_event env a.job_hash a.started_at now a.confidence)
    pure (remove pid active)

  -- The loop over the active executions, in the order in which the map is gone through.
  unfoldable pub finish_all :
      List MatchedProcess → ℕ → List (ℕ × ActiveExecution) → ActiveJobs → Action env ActiveJobs
  finish_all matched now [] active = pure active
  finish_all matched now ((pid, a) ∷ rest) active = do
    next ← if is_current matched pid then pure active else finish_one now pid a active
    finish_all matched now rest next

  -- The order of the map, anew for each snapshot.
  unfoldable pub with_orders :
      Assoc Text Text → ℕ → List ProcessSnapshot → List (ProcessSnapshot × Assoc Text Text)
  with_orders jobs n [] = []
  with_orders jobs n (snap ∷ snaps) = (snap, env.visit n jobs) ∷ with_orders jobs (suc n) snaps

  abbrev pub scanned : Memory → Option (List MatchedProcess) → Action env (Option Memory)
  scanned mem none = pure none
  scanned mem (some matched) = do
    active ← start_all mem.known_jobs matched mem.active_jobs
    now ← clock env
    order ← ask λ n. env.visit n active
    left ← finish_all matched now order active
    pure (some (record mem { active_jobs = left }))

  -- The snapshots are absent after an error; the result is, if the matching panics.
  unfoldable pub run_process_scan :
      Option (List ProcessSnapshot) → Memory → Action env (Option Memory)
  run_process_scan none mem = pure (some mem)
  run_process_scan (some snaps) mem = do
    n ← ask λ n. n
    scanned mem (match_jobs env.quote (with_orders (map command_of mem.known_jobs) n snaps))
