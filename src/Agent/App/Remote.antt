-- ===== src/Agent/App/Remote.antt =====
-- The commands of the server, the mails and the rounds of the main loop:
-- apps/agent/internal/app/app.go. The commands that were claimed run one after the other here; each
-- is a goroutine of its own in the program.
pub mod Rescan
use dysonsphere.Common.{
  ℕ, Bool, ◌||◌, Option, none, some, List, [], ◌∷◌, ◌++◌, Text, text_eq, nat_eq, ◌==◌,
  if◌then◌else◌,
}
use dysonsphere.Common.Assoc.{Assoc}
use dysonsphere.Common.Strings.{codes, is_empty, contains, trim_space}
use dysonsphere.Server.Domain.{text}
use dysonsphere.Agent.World.{
  AgentEnv, LocalExecution, Action, pure, ◌>>=◌, ◌>>◌, ask, request, clock, new_uuid,
}
use dysonsphere.Agent.Store.{get_meta, set_meta}
use dysonsphere.Agent.MailSpool.{MailEnv, CronMailMessage, Spool, Reading, read_new}
use dysonsphere.Agent.Discovery.{DiscoveredJob}
use dysonsphere.Agent.Process.{ProcessSnapshot}
use dysonsphere.Agent.Reporter.{buffer_execution, buffer_metric, flush_executions, flush_metrics}
use dysonsphere.Agent.App.{Memory, save_run, run_discovery, run_process_scan}
use dysonsphere.Agent.App.Events.{object_of, mail_event, remote_event, ProbeResult, probe_event}

-- A run that the server has queued.
pub record RunCommand : Type 0 where
  pub id : Text
  pub host_id : Text
  pub job_id : Text
  pub command_hash : Text
  pub raw_command : Text
  pub schedule : Text
  pub requested_at : ℕ

pub record Outcome : Type 0 where
  pub status : Text
  pub message : Text
  pub exit_code : Option ℕ

-- The tickers of the main loop, with what the round reads from outside: the crontabs' jobs, the
-- processes, the results of the probes, the answer of the server, and the mail spools.
pub data Tick : Type 1 where
  heartbeat_tick : Tick
  discovery_tick : Option (List DiscoveredJob) → Tick
  process_tick : Option (List ProcessSnapshot) → Tick
  report_tick : List ProbeResult → Tick
  command_tick : List RunCommand → Tick
  mail_tick : MailEnv → (Text → Spool) → List Text → Tick

abbrev pub outcome_of : Option (Text × Option ℕ) → Outcome
outcome_of none = record {
  status = codes "success";
  message = codes "completed";
  exit_code = some 0;
}
outcome_of (some (error, code)) = record {
  status = codes "failed";
  message = error;
  exit_code = code;
}

module _ (env : AgentEnv) where
  abbrev begun_run : Text → ℕ → RunCommand → LocalExecution
  begun_run id started cmd = record {
    id = id;
    job_id = cmd.job_id;
    command_hash = cmd.command_hash;
    command = cmd.raw_command;
    schedule = cmd.schedule;
    status = codes "running";
    trigger = codes "server-triggered";
    confidence_score = 0;
    started_at = started;
    finished_at = none;
    duration_seconds = none;
    pid = none;
    exit_code = none;
    evidence = object_of (
        (codes "command_id", text cmd.id)
        ∷ (codes "requested_at", text (env.json_time cmd.requested_at))
        ∷ []);
    last_updated_at = 0;
  }

  abbrev ended_run : Text → ℕ → ℕ → Outcome → RunCommand → LocalExecution
  ended_run id started finished out cmd = record {
    id = id;
    job_id = cmd.job_id;
    command_hash = cmd.command_hash;
    command = cmd.raw_command;
    schedule = cmd.schedule;
    status = out.status;
    trigger = codes "server-triggered";
    confidence_score = 0;
    started_at = started;
    finished_at = some finished;
    duration_seconds = some (env.seconds started finished);
    pid = none;
    exit_code = out.exit_code;
    evidence = object_of ((codes "command_id", text cmd.id) ∷ []);
    last_updated_at = 0;
  }

  -- The last request tells the server of the outcome; its error is logged only.
  unfoldable pub execute_run_command : RunCommand → Action env Outcome
  execute_run_command cmd = do
    started ← clock env
    id ← new_uuid env
    save_run env (begun_run id started cmd)
    result ← ask λ n. env.shell n cmd.raw_command
    finished ← clock env
    save_run env (ended_run id started finished (outcome_of result.error) cmd)
    event_id ← new_uuid env
    buffer_execution env event_id (
        remote_event env cmd.id cmd.job_id cmd.command_hash started finished
          (outcome_of result.error).status result.output (outcome_of result.error).exit_code)
    flush_executions env
    request env
    pure (outcome_of result.error)

  unfoldable pub execute_all : List RunCommand → Action env (Unit {0})
  execute_all [] = pure tt
  execute_all (cmd ∷ cmds) = do execute_run_command cmd; execute_all cmds

  -- `claimed` is what the server gives in answer, which counts only if the request succeeds.
  unfoldable pub poll_commands : List RunCommand → Action env (Unit {0})
  poll_commands claimed = do ok ← request env; if ok then execute_all claimed else pure tt

  -- The mail and the job name each other, or are the same command but for case and outer space.
  abbrev pub correlates : CronMailMessage → DiscoveredJob → Bool
  correlates msg job =
      contains job.normalized_command msg.command
      || contains msg.command job.normalized_command
      || env.equal_fold (trim_space msg.command) (trim_space job.raw_command)

  -- The first job that correlates, in the order in which the map is gone through.
  unfoldable pub correlate : CronMailMessage → List (Text × DiscoveredJob) → Text
  correlate msg [] = []
  correlate msg ((hash, job) ∷ jobs) = if correlates msg job then hash else correlate msg jobs

  unfoldable pub process_mail_message :
      Assoc Text DiscoveredJob → CronMailMessage → Action env (Unit {0})
  process_mail_message known msg = do
    jobs ← ask λ n. env.visit n known
    id ← new_uuid env
    buffer_execution env id (mail_event env msg (correlate msg jobs))

  unfoldable pub process_mails :
      Assoc Text DiscoveredJob → List CronMailMessage → Action env (Unit {0})
  process_mails known [] = pure tt
  process_mails known (msg ∷ msgs) = do process_mail_message known msg; process_mails known msgs

  abbrev pub offset_key : Text → Text
  offset_key path = codes "mailspool_offset:" ++ path

  -- An error of the settings leaves the text empty, and a text that is no number the offset 0.
  abbrev pub offset_of : Option Text → ℕ
  offset_of none = 0
  offset_of (some s) = env.scan_int s

  abbrev pub save_offset : Text → ℕ → ℕ → Action env (Unit {0})
  save_offset path old new =
      if new == old then pure tt else (set_meta env (offset_key path) (env.show_int new) >> pure tt)

  -- An error of the reading ends the round.
  abbrev pub read_mails : Assoc Text DiscoveredJob → Text → ℕ → Reading → Action env (Unit {0})
  read_mails known path old r =
      if r.failed then pure tt else do save_offset path old r.offset; process_mails known r.messages

  -- A reading of the spool, whose readings of the agent's clock are steps.
  abbrev pub read_spool : MailEnv → Spool → ℕ → Action env Reading
  read_spool mail file old w =
      let (reading, later) = read_new (record mail { now = env.now }) file old w.steps in
      (reading, record w { steps = later })

  -- One round of the loop over the paths, with the file of the path.
  unfoldable pub scan_spool :
      MailEnv → Assoc Text DiscoveredJob → Text → Spool → Action env (Unit {0})
  scan_spool mail known path file = do
    stored ← get_meta env (offset_key path)
    reading ← read_spool mail file (offset_of stored)
    read_mails known path (offset_of stored) reading

  unfoldable pub scan_spools :
      MailEnv → Assoc Text DiscoveredJob → (Text → Spool) → List Text → Action env (Unit {0})
  scan_spools mail known files [] = pure tt
  scan_spools mail known files (path ∷ paths) = do
    scan_spool mail known path (files path)
    scan_spools mail known files paths

  unfoldable pub run_mail_scan :
      MailEnv → Assoc Text DiscoveredJob → (Text → Spool) → List Text → Action env (Unit {0})
  run_mail_scan mail known files paths =
      scan_spools mail known files (
        if is_empty paths
        then codes "/var/mail/root" ∷ codes "/var/spool/mail/root" ∷ []
        else paths)

  -- The results of the probes, which are run outside of the model.
  unfoldable pub report_probes : List ProbeResult → Action env (Unit {0})
  report_probes [] = pure tt
  report_probes (r ∷ rs) = do
    id ← new_uuid env
    buffer_metric env id (probe_event env r)
    report_probes rs

  -- What a round of the main loop does, by the ticker that fires.
  unfoldable pub round : Tick → Memory → Action env (Option Memory)
  round heartbeat_tick mem = request env >> pure (some mem)
  round (discovery_tick jobs) mem = run_discovery env jobs mem >>= λ m. pure (some m)
  round (process_tick snaps) mem = run_process_scan env snaps mem
  round (report_tick results) mem =
      flush_executions env >> (flush_metrics env >> (report_probes results >> pure (some mem)))
  round (command_tick claimed) mem = poll_commands claimed >> pure (some mem)
  round (mail_tick mail files paths) mem =
      run_mail_scan mail mem.known_jobs files paths >> pure (some mem)
