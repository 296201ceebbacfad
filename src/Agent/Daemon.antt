-- ===== src/Agent/Daemon.antt =====
-- The background process of the agent: the commands `run` and `daemon` of
-- apps/agent/cmd/agent/main.go.
pub mod Lifecycle
mod Tests
use dysonsphere.Common.{
  ℕ, Bool, true, false, not, ◌&&◌, ◌||◌, Option, none, some, List, [], ◌∷◌, ◌++◌, Text, text_eq,
  if◌then◌else◌,
}
use dysonsphere.Common.Strings.{codes, is_empty, trim_space, contains}
use dysonsphere.Common.Assoc.{lookup, insert, remove}
use dysonsphere.Server.Api.Query.{ℤ, pos, atoi}
use dysonsphere.Agent.World.{AgentEnv}
use dysonsphere.Agent.Machine.{
  Machine, MachineEnv, Kill, killed, no_process, not_permitted, Fault, open_config, parse_config,
  open_credential, parse_credential, credential_empty, make_dir_failed, open_log_failed,
  start_failed, write_pid_failed, already_running, read_pid_failed, pid_malformed, kill_failed,
  Result, ok, err, Action, pure, raise, ◌>>=◌, ◌>>◌, tick, ask, try, sys, read_file, write_file,
}
use dysonsphere.Agent.Config.{Config, Yamls, load}
use dysonsphere.Agent.Paths.{default_value, state_dir}
use dysonsphere.Agent.Setup.{ensure_config, default_config_path}

abbrev base_dir : Option Config → Text
base_dir none = codes "/var/lib/observer-agent"
base_dir (some cfg) =
    if is_empty cfg.agent.state_file
    then codes "/var/lib/observer-agent"
    else state_dir cfg.agent.state_file

-- The paths of the pid file and of the log.
unfoldable pub daemon_paths : Option Config → Text → Text → Text × Text
daemon_paths cfg pid_override log_override = (
  default_value pid_override (base_dir cfg ++ codes "/observer-agent.pid"),
  default_value log_override (base_dir cfg ++ codes "/observer-agent.log"),
)

-- The errors that are taken for a configuration that does not exist: os.ErrNotExist, and those whose
-- message contains "open config".
unfoldable pub is_missing : Fault → Bool
is_missing (open_config absent) = true
is_missing (open_credential path absent) = absent || contains (codes "open config") path
is_missing (credential_empty path) = contains (codes "open config") path
is_missing (parse_config message) = contains (codes "open config") message
is_missing (parse_credential message) = contains (codes "open config") message
is_missing _ = false

abbrev pub loaded_or_missing : {agent : AgentEnv} → Result Config → Action agent (Option Config)
loaded_or_missing (ok cfg) = pure (some cfg)
loaded_or_missing (err e) = if is_missing e then pure none else raise e

abbrev file_or_empty : Option Text → Text
file_or_empty none = []
file_or_empty (some s) = s

abbrev pub has_process : Kill → Bool
has_process killed = true
has_process no_process = false
has_process not_permitted = false

-- The arguments of the process that is started.
abbrev pub daemon_arguments : Text → List Text
daemon_arguments config_path =
    codes "run" ∷ codes "--config" ∷ config_path ∷ codes "--foreground" ∷ []

module _ {agent : AgentEnv} (env : MachineEnv) where
  unfoldable pub load_config_if_exists : Yamls → Text → Action agent (Option Config)
  load_config_if_exists yaml path m = let (r, m') = load env yaml path m in loaded_or_missing r m'

  -- A pid that is no process, or one that must not be signalled, counts as not running.
  abbrev pub probe_pid : ℤ × Bool → Action agent (Bool × ℤ)
  probe_pid (pid, fine) =
      if fine then (ask (λ n. (has_process (env.kill n pid), pid))) else pure (false, pos 0)

  abbrev probe_file : Option Text → Action agent (Bool × ℤ)
  probe_file none = pure (false, pos 0)
  probe_file (some s) = probe_pid (atoi (trim_space s))

  unfoldable pub daemon_running : Text → Action agent (Bool × ℤ)
  daemon_running pid_path = do found ← read_file env pid_path; probe_file found

  abbrev signalled : ℤ → Kill → Action agent (Unit {0})
  signalled pid killed m = (ok tt, record m { terminated = pid ∷ m.terminated })
  signalled pid no_process m = (ok tt, m)
  signalled pid not_permitted m = (err kill_failed, m)

  -- An error of the removal is dropped.
  abbrev remove_file : Text → Action agent (Unit {0})
  remove_file path m = (
    ok tt,
    if env.fails m.world.steps
        then tick m
        else record (tick m) { files = remove path m.files; stores = remove path m.stores },
  )

  abbrev terminate : Text → ℤ × Bool → Action agent ℤ
  terminate pid_path (pid, fine) =
      if fine
      then (do
        outcome ← ask (λ n. env.kill n pid)
        signalled pid outcome
        remove_file pid_path
        pure pid)
      else raise pid_malformed

  abbrev stop_file : Text → Option Text → Action agent ℤ
  stop_file pid_path none = raise read_pid_failed
  stop_file pid_path (some s) = terminate pid_path (atoi (trim_space s))

  -- The pid to which the signal was sent.
  unfoldable pub stop_daemon : Text → Action agent ℤ
  stop_daemon pid_path = do found ← read_file env pid_path; stop_file pid_path found

  -- The log is created if it is not there, and appended to.
  abbrev open_log : Text → Action agent (Unit {0})
  open_log path m = if env.fails m.world.steps then (err open_log_failed, tick m) else (
    ok tt,
    record (tick m) { files = insert path (file_or_empty (lookup path m.files)) m.files },
  )

  abbrev start_process : List Text → Action agent ℕ
  start_process arguments m =
      if env.fails m.world.steps
      then (err start_failed, tick m)
      else (ok (env.pid m.world.steps), record (tick m) { started = arguments ∷ m.started })

  abbrev refuse_running : Bool × ℤ → Action agent (Unit {0})
  refuse_running (running, pid) = if running then raise (already_running pid) else pure tt

  -- The pid of the process that was started.
  unfoldable pub start_detached : Text → Text → Text → Action agent ℕ
  start_detached config_path pid_path log_path = do
    sys env make_dir_failed
    sys env make_dir_failed
    found ← daemon_running pid_path
    refuse_running found
    open_log log_path
    sys env start_failed
    pid ← start_process (daemon_arguments config_path)
    write_file env write_pid_failed pid_path (env.show_int pid)
    pure pid

  module _ (yaml : Yamls) where
    -- The configuration with which the main loop runs in this process, if it does.
    unfoldable pub run_command : Text → Bool → Bool → Text → Text → Action agent (Option Config)
    run_command config_path daemon foreground pid_file log_file = do
      ensure_config env yaml config_path
      cfg ← load env yaml config_path
      if daemon && not foreground
          then (do
            let paths = daemon_paths (some cfg) pid_file log_file
            start_detached config_path paths.0 paths.1
            pure none)
          else pure (some cfg)

    -- The command without a subcommand.
    unfoldable pub root_command : Action agent Config
    root_command = do ensure_config env yaml default_config_path; load env yaml default_config_path

    -- The pid, if the agent is running.
    unfoldable pub status_command : Text → Text → Text → Action agent (Bool × ℤ)
    status_command config_path pid_file log_file = do
      cfg ← load_config_if_exists yaml config_path
      daemon_running (daemon_paths cfg pid_file log_file).0

    unfoldable pub stop_command : Text → Text → Text → Action agent ℤ
    stop_command config_path pid_file log_file = do
      cfg ← load_config_if_exists yaml config_path
      stop_daemon (daemon_paths cfg pid_file log_file).0
