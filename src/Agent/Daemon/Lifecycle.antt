-- ===== src/Agent/Daemon/Lifecycle.antt =====
-- A background agent is started, found and stopped: apps/agent/cmd/agent/main.go.
use dysonsphere.Common.{
  ℕ, suc, ◌≤◌, ◌≡◌, refl, ◌∙◌, Bool, true, false, Option, none, some, List, ◌∷◌, Text, text_eq,
  arith, ap,
}
use dysonsphere.Common.Strings.{trim_space}
use dysonsphere.Common.Assoc.{lookup, lookup-insert, lookup-remove, beq_refl}
use dysonsphere.Server.Api.Query.{ℤ, pos, atoi}
use dysonsphere.Agent.World.{AgentEnv}
use dysonsphere.Agent.Machine.{
  Machine, MachineEnv, Fault, write_pid_failed, killed, already_running, ok, err, sys, read_file,
  write_file, make_dir_failed, start_failed,
}
use dysonsphere.Agent.Machine.Ran.{ran, write_file-written}
use dysonsphere.Agent.Daemon.{
  daemon_arguments, daemon_running, start_detached, stop_daemon, refuse_running, probe_file,
  open_log, start_process,
}

module _ {agent : AgentEnv} (env : MachineEnv) (pid_path : Text) where
  sys-started : (e : Fault) (m : Machine agent) → (sys env e m).1.started ≡ m.started
  unfolding sys
  sys-started e m = ground arith

  probe-started : (o : Option Text) (m : Machine agent) → (probe_file env o m).1.started ≡ m.started
  probe-started none m = refl
  probe-started (some s) m = ground arith

  running-started : (m : Machine agent) → (daemon_running env pid_path m).1.started ≡ m.started
  unfolding daemon_running read_file
  running-started m = probe-started _ _

  refuse-started :
      (found : Bool × ℤ) (m : Machine agent) → (refuse_running env found m).1.started ≡ m.started
  refuse-started (running, pid) m = ground arith

  log-started : (path : Text) (m : Machine agent) → (open_log env path m).1.started ≡ m.started
  log-started path m = ground arith

  process-started :
      (arguments : List Text) (m : Machine agent) (pid : ℕ)
      → (start_process env arguments m).0 ≡ ok pid
      → (start_process env arguments m).1.started ≡ arguments ∷ m.started
  process-started arguments m pid e = ground arith

  write-started :
      (e : Fault) (path s : Text) (m : Machine agent)
      → (write_file env e path s m).1.started ≡ m.started
  unfolding write_file
  write-started e path s m = ground arith

  started_file :
      (config_path log_path : Text) (pid : ℕ) (m : Machine agent)
      → (start_detached env config_path pid_path log_path m).0 ≡ ok pid
      → let after = (start_detached env config_path pid_path log_path m).1 in
        (lookup pid_path after.files ≡ some (env.show_int pid))
        × (after.started ≡ daemon_arguments config_path ∷ m.started)
  unfolding start_detached
  started_file config_path log_path pid m e =
      let r1 = ran (sys env make_dir_failed) _ m pid e in
      let m1 = (sys env make_dir_failed m).1 in
      let r2 = ran (sys env make_dir_failed) _ m1 pid r1.second in
      let m2 = (sys env make_dir_failed m1).1 in
      let r3 = ran (daemon_running env pid_path) _ m2 pid r2.second in
      let m3 = (daemon_running env pid_path m2).1 in
      let r4 = ran (refuse_running env r3.value) _ m3 pid r3.second in
      let m4 = (refuse_running env r3.value m3).1 in
      let r5 = ran (open_log env log_path) _ m4 pid r4.second in
      let m5 = (open_log env log_path m4).1 in
      let r6 = ran (sys env start_failed) _ m5 pid r5.second in
      let m6 = (sys env start_failed m5).1 in
      let r7 = ran (start_process env (daemon_arguments config_path)) _ m6 pid r6.second in
      let m7 = (start_process env (daemon_arguments config_path) m6).1 in
      let r8 =
        ran (write_file env write_pid_failed pid_path (env.show_int r7.value)) _ m7 pid r7.second in
      let m8 = (write_file env write_pid_failed pid_path (env.show_int r7.value) m7).1 in
      let same : r7.value ≡ pid = ground (arith, r8.second) in
      let wrote =
        write_file-written env write_pid_failed pid_path (env.show_int r7.value) m7 r8.first in
      rw (r1.left ∙ r2.left ∙ r3.left ∙ r4.left ∙ r5.left ∙ r6.left ∙ r7.left ∙ r8.left) (
        (rw wrote (rw same (lookup-insert pid_path pid_path _ _ ∙ rw (beq_refl pid_path) refl))),
        write-started write_pid_failed pid_path (env.show_int r7.value) m7
            ∙ process-started (daemon_arguments config_path) m6 r7.value r7.first
            ∙ ap (λ (l : List (List Text)). daemon_arguments config_path ∷ l)
                (sys-started start_failed m5
                  ∙ log-started log_path m4
                  ∙ refuse-started r3.value m3
                  ∙ running-started m2
                  ∙ sys-started make_dir_failed m1
                  ∙ sys-started make_dir_failed m),
      )

-- The pid file names a process that answers to signals, and from here on no system call fails.
record Alive {agent : AgentEnv} (env : MachineEnv) (pid_path : Text) (pid : ℕ) (m : Machine agent)
    : Type 0 where
  there : lookup pid_path m.files ≡ some (env.show_int pid)
  read : atoi (trim_space (env.show_int pid)) ≡ (pos pid, true)
  up : (n : ℕ) → m.world.steps ≤ n → env.fails n ≡ false
  answers : (n : ℕ) → m.world.steps ≤ n → env.kill n (pos pid) ≡ killed

module _ {agent : AgentEnv} (env : MachineEnv) (pid_path : Text) (pid : ℕ) where
  Alive-running :
      (m : Machine agent)
      → Alive env pid_path pid m
      → (daemon_running env pid_path m).0 ≡ ok (true, pos pid)
  unfolding daemon_running read_file
  Alive-running m a =
      let n = m.world.steps in
      rw (a.up n (omega arith), a.there, a.read, a.answers (suc n) (omega arith)) refl

  Alive-refused :
      (config_path log_path : Text) (m : Machine agent)
      → Alive env pid_path pid m
      → let again = start_detached env config_path pid_path log_path m in
        (again.0 ≡ err (already_running (pos pid))) × (again.1.started ≡ m.started)
  unfolding start_detached sys daemon_running read_file
  Alive-refused config_path log_path m a =
      let n = m.world.steps in
      rw
        (
          a.up n (omega arith),
          a.up (suc n) (omega arith),
          a.up (suc (suc n)) (omega arith),
          a.there,
          a.read,
          a.answers (suc (suc (suc n))) (omega arith),
        )
        (refl, refl)

  Alive-stopped :
      (m : Machine agent)
      → Alive env pid_path pid m
      → let stop = stop_daemon env pid_path m in
        (stop.0 ≡ ok (pos pid))
        × (stop.1.terminated ≡ pos pid ∷ m.terminated)
        × ((daemon_running env pid_path stop.1).0 ≡ ok (false, pos 0))
  unfolding stop_daemon daemon_running read_file
  Alive-stopped m a =
      let n = m.world.steps in
      rw
        (
          a.up n (omega arith),
          a.there,
          a.read,
          a.answers (suc n) (omega arith),
          a.up (suc (suc n)) (omega arith),
          a.up (suc (suc (suc n))) (omega arith),
          lookup-remove pid_path pid_path m.files,
          beq_refl pid_path,
        )
        (refl, refl, refl)

-- A start in the background that succeeds starts one process. While the pid that it gave answers to
-- signals and no system call fails, the agent is then found running under this pid, a second start is
-- refused and starts no process, and a stop sends the signal to the pid, after which the agent is not
-- found running: where its decimal text is read back as it was written.
pub daemon_lifecycle :
    {agent : AgentEnv} (env : MachineEnv) (config_path pid_path log_path : Text) (pid : ℕ)
    (m : Machine agent)
    → atoi (trim_space (env.show_int pid)) ≡ (pos pid, true)
    → let start = start_detached env config_path pid_path log_path m in
      start.0 ≡ ok pid
      → ((n : ℕ) → start.1.world.steps ≤ n → env.fails n ≡ false)
      → ((n : ℕ) → start.1.world.steps ≤ n → env.kill n (pos pid) ≡ killed)
      → let again = start_detached env config_path pid_path log_path start.1 in
        let stop = stop_daemon env pid_path start.1 in
        (start.1.started ≡ daemon_arguments config_path ∷ m.started)
        × ((daemon_running env pid_path start.1).0 ≡ ok (true, pos pid))
        × (again.0 ≡ err (already_running (pos pid)))
        × (again.1.started ≡ start.1.started)
        × (stop.0 ≡ ok (pos pid))
        × (stop.1.terminated ≡ pos pid ∷ start.1.terminated)
        × ((daemon_running env pid_path stop.1).0 ≡ ok (false, pos 0))
daemon_lifecycle env config_path pid_path log_path pid m prints e up answers =
    let after = (start_detached env config_path pid_path log_path m).1 in
    let (file, started) = started_file env pid_path config_path log_path pid m e in
    let a : Alive env pid_path pid after = record {
      there = file;
      read = prints;
      up = up;
      answers = answers;
    } in
    let (refused, same) = Alive-refused env pid_path pid config_path log_path after a in
    let (stopped, signalled, gone) = Alive-stopped env pid_path pid after a in
    (started, Alive-running env pid_path pid after a, refused, same, stopped, signalled, gone)
