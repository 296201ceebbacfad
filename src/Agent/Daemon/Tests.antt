-- ===== src/Agent/Daemon/Tests.antt =====
-- A background agent on a small machine.
use dysonsphere.Common.{◌≡◌, refl, true, false, [], ◌∷◌}
use dysonsphere.Common.Strings.{codes, trim_space, is_space}
use dysonsphere.Common.Assoc.{lookup}
use dysonsphere.Server.Api.Query.{pos, atoi, digits}
use dysonsphere.Agent.Machine.{already_running, ok, err, sys, read_file, write_file}
use dysonsphere.Agent.Setup.Tests.{machine_env, machine}
use dysonsphere.Agent.Daemon.{daemon_arguments, daemon_running, start_detached, stop_daemon}
use dysonsphere.Agent.Daemon.Lifecycle.{daemon_lifecycle}

read_seven : atoi (trim_space (codes "7")) ≡ (pos 7, true)
unfolding atoi digits trim_space is_space
read_seven = refl

started_seven : (start_detached machine_env (codes "/c") (codes "/p") (codes "/l") machine).0 ≡ ok 7
unfolding start_detached sys daemon_running read_file write_file lookup
started_seven = refl

daemon_lifecycle_example :
    let start = start_detached machine_env (codes "/c") (codes "/p") (codes "/l") machine in
    let again = start_detached machine_env (codes "/c") (codes "/p") (codes "/l") start.1 in
    let stop = stop_daemon machine_env (codes "/p") start.1 in
    (start.1.started ≡ daemon_arguments (codes "/c") ∷ [])
    × ((daemon_running machine_env (codes "/p") start.1).0 ≡ ok (true, pos 7))
    × (again.0 ≡ err (already_running (pos 7)))
    × (again.1.started ≡ start.1.started)
    × (stop.0 ≡ ok (pos 7))
    × (stop.1.terminated ≡ pos 7 ∷ start.1.terminated)
    × ((daemon_running machine_env (codes "/p") stop.1).0 ≡ ok (false, pos 0))
daemon_lifecycle_example =
    daemon_lifecycle machine_env (codes "/c") (codes "/p") (codes "/l") 7 machine read_seven
      started_seven (λ n h. refl) (λ n h. refl)
