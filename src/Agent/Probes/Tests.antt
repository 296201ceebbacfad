-- ===== src/Agent/Probes/Tests.antt =====
-- A run of two probes.
use dysonsphere.Common.{◌≡◌, refl, true, none, some, List, [], ◌∷◌, map, text_beq, All}
use dysonsphere.Common.Strings.{codes}
use dysonsphere.Server.Api.Query.{pos}
use dysonsphere.Agent.Config.{ProbeConfig}
use dysonsphere.Agent.App.Events.{ProbeResult}
use dysonsphere.Agent.Probes.{
  ProbeEnv, counted, modified, not_run, scanned, run_one, run_all, run_sql_count_probe,
  run_file_freshness_probe, run_command_probe,
}
use dysonsphere.Agent.Probes.Accepted.{IsAccepted, run_all-IsAccepted}

-- Every table is empty, every file is old, and no command runs.
abbrev env : ProbeEnv
env = record {
  now = λ n. n;
  query = λ n q. counted 0;
  stat = λ n path. modified 5;
  run = λ n c. not_run (codes "no such file");
  age = λ n t. 100;
  exceeds = λ v m. true;
  scan = λ s. scanned 0;
  rfc3339 = λ n. [];
  show_float = λ v. [];
  show_int = λ n. [];
}

abbrev probe : ProbeConfig
probe = record {
  name = codes "rows";
  kind = codes "sql_count";
  schedule = [];
  sql = some (record { dsn = []; query = codes "SELECT COUNT(*) FROM t" });
  file = none;
  command = none;
}

abbrev probes : List ProbeConfig
probes =
    probe
    ∷ record probe {
      name = codes "dump";
      kind = codes "file_freshness";
      file = some (record { path = codes "/d"; max_age_seconds = pos 60 });
    }
    ∷ record probe { name = codes "size"; kind = codes "command" }
    ∷ []

run_all-IsAccepted_example :
    (map (λ (r : ProbeResult). r.probe_name) (run_all env 0 probes)
      ≡ map (λ (p : ProbeConfig). p.name) probes)
    × All IsAccepted (run_all env 0 probes)
run_all-IsAccepted_example = run_all-IsAccepted env 0 probes

verdicts :
    map (λ (r : ProbeResult). r.status) (run_all env 0 probes)
    ≡ codes "warning" ∷ codes "warning" ∷ codes "unknown" ∷ []
unfolding run_all run_one run_sql_count_probe run_file_freshness_probe run_command_probe text_beq
verdicts = refl
