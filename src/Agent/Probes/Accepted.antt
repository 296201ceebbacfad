-- ===== src/Agent/Probes/Accepted.antt =====
-- The results of apps/agent/internal/probes/runner.go, and the columns that the server keeps them in.
use dysonsphere.Common.{
  ℕ, suc, ◌≡◌, refl, true, false, ◌&&◌, ◌||◌, Option, none, some, List, [], ◌∷◌, map, Text, text_eq,
  text_beq, ◌==◌, All, arith, Bool-cases, inl, inr,
}
use dysonsphere.Common.Strings.{codes, is_some, trim_space}
use dysonsphere.Server.Request.{metric_type_of, metric_status_of}
use dysonsphere.Server.Repository.MetricRepo.{type_known, status_known}
use dysonsphere.Agent.Config.{ProbeConfig, SqlProbe, FileProbe, CommandProbe}
use dysonsphere.Agent.App.Events.{ProbeResult}
use dysonsphere.Agent.Probes.{
  ProbeEnv, QueryRun, not_opened, not_counted, counted, FileInfo, absent, not_read, modified,
  CommandRun, not_run, printed, Scanned, no_number, scanned, is_zero, is_positive,
  run_sql_count_probe, run_file_freshness_probe, run_command_probe, run_one, run_all, blank,
  with_sql, with_file, with_command, of_query, of_file, of_command, of_output,
}

-- The server's columns take the result, and a result with an error reports no good state.
abbrev pub IsAccepted : ProbeResult → Type 0
IsAccepted r =
    (type_known (metric_type_of r.metric_type) ≡ true)
    × (status_known (metric_status_of r.status) ≡ true)
    × ((is_some r.error && (r.status == codes "ok" || r.status == codes "warning")) ≡ false)

module _ (env : ProbeEnv) (n : ℕ) (p : ProbeConfig) where
  query-IsAccepted :
      (sql : SqlProbe) (q : QueryRun)
      → IsAccepted (of_query env n (blank env n p (codes "count")) sql q)
  unfolding metric_type_of metric_status_of text_beq
  query-IsAccepted sql (not_opened e) = (refl, refl, refl)
  query-IsAccepted sql (not_counted e) = (refl, refl, refl)
  query-IsAccepted sql (counted count) = elim (Bool-cases (is_zero count)) [
    | inl nothing ↦ rw nothing (refl, refl, refl)
    | inr more ↦ rw more (refl, refl, refl)
  ]

  sql-IsAccepted :
      (o : Option SqlProbe) → IsAccepted (with_sql env n p (blank env n p (codes "count")) o)
  unfolding metric_type_of metric_status_of text_beq
  sql-IsAccepted none = (refl, refl, refl)
  sql-IsAccepted (some sql) = query-IsAccepted sql (env.query n sql)

  info-IsAccepted :
      (file : FileProbe) (i : FileInfo)
      → IsAccepted (of_file env n (blank env n p (codes "gauge")) file i)
  unfolding metric_type_of metric_status_of text_beq
  info-IsAccepted file absent = (refl, refl, refl)
  info-IsAccepted file (not_read e) = (refl, refl, refl)
  info-IsAccepted file (modified time) =
      elim (Bool-cases
        (is_positive file.max_age_seconds && env.exceeds (env.age n time) file.max_age_seconds)) [
          | inl old ↦ rw old (refl, refl, refl)
          | inr young ↦ rw young (refl, refl, refl)
        ]

  file-IsAccepted :
      (o : Option FileProbe) → IsAccepted (with_file env n p (blank env n p (codes "gauge")) o)
  unfolding metric_type_of metric_status_of text_beq
  file-IsAccepted none = (refl, refl, refl)
  file-IsAccepted (some file) = info-IsAccepted file (env.stat n file.path)

  output-IsAccepted :
      (command : CommandProbe) (output : Text) (s : Scanned)
      → IsAccepted (of_output env n (blank env n p (codes "gauge")) command output s)
  unfolding metric_type_of metric_status_of text_beq
  output-IsAccepted command output (no_number e) = (refl, refl, refl)
  output-IsAccepted command output (scanned value) = (refl, refl, refl)

  run-IsAccepted :
      (command : CommandProbe) (r : CommandRun)
      → IsAccepted (of_command env n (blank env n p (codes "gauge")) command r)
  unfolding metric_type_of metric_status_of text_beq
  run-IsAccepted command (not_run e) = (refl, refl, refl)
  run-IsAccepted command (printed out) =
      output-IsAccepted command (trim_space out) (env.scan (trim_space out))

  command-IsAccepted :
      (o : Option CommandProbe)
      → IsAccepted (with_command env n p (blank env n p (codes "gauge")) o)
  unfolding metric_type_of metric_status_of text_beq
  command-IsAccepted none = (refl, refl, refl)
  command-IsAccepted (some command) = run-IsAccepted command (env.run n command)

  run_one-IsAccepted : IsAccepted (run_one env n p)
  unfolding run_one run_sql_count_probe run_file_freshness_probe run_command_probe metric_type_of
      metric_status_of text_beq
  run_one-IsAccepted = elim (Bool-cases (p.kind == codes "sql_count")) [
    | inl sql ↦ rw sql (sql-IsAccepted p.sql)
    | inr other ↦ rw other (elim (Bool-cases (p.kind == codes "file_freshness")) [
      | inl file ↦ rw file (file-IsAccepted p.file)
      | inr another ↦ rw another (elim (Bool-cases (p.kind == codes "command")) [
        | inl command ↦ rw command (command-IsAccepted p.command)
        | inr strange ↦ rw strange (refl, refl, refl)
      ])
    ])
  ]

  run_one-name : (run_one env n p).probe_name ≡ p.name
  unfolding run_one run_sql_count_probe run_file_freshness_probe run_command_probe
  run_one-name = ground arith

-- A run of the probes gives one result for each, in their order and under its name; each has a type
-- and a status that the columns of the server's table admit, and one with an error is neither ok nor a
-- warning.
pub run_all-IsAccepted :
    (env : ProbeEnv) (n : ℕ) (ps : List ProbeConfig)
    → (map (λ r. r.probe_name) (run_all env n ps) ≡ map (λ p. p.name) ps)
      × All IsAccepted (run_all env n ps)
unfolding run_all
run_all-IsAccepted env n [] = (refl, tt)
run_all-IsAccepted env n (p ∷ ps) =
    let (names, accepted) = run_all-IsAccepted env (suc n) ps in
    ((rw (run_one-name env n p, names) refl), (run_one-IsAccepted env n p, accepted))
