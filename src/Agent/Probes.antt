-- ===== src/Agent/Probes.antt =====
-- The probes of the agent: apps/agent/internal/probes/runner.go. The database, the files, the commands
-- and the arithmetic of floats are not code of the repository: they are the operations of a `ProbeEnv`.
pub mod Accepted
mod Tests
use dysonsphere.Common.{
  ℕ, suc, Bool, true, false, ◌&&◌, ◌||◌, Option, none, some, List, [], ◌∷◌, Text, text_eq, nat_eq,
  ◌==◌, ltb, if◌then◌else◌,
}
use dysonsphere.Common.Strings.{codes, trim_space}
use dysonsphere.Server.Domain.{Json, null, number, text, Float64}
use dysonsphere.Server.Api.Query.{ℤ, pos, negsuc, at_least_zero}
use dysonsphere.Agent.Config.{SqlProbe, FileProbe, CommandProbe, ProbeConfig}
use dysonsphere.Agent.App.Events.{
  object_of, ProbeError, unknown_type, missing_config, open_failed, query_failed, stat_failed,
  command_failed, ProbeResult,
}

pub data QueryRun : Type 0 where
  not_opened : Text → QueryRun
  not_counted : Text → QueryRun
  counted : Float64 → QueryRun

pub data FileInfo : Type 0 where
  absent : FileInfo
  not_read : Text → FileInfo
  modified : ℕ → FileInfo

pub data CommandRun : Type 0 where
  not_run : Text → CommandRun
  printed : Text → CommandRun

pub data Scanned : Type 0 where
  no_number : Text → Scanned
  scanned : Float64 → Scanned

-- What a probe meets, by the number of the probes run before it. `age` is the time in seconds since a
-- file was modified, `exceeds` compares it with a number of seconds, and `scan` is Sscanf with %f.
pub record ProbeEnv : Type 0 where
  pub now : ℕ → ℕ
  pub query : ℕ → SqlProbe → QueryRun
  pub stat : ℕ → Text → FileInfo
  pub run : ℕ → CommandProbe → CommandRun
  pub age : ℕ → ℕ → Float64
  pub exceeds : Float64 → ℤ → Bool
  pub scan : Text → Scanned
  pub rfc3339 : ℕ → Text
  pub show_float : Float64 → Text
  pub show_int : ℤ → Text

-- The bits of −1, and the test for both zeros.
abbrev pub minus_one : Float64
minus_one = 0xBFF0_0000_0000_0000

abbrev pub is_zero : Float64 → Bool
is_zero v = v == 0 || v == 0x8000_0000_0000_0000

abbrev pub is_positive : ℤ → Bool
is_positive n = ltb 0 (at_least_zero n)

module _ (env : ProbeEnv) (n : ℕ) where
  abbrev pub blank : ProbeConfig → Text → ProbeResult
  blank p metric_type = record {
    probe_name = p.name;
    metric_type = metric_type;
    value = 0;
    status = [];
    evidence = null;
    measured_at = env.now n;
    error = none;
  }

  abbrev failing : ProbeResult → Text → ProbeError → ProbeResult
  failing res status e = record res { status = status; error = some e }

  abbrev of_query : ProbeResult → SqlProbe → QueryRun → ProbeResult
  of_query res sql (not_opened e) = failing res (codes "critical") (open_failed e)
  of_query res sql (not_counted e) = failing res (codes "critical") (query_failed e)
  of_query res sql (counted count) = record res {
    value = count;
    status = if is_zero count then codes "warning" else codes "ok";
    evidence = object_of ((codes "query", text sql.query) ∷ []);
  }

  abbrev with_sql : ProbeConfig → ProbeResult → Option SqlProbe → ProbeResult
  with_sql p res none = failing res (codes "unknown") (missing_config p.name)
  with_sql p res (some sql) = of_query res sql (env.query n sql)

  unfoldable pub run_sql_count_probe : ProbeConfig → ProbeResult
  run_sql_count_probe p = with_sql p (blank p (codes "count")) p.sql

  abbrev of_file : ProbeResult → FileProbe → FileInfo → ProbeResult
  of_file res file absent = record res {
    value = minus_one;
    status = codes "critical";
    evidence =
        object_of
          ((codes "path", text file.path) ∷ (codes "error", text (codes "file not found")) ∷ []);
  }
  of_file res file (not_read e) = failing res (codes "unknown") (stat_failed e)
  of_file res file (modified time) = record res {
    value = env.age n time;
    status =
        if is_positive file.max_age_seconds && env.exceeds (env.age n time) file.max_age_seconds
        then codes "warning"
        else codes "ok";
    evidence = object_of (
        (codes "path", text file.path)
        ∷ (codes "mod_time", text (env.rfc3339 time))
        ∷ (codes "age_seconds", number (env.show_float (env.age n time)))
        ∷ (codes "max_age", number (env.show_int file.max_age_seconds))
        ∷ []);
  }

  abbrev with_file : ProbeConfig → ProbeResult → Option FileProbe → ProbeResult
  with_file p res none = failing res (codes "unknown") (missing_config p.name)
  with_file p res (some file) = of_file res file (env.stat n file.path)

  unfoldable pub run_file_freshness_probe : ProbeConfig → ProbeResult
  run_file_freshness_probe p = with_file p (blank p (codes "gauge")) p.file

  abbrev of_output : ProbeResult → CommandProbe → Text → Scanned → ProbeResult
  of_output res command output (no_number e) = record res {
    status = codes "unknown";
    evidence = object_of ((codes "output", text output) ∷ (codes "parse_error", text e) ∷ []);
  }
  of_output res command output (scanned value) = record res {
    value = value;
    status = codes "ok";
    evidence =
        object_of ((codes "command", text command.command) ∷ (codes "output", text output) ∷ []);
  }

  abbrev of_command : ProbeResult → CommandProbe → CommandRun → ProbeResult
  of_command res command (not_run e) = failing res (codes "critical") (command_failed e)
  of_command res command (printed out) =
      of_output res command (trim_space out) (env.scan (trim_space out))

  abbrev with_command : ProbeConfig → ProbeResult → Option CommandProbe → ProbeResult
  with_command p res none = failing res (codes "unknown") (missing_config p.name)
  with_command p res (some command) = of_command res command (env.run n command)

  unfoldable pub run_command_probe : ProbeConfig → ProbeResult
  run_command_probe p = with_command p (blank p (codes "gauge")) p.command

  unfoldable pub run_one : ProbeConfig → ProbeResult
  run_one p =
      if p.kind == codes "sql_count"
      then run_sql_count_probe p
      else if p.kind == codes "file_freshness"
      then run_file_freshness_probe p
      else if p.kind == codes "command"
      then run_command_probe p
      else failing (blank p (codes "gauge")) (codes "unknown") (unknown_type p.kind)

-- The probes from the `n`-th on.
unfoldable pub run_all : ProbeEnv → ℕ → List ProbeConfig → List ProbeResult
run_all env n [] = []
run_all env n (p ∷ ps) = run_one env n p ∷ run_all env (suc n) ps
