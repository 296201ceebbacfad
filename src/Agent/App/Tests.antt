-- ===== src/Agent/App/Tests.antt =====
-- Runs of the agent on concrete inputs.
use dysonsphere.Common.{
  ℕ, Text, ◌≡◌, ◌≢◌, refl, true, false, none, some, List, [], ◌∷◌, ◌++◌, map, text_beq, arith,
}
use dysonsphere.Common.Assoc.{lookup, insert, remove}
use dysonsphere.Common.Strings.{
  codes, fields, fields_from, contains, has_prefix, strip_prefix, is_space,
}
use dysonsphere.Common.Tables.{exists_row}
use dysonsphere.Server.Domain.{text}
use dysonsphere.Agent.Bolt.Memory.{memory}
use dysonsphere.Agent.World.{AgentEnv, World, empty_buckets, update, view}
use dysonsphere.Agent.Store.{values, save_execution, pending_executions, delete_execution}
use dysonsphere.Agent.Reporter.{
  payloads, buffer_execution, flush_executions, upload_executions, delete_executions,
}
use dysonsphere.Agent.Reporter.Keyed.{Keyed}
use dysonsphere.Agent.Reporter.Emptied.{is_buffered, flush_empties}
use dysonsphere.Agent.Discovery.{DiscoveredJob, normalize_command}
use dysonsphere.Agent.MailSpool.{MailEnv, spool}
use dysonsphere.Agent.App.Remote.{scan_spool}
use dysonsphere.Agent.App.Remote.Rescan.{rescan_is_silent}
use dysonsphere.Agent.Process.{
  ProcessSnapshot, MatchedProcess, matches_command, match_one, match_of, match_jobs,
}
use dysonsphere.Agent.Process.Total.{match_jobs_total}
use dysonsphere.Agent.Process.Cut.{CutAt, truncate_string-CutAt}
use dysonsphere.Agent.App.Events.{truncate_string}
use dysonsphere.Agent.App.{
  Memory, active_of, command_of, with_orders, start_all, start_one, finish_all, is_current,
  run_process_scan,
}
use dysonsphere.Agent.App.Active.{has, active_exactly}
use dysonsphere.Agent.Reporter.Delivery.{
  StoreOp, buffer, flush, note, Safe, run, delivered_at_least_once,
}

abbrev first_code : Text → ℕ
first_code [] = 0
first_code (c ∷ s) = c

-- Nothing fails, and a map is gone through in its order.
abbrev pub env : AgentEnv
env = record {
  bolt = memory;
  store_fails = λ n. false;
  now = λ n. n;
  uuid = λ n. n ∷ [];
  accepts = λ n. true;
  rfc3339 = λ n. [];
  json_time = λ n. [];
  show_float = λ n. [];
  show_int = λ n. n ∷ [];
  show_code = λ n. [];
  scan_int = first_code;
  quote = λ s. s;
  seconds = λ m n. 0;
  equal_fold = text_beq;
  visit = λ n xs. xs;
  shell = λ n s. record { output = []; error = none };
}

abbrev pub start : World env
start = record {
  steps = 0;
  buckets = empty_buckets memory;
  sent_executions = [];
  sent_metrics = [];
}

abbrev ops : List StoreOp
ops = flush ∷ note (codes "a") (codes "b") ∷ flush ∷ []

delivered_at_least_once_example :
    Safe env
      (codes "e")
      (text (codes "done"))
      (run env ops (save_execution env (codes "e") (text (codes "done")) start).1)
unfolding save_execution update
delivered_at_least_once_example =
    delivered_at_least_once env (codes "e") (text (codes "done")) start ops refl
      (tt, (tt, (tt, tt)))

abbrev snapshot : ProcessSnapshot
snapshot = record { pid = 42; ppid = 1; cmdline = codes "/bin/b -v"; create_time = 3 }

match_jobs_total_example :
    match_jobs
      (λ s. s)
      ((snapshot, (codes "h", normalize_command (codes " /bin/b   -v ")) ∷ []) ∷ [])
    ≢ none
match_jobs_total_example =
    match_jobs_total (λ s. s)
      ((snapshot, (codes "h", normalize_command (codes " /bin/b   -v ")) ∷ []) ∷ [])
      (((codes " /bin/b   -v ", refl), tt), tt)

truncate_string-CutAt_example :
    CutAt (0x20AC ∷ 0x20AC ∷ []) 4 (truncate_string (0x20AC ∷ 0x20AC ∷ []) 4)
truncate_string-CutAt_example = truncate_string-CutAt (0x20AC ∷ 0x20AC ∷ []) 4

abbrev backup : DiscoveredJob
backup = record {
  source_type = codes "cron";
  schedule = [];
  timezone = [];
  user = [];
  raw_command = codes "/bin/b -v";
  normalized_command = codes "/bin/b -v";
  command_hash = codes "h";
  enabled = true;
  source_file = [];
}

abbrev memory_of : Memory
memory_of = record { known_jobs = (codes "h", backup) ∷ []; active_jobs = [] }

abbrev found : MatchedProcess
found = match_of (λ s. s) snapshot (codes "h") (codes "/bin/b -v")

matched_one :
    match_jobs env.quote (with_orders env (map command_of memory_of.known_jobs) 0 (snapshot ∷ []))
    ≡ some (found ∷ [])
unfolding match_jobs match_one matches_command with_orders fields fields_from contains has_prefix
    strip_prefix is_space
matched_one = refl

abbrev after : Memory
after = record memory_of { active_jobs = (42, active_of env (1 ∷ []) found backup) ∷ [] }

scanned_one : (run_process_scan env (some (snapshot ∷ [])) memory_of start).0 ≡ some after
unfolding run_process_scan match_jobs match_one matches_command with_orders fields fields_from
    contains has_prefix strip_prefix is_space start_all start_one finish_all lookup insert remove
    exists_row text_beq
scanned_one = refl

active_exactly_example : has 42 after.active_jobs ≡ is_current (found ∷ []) 42
active_exactly_example =
    active_exactly env memory_of after (snapshot ∷ []) (found ∷ []) start 42 (λ A p n xs. refl)
      matched_one scanned_one

abbrev mail_env : MailEnv
mail_env = record { md5 = λ s. s; time_parse = λ f s. none; now = λ n. n }

abbrev mail : Text
mail = codes "From root Mon\nSubject: Cron <root@box> /bin/a\n\nout"

rescan_is_silent_example :
    let first = (scan_spool env mail_env [] (codes "/m") (spool mail) start).1 in
    (scan_spool env mail_env [] (codes "/m") (spool mail) first).1.buckets ≡ first.buckets
unfolding lookup
rescan_is_silent_example =
    rescan_is_silent env mail_env [] (codes "/m") mail start (λ n. refl) (λ n. refl) refl refl

abbrev buffered : World env
buffered = run env (buffer (codes "e") (text (codes "done")) ∷ []) start

empty-Keyed : Keyed env start
unfolding lookup
empty-Keyed k e g = ground (arith, g)

flush_empties_example :
    let after = (flush_executions env buffered).1 in
    (after.sent_executions
      ≡ buffered.sent_executions ++ payloads (values env.bolt buffered.buckets.executions))
    × ((k : Text) → is_buffered env after k ≡ false)
flush_empties_example =
    flush_empties env (buffer (codes "e") (text (codes "done")) ∷ []) start empty-Keyed
      (λ n h. refl) refl

-- One event is uploaded.
uploaded_one : (flush_executions env buffered).1.sent_executions ≡ text (codes "done") ∷ []
unfolding run buffer_execution save_execution update flush_executions pending_executions view
    upload_executions delete_executions delete_execution insert remove
uploaded_one = refl
