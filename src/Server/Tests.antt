-- ===== src/Server/Tests.antt =====
-- Runs of the server's operations on a small database.
use dysonsphere.Common.{
  ◌≡◌, ◌≢◌, ◌↔◌, ◌≤◌, refl, true, false, none, some, List, [], ◌∷◌, ◌++◌, Text, text_beq, arith,
  All, length,
}
use dysonsphere.Common.Strings.{codes}
use dysonsphere.Common.Tables.{find, exists_row, order_by, select, update_where}
use dysonsphere.Server.Domain.{
  object, field, no_field, number, null, Host, HostStatus, Job, cron, Execution, ExecutionStatus,
  host_target, stale_heartbeat, EnrollmentToken, AgentCommand, pending,
}
use dysonsphere.Server.Request.{ExecutionEvent, execution_of}
use dysonsphere.Server.Request.Evidence.{evidence_hash}
use dysonsphere.Server.Store.{Env, Db, empty_db, ok}
use dysonsphere.Server.Store.Query.{statement, column_uuid, read_clock}
use dysonsphere.Server.Repository.AlertRepo.{is_active_for}
use dysonsphere.Server.Repository.CommandRepo
use dysonsphere.Server.Repository.CommandRepo.{picked}
use dysonsphere.Server.Repository.EnrollmentTokenRepo.{
  consume, check_token, select_token, mark_used, token_found,
}
use dysonsphere.Server.Repository.CredentialRepo
use dysonsphere.Server.Repository.HostRepo
use dysonsphere.Server.Service.AgentService.{
  EnrollmentResult, enroll, admit, register, new_agent_token, hash_token, consume_enrollment_token,
  default_environment,
}
use dysonsphere.Server.Auth.Secure.{hex_encode}
use dysonsphere.Server.Service.CommandService.{claim_pending}
use dysonsphere.Server.Service.ExecutionService.{command_hash_from_evidence, batch_report}
use dysonsphere.Server.Alerting.{judge, run_all}
use dysonsphere.Server.Alerting.Fire.{OneActive, run_all-OneActive}
use dysonsphere.Server.Alerting.Exact.{judge_exact}
use dysonsphere.Server.Delivery.{CommandOp, enqueue, claim, finish, serve}
use dysonsphere.Server.Delivery.Once.{delivered_once}
use dysonsphere.Server.Enrollment.{issue, after}
use dysonsphere.Server.Enrollment.Once.{one_agent}
use dysonsphere.Server.Enrollment.Race.{consume_twice, both_accepted}
use dysonsphere.Server.Reports.Executions.{report_appends, rows_of, IsOf}

-- No statement fails, the clock stands still, each text is a UUID, and a new row has the id 7.
abbrev pub env : Env
env = record {
  fails = λ n. false;
  now = λ n. 1_000;
  fresh = λ n. 7 ∷ [];
  uuid_parse = λ s. some s;
  pg_uuid = λ s. some s;
  sha256 = λ s. s;
  random = λ n. some (0xab ∷ []);
  confidence_ok = λ n. true;
}

abbrev pub host : Host
host = record {
  id = codes "h1";
  machine_id = codes "m1";
  hostname = codes "box";
  ip_address = [];
  environment = codes "unknown";
  tags = [];
  registered_at = 10;
  last_heartbeat_at = some 20;
  status = HostStatus.stale;
  agent_version = [];
  metadata = none;
}

abbrev pub job : Job
job = record {
  id = codes "j1";
  host_id = codes "h1";
  source_type = cron;
  schedule = codes "0 3 * * *";
  timezone = codes "UTC";
  user = codes "root";
  raw_command = codes "/bin/backup";
  normalized_command = codes "/bin/backup";
  command_hash = codes "c1";
  enabled = true;
  source_file = codes "/etc/crontab";
  metadata = none;
  created_at = 30;
  updated_at = 30;
}

abbrev waiting : AgentCommand
waiting = record {
  id = codes "k1";
  host_id = codes "h1";
  job_id = codes "j1";
  command_hash = codes "c1";
  raw_command = codes "/bin/backup";
  schedule = [];
  status = pending;
  message = [];
  exit_code = none;
  requested_at = 40;
  dispatched_at = none;
  started_at = none;
  finished_at = none;
}

abbrev token : EnrollmentToken
token = record {
  id = codes "t1";
  token_hash = codes "74";
  label = [];
  used = false;
  used_at = none;
  expires_at = 2_000;
  created_at = 50;
}

abbrev run_of : Text → Execution
run_of host_id = record {
  id = [];
  host_id = host_id;
  job_id = some (codes "j1");
  scheduled_at = none;
  detected_started_at = some 60;
  detected_finished_at = none;
  duration_seconds = none;
  status = ExecutionStatus.failed;
  confidence_score = 0;
  detection_sources = [];
  output_text = none;
  evidence = none;
  created_at = 0;
}

abbrev db : Db
db = record empty_db {
  hosts = host ∷ [];
  jobs = job ∷ [];
  commands = waiting ∷ [];
  tokens = token ∷ [];
}

run_all-OneActive_example : OneActive (run_all env db).1.alerts
unfolding empty_db
run_all-OneActive_example = run_all-OneActive env db (record { at_most_one = λ t i r. omega arith })

judge_exact_example :
    exists_row
      (is_active_for host_target (codes "h1") stale_heartbeat)
      (judge env host_target (codes "h1") stale_heartbeat true db).1.alerts
    ≡ true
judge_exact_example =
    judge_exact env host_target (codes "h1") (codes "h1") stale_heartbeat true db (λ n. refl) refl

abbrev later_ops : List CommandOp
later_ops =
    enqueue (codes "h1") (codes "j1" ∷ [])
    ∷ finish (codes "k1") (codes "failed") [] none none none
    ∷ claim (codes "h1") 5
    ∷ []

delivered_once_example :
    exists_row
      (λ r. text_beq r.id (codes "k1"))
      (serve env later_ops (claim_pending env (codes "h1") 1 db).1).0
    ≡ false
unfolding empty_db exists_row text_beq claim_pending CommandRepo.claim_pending picked order_by
    select column_uuid statement
delivered_once_example =
    delivered_once env (codes "k1") (codes "h1") 1 db later_ops (λ n. refl) refl

-- A job that the table holds with another schedule, and a new one.
abbrev discovered : List Job
discovered =
    record job { schedule = codes "@daily" } ∷ record job { command_hash = codes "c2" } ∷ []

report_appends_example :
    let r = batch_report env (codes "h1") (run_of [] ∷ run_of [] ∷ []) db in
    (r.0 ≡ ok (rows_of r.0))
    × ((r.1.executions ≡ db.executions ++ rows_of r.0)
        × (All (IsOf env (codes "h1")) (rows_of r.0) × (length (rows_of r.0) ≤ 2)))
report_appends_example = report_appends env (codes "h1") (run_of [] ∷ run_of [] ∷ []) db

both_accepted_example : (consume_twice env (codes "74") db).0 ≡ ok (true, true)
unfolding empty_db find text_beq
both_accepted_example = both_accepted env (codes "74") db token (λ n. refl) (λ n. refl) refl refl

abbrev enrolled : EnrollmentResult
enrolled = record {
  host = host;
  agent_token = codes "ab";
  environment = codes "production";
  tags = [];
}

enrolled_first : (enroll env [] (codes "t") host db).0 ≡ ok enrolled
unfolding empty_db enroll admit consume_enrollment_token token_found consume check_token
    select_token mark_used read_clock register new_agent_token default_environment
    CredentialRepo.upsert HostRepo.upsert HostRepo.upsert_current_state column_uuid statement
    hash_token hex_encode find exists_row update_where text_beq
enrolled_first = refl

one_agent_example :
    (enroll env []
      (codes "t")
      (record host { machine_id = codes "m2" })
      (after env (issue (codes "next") ∷ []) (enroll env [] (codes "t") host db).1)).0
    ≢ ok enrolled
unfolding empty_db exists_row text_beq hash_token hex_encode
one_agent_example =
    one_agent env [] (codes "t") host (record host { machine_id = codes "m2" }) db
      (issue (codes "next") ∷ []) enrolled enrolled refl enrolled_first

abbrev reported : ExecutionEvent
reported = record {
  job_id = none;
  command_hash = codes "c1";
  scheduled_at = none;
  detected_started_at = none;
  detected_finished_at = none;
  duration_seconds = none;
  status = codes "success";
  confidence_score = 0;
  detection_sources = [];
  output_text = none;
  evidence = some (object (field (codes "pid") (number (codes "12")) no_field));
}

evidence_hash_example :
    ((execution_of reported ≡ none) ↔ (reported.evidence ≡ some null))
    × ((x : Execution)
        → execution_of reported ≡ some x
        → command_hash_from_evidence x.evidence ≡ codes "c1")
evidence_hash_example = evidence_hash reported refl
