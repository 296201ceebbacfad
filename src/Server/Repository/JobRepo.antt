-- ===== src/Server/Repository/JobRepo.antt =====
-- apps/server/internal/repository/job.go
use dysonsphere.Common.{
  ℕ, Bool, true, false, ◌&&◌, ◌||◌, Option, none, some, List, [], ◌∷◌, ◌++◌, Text, text_eq, ◌==◌,
  ltb, if◌then◌else◌,
}
use dysonsphere.Common.Tables.{find, select, update_where, exists_row, order_by}
use dysonsphere.Server.Domain.{Job, JobSourceType, ExecutionStatus, CurrentJobState}
use dysonsphere.Server.Store.{Env, violation, no_rows, ok, err, Action, ◌>>=◌, lift}
use dysonsphere.Server.Store.Query.{statement, parse_uuid}

-- The CHECK constraint of the column `source_type`.
abbrev pub is_known : JobSourceType → Bool
is_known (JobSourceType.other s) = false
is_known _ = true

abbrev pub new_job : ℕ → Text → Text → Job → Job
new_job now id host j = record j { id = id; host_id = host; created_at = now; updated_at = now }

-- The columns that an upsert sets: the host, the source type and the hash stay.
abbrev pub overwrite : ℕ → Job → Job → Job
overwrite now j row = record row {
  schedule = j.schedule;
  timezone = j.timezone;
  user = j.user;
  raw_command = j.raw_command;
  normalized_command = j.normalized_command;
  enabled = j.enabled;
  source_file = j.source_file;
  metadata = j.metadata;
  updated_at = now;
}

-- The unique key of the table.
abbrev pub has_key : Text → Text → Job → Bool
has_key host hash r = r.host_id == host && r.command_hash == hash

-- The row is checked before the conflict on (host_id, command_hash) is looked for, and refers to a
-- host of the table.
unfoldable pub upsert : Env → Job → Action Job
upsert env j = do
  host ← parse_uuid env j.host_id
  statement env λ now id db.
      if is_known j.source_type
      then elim (find (has_key host j.command_hash) db.jobs) [
        | some row ↦ (
          ok (overwrite now j row),
          record db { jobs = update_where (has_key host j.command_hash) (overwrite now j) db.jobs },
        )
        | none ↦
            if exists_row (λ r. r.id == host) db.hosts
            then (
              ok (new_job now id host j),
              record db { jobs = db.jobs ++ new_job now id host j ∷ [] },
            )
            else (err violation, db)
      ]
      else (err violation, db)

unfoldable pub get_by_id : Env → Text → Action Job
get_by_id env id = do
  uuid ← parse_uuid env id
  statement env λ now fresh db. lift no_rows (find (λ r. r.id == uuid) db.jobs) db

abbrev created_later : Job → Job → Bool
created_later a b = ltb b.created_at a.created_at

unfoldable pub list_jobs : Env → Action (List Job)
list_jobs env = statement env λ now fresh db. (ok (order_by created_later db.jobs), db)

unfoldable pub list_by_host : Env → Text → Action (List Job)
list_by_host env host_id = do
  host ← parse_uuid env host_id
  statement env
      λ now fresh db. (ok (order_by created_later (select (λ r. r.host_id == host) db.jobs)), db)

unfoldable pub get_by_host_and_hash : Env → Text → Text → Action Job
get_by_host_and_hash env host_id hash = do
  host ← parse_uuid env host_id
  statement env λ now fresh db. lift no_rows (find (has_key host hash) db.jobs) db

abbrev pub put_state : CurrentJobState → List CurrentJobState → List CurrentJobState
put_state s states =
    if exists_row (λ r. r.job_id == s.job_id) states
    then update_where (λ r. r.job_id == s.job_id) (λ r. record s { host_id = r.host_id }) states
    else states ++ s ∷ []

-- A new row refers to a job and to a host of the tables.
unfoldable pub upsert_current_state :
    Env → Text → Text → ExecutionStatus → Option ℕ → Option ℕ → ℕ → Action (Unit {0})
upsert_current_state env job_id host_id status last_run next_expected fails = do
  job ← parse_uuid env job_id
  host ← parse_uuid env host_id
  statement env λ now fresh db.
      if exists_row (λ r. r.job_id == job) db.job_states
        || exists_row (λ r. r.id == job) db.jobs && exists_row (λ r. r.id == host) db.hosts
      then (
        ok tt,
        record db {
          job_states =
              put_state
                (record {
                  job_id = job;
                  host_id = host;
                  last_status = status;
                  last_run_at = last_run;
                  next_expected_at = next_expected;
                  consecutive_fail = fails;
                  updated_at = now;
                })
                db.job_states;
        },
      )
      else (err violation, db)
