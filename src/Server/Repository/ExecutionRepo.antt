-- ===== src/Server/Repository/ExecutionRepo.antt =====
-- apps/server/internal/repository/execution.go
use dysonsphere.Common.{
  ℕ, ◌+◌, ◌*◌, Bool, true, false, ◌&&◌, ◌||◌, Option, none, some, List, [], ◌∷◌, ◌++◌, Text,
  text_eq, nat_eq, ◌==◌, ltb, leb, take, drop, count_if, if◌then◌else◌,
}
use dysonsphere.Common.Strings.{codes, is_empty}
use dysonsphere.Common.Tables.{select, exists_row, order_by}
use dysonsphere.Server.Domain.{
  Execution, ExecutionStatus, running, success, failed, unknown, partial, missed,
}
use dysonsphere.Server.Store.{Env, Db, violation, ok, err, Action, pure, ◌>>=◌}
use dysonsphere.Server.Store.Query.{statement, parse_uuid}

-- The CHECK constraint of the column `status`.
abbrev pub is_known : ExecutionStatus → Bool
is_known (ExecutionStatus.other s) = false
is_known _ = true

abbrev pub parse_job : Env → Option Text → Action (Option Text)
parse_job env none = pure none
parse_job env (some id) = parse_uuid env id >>= λ uuid. pure (some uuid)

abbrev pub job_known : Option Text → Db → Bool
job_known none db = true
job_known (some id) db = exists_row (λ r. r.id == id) db.jobs

abbrev pub new_execution : ℕ → Text → Text → Option Text → Execution → Execution
new_execution now id host job e = record e {
  id = id;
  host_id = host;
  job_id = job;
  created_at = now;
}

-- The row is checked, and refers to a host and, if it names one, to a job of the tables.
unfoldable pub insert : Env → Execution → Action Execution
insert env e = do
  host ← parse_uuid env e.host_id
  job ← parse_job env e.job_id
  statement env λ now id db.
      if is_known e.status
        && (env.confidence_ok e.confidence_score
            && (exists_row (λ r. r.id == host) db.hosts && job_known job db))
      then (
        ok (new_execution now id host job e),
        record db { executions = db.executions ++ new_execution now id host job e ∷ [] },
      )
      else (err violation, db)

abbrev pub created_later : Execution → Execution → Bool
created_later a b = ltb b.created_at a.created_at

-- A limit that is not positive, where a negative one counts as 0.
abbrev pub limit_or : ℕ → ℕ → ℕ
limit_or default limit = if limit == 0 then default else limit

-- ORDER BY created_at DESC LIMIT … OFFSET …
abbrev pub page : ℕ → ℕ → List Execution → List Execution
page limit offset rows = take limit (drop offset (order_by created_later rows))

unfoldable pub list_executions : Env → ℕ → ℕ → Action (List Execution)
list_executions env limit offset =
    statement env λ now fresh db. (ok (page (limit_or 50 limit) offset db.executions), db)

abbrev pub of_job : Text → Execution → Bool
of_job id e = elim e.job_id [ none ↦ false | some j ↦ j == id ]

unfoldable pub list_by_job : Env → Text → ℕ → Action (List Execution)
list_by_job env job_id limit = do
  job ← parse_uuid env job_id
  statement env
      λ now fresh db. (ok (page (limit_or 20 limit) 0 (select (of_job job) db.executions)), db)

pub record ExecutionFilter : Type 0 where
  pub host_id : Text
  pub job_id : Text
  pub status : Text
  pub since : Option ℕ

-- The text of a status, as the column holds it.
unfoldable pub status_text : ExecutionStatus → Text
status_text running = codes "running"
status_text success = codes "success"
status_text failed = codes "failed"
status_text unknown = codes "unknown"
status_text partial = codes "partial"
status_text missed = codes "missed"
status_text (ExecutionStatus.other s) = s

-- A filter that is not set lets every row through.
abbrev pub id_filter : Env → Text → Action (Option Text)
id_filter env id =
    if is_empty id then pure none else (parse_uuid env id >>= λ uuid. pure (some uuid))

abbrev pub is_row_of : Option Text → Option Text → ExecutionFilter → Execution → Bool
is_row_of host job f e =
    elim host [ none ↦ true | some id ↦ e.host_id == id ]
    && elim job [ none ↦ true | some id ↦ of_job id e ]
    && (is_empty f.status || status_text e.status == f.status)
    && elim f.since [ none ↦ true | some t ↦ leb t e.created_at ]

unfoldable pub list_filtered : Env → ExecutionFilter → ℕ → ℕ → Action (List Execution)
list_filtered env f limit offset = do
  host ← id_filter env f.host_id
  job ← id_filter env f.job_id
  statement env λ now fresh db.
      (ok (page (limit_or 50 limit) offset (select (is_row_of host job f) db.executions)), db)

-- status IN ('failed','unknown')
abbrev pub is_failure : ExecutionStatus → Bool
is_failure failed = true
is_failure unknown = true
is_failure _ = false

abbrev pub day : ℕ
day = 24 * 3600 * 1_000_000_000

abbrev pub recent_failure : ℕ → Text → Execution → Bool
recent_failure now job e = of_job job e && (is_failure e.status && ltb now (e.created_at + day))

unfoldable pub count_recent_failures : Env → Text → Action ℕ
count_recent_failures env job_id = do
  job ← parse_uuid env job_id
  statement env λ now fresh db. (ok (count_if (recent_failure now job) db.executions), db)
