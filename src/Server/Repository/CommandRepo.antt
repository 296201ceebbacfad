-- ===== src/Server/Repository/CommandRepo.antt =====
-- apps/server/internal/repository/command.go
use dysonsphere.Common.{
  ℕ, Bool, true, false, ◌&&◌, Option, none, some, List, [], ◌∷◌, ◌++◌, Text, text_eq, nat_eq, ◌==◌,
  ltb, take, map, if◌then◌else◌,
}
use dysonsphere.Common.Tables.{select, update_where, exists_row, order_by}
use dysonsphere.Server.Domain.{AgentCommand, AgentCommandStatus, pending, dispatched}
use dysonsphere.Server.Store.{Env, violation, ok, err, Action, ◌>>=◌}
use dysonsphere.Server.Store.Query.{statement, column_uuid}

-- The CHECK constraint of the column `status`.
abbrev pub is_known : AgentCommandStatus → Bool
is_known (AgentCommandStatus.other s) = false
is_known _ = true

abbrev pub is_pending : AgentCommandStatus → Bool
is_pending pending = true
is_pending _ = false

abbrev pub new_command : ℕ → Text → Text → Text → AgentCommand → AgentCommand
new_command now id host_id job_id cmd = record cmd {
  id = id;
  host_id = host_id;
  job_id = job_id;
  exit_code = none;
  requested_at = now;
  dispatched_at = none;
  started_at = none;
  finished_at = none;
}

-- The row refers to a host and to a job of the tables.
unfoldable pub insert : Env → AgentCommand → Action AgentCommand
insert env cmd = do
  host ← column_uuid env cmd.host_id
  job ← column_uuid env cmd.job_id
  statement env λ now id db.
      if is_known cmd.status
        && (exists_row (λ r. r.id == host) db.hosts && exists_row (λ r. r.id == job) db.jobs)
      then (
        ok (new_command now id host job cmd),
        record db { commands = db.commands ++ new_command now id host job cmd ∷ [] },
      )
      else (err violation, db)

abbrev pub requested_before : AgentCommand → AgentCommand → Bool
requested_before a b = ltb a.requested_at b.requested_at

-- WHERE host_id = $1 AND status = 'pending'
abbrev pub waits_for : Text → AgentCommand → Bool
waits_for host r = r.host_id == host && is_pending r.status

-- WITH picked: the ids of the oldest pending commands of a host.
unfoldable pub picked : Text → ℕ → List AgentCommand → List AgentCommand
picked host limit table = take limit (order_by requested_before (select (waits_for host) table))

abbrev pub has_id : List AgentCommand → AgentCommand → Bool
has_id rows r = exists_row (λ p. p.id == r.id) rows

abbrev pub dispatch : ℕ → AgentCommand → AgentCommand
dispatch now r = record r { status = dispatched; dispatched_at = some now }

abbrev pub limit_or_ten : ℕ → ℕ
limit_or_ten limit = if limit == 0 then 10 else limit

-- The negative limits, which the handler passes on as they are, count as 0 here. FOR UPDATE SKIP
-- LOCKED leaves out the rows that a concurrent claim has locked; the claims here come one after the
-- other.
unfoldable pub claim_pending : Env → Text → ℕ → Action (List AgentCommand)
claim_pending env host_id limit = do
  host ← column_uuid env host_id
  statement env λ now fresh db.
      let chosen = has_id (picked host (limit_or_ten limit) db.commands) in
      (
        ok (map (dispatch now) (select chosen db.commands)),
        record db { commands = update_where chosen (dispatch now) db.commands },
      )

abbrev pub or_else {ℓ} : {A : Type ℓ} → Option A → Option A → Option A
or_else none b = b
or_else (some a) b = some a

abbrev pub finish :
    AgentCommandStatus → Text → Option ℕ → Option ℕ → Option ℕ → AgentCommand → AgentCommand
finish status message started finished code r = record r {
  status = status;
  message = message;
  started_at = or_else started r.started_at;
  finished_at = or_else finished r.finished_at;
  exit_code = code;
}

unfoldable pub complete :
    Env → Text → AgentCommandStatus → Text → Option ℕ → Option ℕ → Option ℕ → Action (Unit {0})
complete env id status message started finished code = do
  uuid ← column_uuid env id
  statement env λ now fresh db.
      if exists_row (λ r. r.id == uuid) db.commands && (if is_known status then false else true)
      then (err violation, db)
      else (
        ok tt,
        record db {
          commands =
              update_where (λ r. r.id == uuid) (finish status message started finished code)
                db.commands;
        },
      )
