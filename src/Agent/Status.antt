-- ===== src/Agent/Status.antt =====
-- The local status of the jobs: the command `status` of apps/agent/cmd/agent/main.go, from the records
-- of the state file to the rows that are printed. Times are nanoseconds since Go's zero time.
pub mod Tally
mod Tests
use dysonsphere.Common.{
  ℕ, ◌+◌, ◌-◌, Bool, true, ◌||◌, Option, none, some, List, [], ◌∷◌, map, Text, text_eq, nat_eq,
  ◌==◌, ltb, if◌then◌else◌,
}
use dysonsphere.Common.Strings.{codes, is_empty}
use dysonsphere.Common.Assoc.{Assoc, lookup, insert}
use dysonsphere.Common.Tables.{order_by}
use dysonsphere.Agent.World.{AgentEnv, LocalExecution, Action, pure, ◌>>=◌, clock}
use dysonsphere.Agent.Store.{list_local_executions_since}
use dysonsphere.Agent.Paths.{truncate}

pub record Summary : Type 0 where
  pub command : Text
  pub schedule : Text
  pub status : Text
  pub trigger : Text
  pub last_run : ℕ
  pub updated_at : ℕ
  pub success : ℕ
  pub failed : ℕ
  pub running : ℕ
  pub partial : ℕ

abbrev pub key_of : LocalExecution → Text
key_of rec = if is_empty rec.command_hash then rec.command else rec.command_hash

abbrev pub new_summary : LocalExecution → Summary
new_summary rec = record {
  command = rec.command;
  schedule = rec.schedule;
  status = [];
  trigger = [];
  last_run = 0;
  updated_at = 0;
  success = 0;
  failed = 0;
  running = 0;
  partial = 0;
}

abbrev latest_run : LocalExecution → Summary → Summary
latest_run rec item =
    if ltb item.last_run rec.started_at then record item { last_run = rec.started_at } else item

abbrev latest_update : LocalExecution → Summary → Summary
latest_update rec item =
    if ltb item.updated_at rec.last_updated_at || item.updated_at == 0
    then record item {
      updated_at = rec.last_updated_at;
      status = rec.status;
      trigger = rec.trigger;
    }
    else item

abbrev counted : LocalExecution → Summary → Summary
counted rec item =
    if rec.status == codes "success"
    then record item { success = item.success + 1 }
    else if rec.status == codes "failed"
    then record item { failed = item.failed + 1 }
    else if rec.status == codes "running"
    then record item { running = item.running + 1 }
    else record item { partial = item.partial + 1 }

-- The body of the loop over the records, on the summary of the record's key.
unfoldable pub add_record : LocalExecution → Summary → Summary
add_record rec item = counted rec (latest_update rec (latest_run rec item))

abbrev pub summary_or_new : LocalExecution → Option Summary → Summary
summary_or_new rec none = new_summary rec
summary_or_new rec (some item) = item

unfoldable pub group : Assoc Text Summary → List LocalExecution → Assoc Text Summary
group grouped [] = grouped
group grouped (rec ∷ records) =
    group
      (insert (key_of rec) (add_record rec (summary_or_new rec (lookup (key_of rec) grouped)))
        grouped)
      records

abbrev runs_later : Summary → Summary → Bool
runs_later a b = ltb b.last_run a.last_run

-- The rows in their order; rows of the same time may stand in any order.
unfoldable pub rows_of : List LocalExecution → List Summary
rows_of records = order_by runs_later (map (λ e. e.1) (group [] records))

-- The cells of a row, with the formats of a time and of a number.
unfoldable pub cells : (ℕ → Text) → (ℕ → Text) → Summary → List Text
cells format show row =
    format row.last_run
    ∷ row.status
    ∷ row.trigger
    ∷ show row.success
    ∷ show row.failed
    ∷ show row.running
    ∷ show row.partial
    ∷ row.schedule
    ∷ truncate row.command 80
    ∷ []

abbrev rows_shown :
    (ℕ → Text) → (ℕ → Text) → Option (List LocalExecution) → Option (List (List Text))
rows_shown format show none = none
rows_shown format show (some records) = some (map (cells format show) (rows_of records))

-- For a window that is not negative. None is the error of the state file, and no rows the message that
-- there are none.
unfoldable pub print_local_status :
    (env : AgentEnv) → (ℕ → Text) → ℕ → Action env (Option (List (List Text)))
print_local_status env format since = do
  now ← clock env
  records ← list_local_executions_since env (now - since)
  pure (rows_shown format env.show_int records)
