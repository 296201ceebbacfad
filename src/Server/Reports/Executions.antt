-- ===== src/Server/Reports/Executions.antt =====
-- What a batch of executions leaves in the database: apps/server/internal/service/execution.go.
use dysonsphere.Common.{
  ℕ, suc, ◌≤◌, ◌≡◌, refl, sym, some, List, [], ◌∷◌, ◌++◌, Text, text_eq, arith, All, length,
}
use dysonsphere.Server.Domain.{Execution}
use dysonsphere.Server.Store.{Env, Db, Result, ok, err}
use dysonsphere.Server.Store.Query.{statement, parse_uuid}
use dysonsphere.Server.Repository.JobRepo
use dysonsphere.Server.Repository.ExecutionRepo
use dysonsphere.Server.Service.DiscoveryService.{keep_ok}
use dysonsphere.Server.Service.ExecutionService.{
  find_job, update_job_state, refresh, report_one, batch_report,
}

abbrev or_given : Execution → Result Execution → Execution
or_given e (ok l) = l
or_given e (err x) = e

append_nil : (xs : List Execution) → xs ++ [] ≡ xs
append_nil [] = refl
append_nil (x ∷ xs) = rw (append_nil xs) refl

module _ (env : Env) where
  find_job_lem :
      (host : Text) (e : Execution) (db : Db)
      → ((find_job env host e db).0 ≡ ok (or_given e (find_job env host e db).0))
        × (((find_job env host e db).1.executions ≡ db.executions)
            × ((or_given e (find_job env host e db).0).host_id ≡ e.host_id))
  unfolding find_job JobRepo.get_by_host_and_hash statement parse_uuid
  find_job_lem host e db = (ground arith, (ground arith, ground arith))

  refresh_lem :
      (r : Result Execution) (db : Db)
      → ((refresh env r db).0 ≡ ok tt) × ((refresh env r db).1.executions ≡ db.executions)
  unfolding update_job_state ExecutionRepo.count_recent_failures JobRepo.upsert_current_state
      statement parse_uuid
  refresh_lem (ok e) db = (refl, ground arith)
  refresh_lem (err x) db = (refl, refl)

  insert_lem :
      (e : Execution) (db : Db)
      → (ExecutionRepo.insert env e db).1.executions
        ≡ db.executions ++ keep_ok (ExecutionRepo.insert env e db).0 []
  unfolding ExecutionRepo.insert statement parse_uuid
  insert_lem e db = ground (arith, append_nil db.executions)

  saved_host :
      (e : Execution) (db : Db) (row : Execution)
      → (ExecutionRepo.insert env e db).0 ≡ ok row
      → env.uuid_parse e.host_id ≡ some row.host_id
  unfolding ExecutionRepo.insert statement parse_uuid
  saved_host e db row h = ground arith

abbrev given : Result (Result Execution) → Result Execution
given (ok r) = r
given (err x) = err x

-- The canonical text of a host is the host of the row.
abbrev pub IsOf : Env → Text → Execution → Type 0
IsOf env host row = env.uuid_parse host ≡ some row.host_id

module _ (env : Env) (host : Text) where
  kept_host :
      (r : Result Execution)
      → ((row : Execution) → r ≡ ok row → IsOf env host row)
      → All (IsOf env host) (keep_ok r [])
  kept_host (ok row) f = (f row refl, tt)
  kept_host (err x) f = tt

  report_one_lem :
      (e : Execution) (db : Db)
      → ((report_one env host e db).0 ≡ ok (given (report_one env host e db).0))
        × (((report_one env host e db).1.executions
              ≡ db.executions ++ keep_ok (given (report_one env host e db).0) [])
            × All (IsOf env host) (keep_ok (given (report_one env host e db).0) []))
  unfolding report_one
  report_one_lem e db =
      let own = record e { host_id = host } in
      let h = find_job_lem env host own db in
      let d = (find_job env host own db).1 in
      let l = or_given own (find_job env host own db).0 in
      let i = ExecutionRepo.insert env l d in
      let r = refresh_lem env i.0 i.1 in
      rw (h.0, r.0)
        (
          refl,
          (
            rw (r.1, insert_lem env l d, h.1.0) refl,
            kept_host i.0 λ row saved. rw (← h.1.1) (saved_host env l d row saved),
          ),
        )

abbrev pub rows_of : Result (List Execution) → List Execution
rows_of (ok rows) = rows
rows_of (err x) = []

append_assoc : (xs ys zs : List Execution) → (xs ++ ys) ++ zs ≡ xs ++ (ys ++ zs)
append_assoc [] ys zs = refl
append_assoc (x ∷ xs) ys zs = rw (append_assoc xs ys zs) refl

keep_ok-append :
    (before : List Execution) (r : Result Execution) (rest : List Execution)
    → (before ++ keep_ok r []) ++ rest ≡ before ++ keep_ok r rest
keep_ok-append before (ok row) rest = append_assoc before (row ∷ []) rest
keep_ok-append before (err x) rest = rw (append_nil before) refl

keep_ok-All :
    (P : Execution → Type 0) (r : Result Execution) (rest : List Execution)
    → All P (keep_ok r [])
    → All P rest
    → All P (keep_ok r rest)
keep_ok-All P (ok row) rest h k = (h.0, k)
keep_ok-All P (err x) rest h k = k

length-keep_ok :
    (r : Result Execution) (rest : List Execution) (n : ℕ)
    → length rest ≤ n
    → length (keep_ok r rest) ≤ suc n
length-keep_ok (ok row) rest n h = omega (arith, h)
length-keep_ok (err x) rest n h = omega (arith, h)

-- A batch of executions always succeeds, and adds to the table, in their order, the rows that it
-- returns and nothing else: they belong to the reporting host, and are at most as many as the events.
pub report_appends :
    (env : Env) (host : Text) (es : List Execution) (db : Db)
    → ((batch_report env host es db).0 ≡ ok (rows_of (batch_report env host es db).0))
      × (((batch_report env host es db).1.executions
            ≡ db.executions ++ rows_of (batch_report env host es db).0)
          × (All (IsOf env host) (rows_of (batch_report env host es db).0)
              × (length (rows_of (batch_report env host es db).0) ≤ length es)))
unfolding batch_report
report_appends env host [] db = (refl, (sym (append_nil db.executions), (tt, omega arith)))
report_appends env host (e ∷ es) db =
    let h = report_one_lem env host e db in
    let d = (report_one env host e db).1 in
    let g = given (report_one env host e db).0 in
    let k = report_appends env host es d in
    rw (h.0, k.0)
      (
        refl,
        (
          rw (k.1.0, h.1.0)
              (keep_ok-append db.executions g (rows_of (batch_report env host es d).0)),
          (
            keep_ok-All (IsOf env host) g (rows_of (batch_report env host es d).0) h.1.1 k.1.1.0,
            length-keep_ok g (rows_of (batch_report env host es d).0) (length es) k.1.1.1,
          ),
        ),
      )
