-- ===== src/Server/StatsRepo.antt =====
-- The counts of apps/server/internal/repository/stats.go.
pub mod Recovery
pub mod Counts
use dysonsphere.Common.{
  ℕ, zero, suc, ◌+◌, ◌-◌, ◌*◌, ◌/◌, Bool, true, false, not, ◌&&◌, ◌||◌, Option, none, some, List,
  [], ◌∷◌, map, Text, text_eq, nat_eq, Eq, ◌==◌, ltb, leb, length, count_if, if◌then◌else◌,
}
use dysonsphere.Common.Tables.{find, select, exists_row, order_by}
use dysonsphere.Server.Domain.{
  Execution, ExecutionStatus, running, success, failed, unknown, partial, missed, Float64,
}
use dysonsphere.Server.Domain.Stats.{
  Floats, WindowStats, TrendPoint, JobSuccessRate, HostFailureCount,
}
use dysonsphere.Server.Store.{Env, Db, ok, Action}
use dysonsphere.Server.Store.Query.{statement}
use dysonsphere.Server.Repository.ExecutionRepo.{of_job}

abbrev pub is_running : ExecutionStatus → Bool
is_running running = true
is_running _ = false

abbrev pub is_success : ExecutionStatus → Bool
is_success success = true
is_success _ = false

abbrev pub is_failed : ExecutionStatus → Bool
is_failed failed = true
is_failed _ = false

abbrev pub is_partial : ExecutionStatus → Bool
is_partial partial = true
is_partial _ = false

abbrev pub is_unknown : ExecutionStatus → Bool
is_unknown unknown = true
is_unknown _ = false

abbrev pub is_missed : ExecutionStatus → Bool
is_missed missed = true
is_missed _ = false

-- created_at >= $1 AND status != 'running'
abbrev pub in_window : ℕ → Execution → Bool
in_window since e = leb since e.created_at && not (is_running e.status)

-- COUNT(*) FILTER (WHERE …)
abbrev pub tally : (ExecutionStatus → Bool) → List Execution → ℕ
tally p = count_if (λ e. p e.status)

-- A part of a total in percent, 0 of nothing.
abbrev pub percentage : Floats → ℕ → ℕ → Float64
percentage fl part total =
    if total == 0
    then 0
    else fl.mul (fl.div (fl.of_count part) (fl.of_count total)) (fl.of_count 100)

abbrev pub window_of : Floats → Text → Text → List Execution → WindowStats
window_of fl since label rows = record {
  window = label;
  since = since;
  total = length rows;
  success = tally is_success rows;
  failed = tally is_failed rows;
  partial = tally is_partial rows;
  unknown = tally is_unknown rows;
  missed = tally is_missed rows;
  success_rate = percentage fl (tally is_success rows) (length rows);
}

-- `rfc3339` writes a time.
unfoldable pub get_window_stats : Env → Floats → (ℕ → Text) → ℕ → Text → Action WindowStats
get_window_stats env fl rfc3339 since label = statement env λ now fresh db.
    (ok (window_of fl (rfc3339 since) label (select (in_window since) db.executions)), db)

-- 1970-01-01, in nanoseconds since Go's zero time.
abbrev pub unix_epoch : ℕ
unix_epoch = 62_135_596_800 * 1_000_000_000

-- The start of the bucket of a time: what `floor` leaves of the distance to the epoch, whose sign it
-- heeds.
unfoldable pub bucket_of : ℕ → ℕ → ℕ
bucket_of bucket_seconds t =
    let width = bucket_seconds * 1_000_000_000 in
    if leb unix_epoch t
    then unix_epoch + (t - unix_epoch) / width * width
    else unix_epoch - (unix_epoch - t + (width - 1)) / width * width

-- The keys of a GROUP BY, each once.
unfoldable pub distinct {κ} : {K : Type κ} ⦃eq : Eq K⦄ → List K → List K
distinct [] = []
distinct (k ∷ ks) = let rest = distinct ks in if exists_row (λ j. k == j) ks then rest else k ∷ rest

module _ {ℓ κ} {A : Type ℓ} {K : Type κ} ⦃eq : Eq K⦄ where
  -- The rows of a group.
  abbrev pub group : (A → K) → List A → K → List A
  group key rows k = select (λ x. key x == k) rows

  -- GROUP BY: what `f` makes of each group.
  abbrev pub group_by {μ} : {B : Type μ} → (A → K) → (K → List A → B) → List A → List B
  group_by key f rows = map (λ k. f k (group key rows k)) (distinct (map key rows))

abbrev pub point_of : ℕ → List Execution → TrendPoint
point_of bucket rows = record {
  bucket = bucket;
  total = length rows;
  success = tally is_success rows;
  failed = tally is_failed rows;
  unknown = tally (λ s. is_unknown s || is_partial s) rows;
}

abbrev pub earlier : TrendPoint → TrendPoint → Bool
earlier p q = ltb p.bucket q.bucket

unfoldable pub get_failure_trend : Env → ℕ → ℕ → Action (List TrendPoint)
get_failure_trend env since bucket_seconds = statement env λ now fresh db. (
  ok (
      order_by earlier (
        group_by (λ e. bucket_of bucket_seconds e.created_at) point_of
          (select (in_window since) db.executions))),
  db,
)

abbrev pub failures_of : Floats → Text → List Execution → HostFailureCount
failures_of fl host rows = record {
  host_id = host;
  total = length rows;
  failed = tally is_failed rows;
  failure_rate = percentage fl (tally is_failed rows) (length rows);
}

-- ORDER BY failed DESC, total DESC
abbrev pub worse : ℕ → ℕ → ℕ → ℕ → Bool
worse f t g u = ltb g f || g == f && ltb u t

unfoldable pub get_host_failure_counts : Env → Floats → ℕ → Action (List HostFailureCount)
get_host_failure_counts env fl since = statement env λ now fresh db. (
  ok (
      order_by (λ c d. worse c.failed c.total d.failed d.total)
        (group_by (λ e. e.host_id) (failures_of fl) (select (in_window since) db.executions))),
  db,
)

abbrev latest : List Execution → Option ℕ
latest [] = none
latest (e ∷ es) = elim (latest es) [
  | none ↦ some e.created_at
  | some t ↦ if ltb e.created_at t then some t else some e.created_at
]

-- COALESCE(cjs.consecutive_fail, 0)
abbrev fails_of : Db → Text → ℕ
fails_of db job = elim (find (λ s. s.job_id == job) db.job_states) [
  | none ↦ 0
  | some s ↦ s.consecutive_fail
]

-- The host of the job that the JOIN found.
abbrev pub host_of : Db → Text → Text
host_of db job = elim (find (λ j. j.id == job) db.jobs) [ none ↦ [] | some j ↦ j.host_id ]

abbrev job_key : Execution → Text
job_key e = elim e.job_id [ none ↦ [] | some id ↦ id ]

-- The row names a job of the table.
abbrev pub joins : Db → Execution → Bool
joins db e = elim e.job_id [ none ↦ false | some id ↦ exists_row (λ j. j.id == id) db.jobs ]

abbrev rates_of : Floats → Db → Text → List Execution → JobSuccessRate
rates_of fl db job rows = record {
  job_id = job;
  host_id = host_of db job;
  total = length rows;
  success = tally is_success rows;
  failed = tally is_failed rows;
  success_rate = percentage fl (tally is_success rows) (length rows);
  consecutive_fail = fails_of db job;
  last_run_at = latest rows;
}

-- An id is the key of a job and of its state, so that a group by the job is a group by all columns.
unfoldable pub get_job_success_rates : Env → Floats → ℕ → Action (List JobSuccessRate)
get_job_success_rates env fl since = statement env λ now fresh db. (
  ok (
      order_by (λ r s. worse r.failed r.total s.failed s.total)
        (group_by job_key (rates_of fl db)
          (select (λ e. joins db e && in_window since e) db.executions))),
  db,
)
