-- ===== src/Server/StatsRepo/Counts.antt =====
-- The sums of the counts of apps/server/internal/repository/stats.go.
pub mod Groups
use dysonsphere.Common.{
  ℕ, zero, suc, ◌+◌, ◌*◌, ◌≡◌, refl, sym, ap, ◌∙◌, Bool, true, false, Bool-cases, ◌⊎◌, inl, inr,
  ◌||◌, List, [], ◌∷◌, map, Text, text_eq, nat_eq, Eq, ◌==◌, length, count_if, if◌then◌else◌, All,
  arith,
}
use dysonsphere.Common.Tables.{select, exists_row, order_by, place}
use dysonsphere.Server.Domain.{
  Execution, ExecutionStatus, running, success, failed, unknown, partial, missed, other,
}
use dysonsphere.Server.Domain.Stats.{Floats, WindowStats, TrendPoint, HostFailureCount}
use dysonsphere.Server.Store.{Env, Db, ok}
use dysonsphere.Server.Store.Query.{statement, tick}
use dysonsphere.Server.Repository.ExecutionRepo.{is_known}
use dysonsphere.Server.StatsRepo.{
  distinct, group, group_by, in_window, is_running, is_success, is_failed, is_partial, is_unknown,
  is_missed, tally, window_of, get_window_stats, bucket_of, point_of, earlier, get_failure_trend,
  failures_of, worse, get_host_failure_counts,
}
use Groups.{sum_of, sum_of-order_by, group_by-share}

length-count : (xs : List Execution) → length xs ≡ count_if (λ x. true) xs
length-count [] = refl
length-count (x ∷ xs) = omega (arith, length-count xs)

unknown_or_partial : (s : ExecutionStatus) → (is_unknown s ≡ false) ⊎ (is_partial s ≡ false)
unknown_or_partial running = inl refl
unknown_or_partial success = inl refl
unknown_or_partial failed = inl refl
unknown_or_partial unknown = inr refl
unknown_or_partial partial = inl refl
unknown_or_partial missed = inl refl
unknown_or_partial (other s) = inl refl

tally-or :
    (xs : List Execution)
    → tally (λ s. is_unknown s || is_partial s) xs ≡ tally is_unknown xs + tally is_partial xs
tally-or [] = refl
tally-or (x ∷ xs) = ground (arith, tally-or xs, unknown_or_partial x.status)

-- A status that is not running and that the table admits is counted once.
one_part :
    (s : ExecutionStatus)
    → is_running s ≡ false
    → is_known s ≡ true
    → (if is_success s then 1 else 0)
        + (if is_failed s then 1 else 0)
        + (if is_partial s then 1 else 0)
        + (if is_unknown s then 1 else 0)
        + (if is_missed s then 1 else 0)
      ≡ 1
one_part running h k = ground (arith, h)
one_part success h k = refl
one_part failed h k = refl
one_part unknown h k = refl
one_part partial h k = refl
one_part missed h k = refl
one_part (other s) h k = ground (arith, k)

parts :
    (since : ℕ) (xs : List Execution)
    → All (λ e. is_known e.status ≡ true) xs
    → let rows = select (in_window since) xs in
      length rows
      ≡ tally is_success rows
        + tally is_failed rows
        + tally is_partial rows
        + tally is_unknown rows
        + tally is_missed rows
unfolding select
parts since [] h = refl
parts since (x ∷ xs) h = elim (Bool-cases (in_window since x)) [
  | inr out ↦ rw out (parts since xs h.1)
  | inl counted ↦
      rw counted
        (omega (arith, one_part x.status (ground (arith, counted)) h.0, parts since xs h.1))
]

-- A query that was run gives what it computes from the tables.
query_value :
    {A : Type 0} (env : Env) (q : Db → A) (db : Db) (a : A)
    → (statement env (λ now fresh d. (ok (q d), d)) db).0 ≡ ok a
    → a ≡ q (tick db)
unfolding statement
query_value env q db a h = ground (arith, h)

module _ (env : Env) (fl : Floats) (rfc3339 : ℕ → Text) (since : ℕ) (label : Text) (db : Db) where
  abbrev counted : List Execution
  counted = select (in_window since) db.executions

  window_value :
      (w : WindowStats)
      → (get_window_stats env fl rfc3339 since label db).0 ≡ ok w
      → w ≡ window_of fl (rfc3339 since) label counted
  unfolding get_window_stats
  window_value w h =
      query_value env
        (λ d. window_of fl (rfc3339 since) label (select (in_window since) d.executions)) db w h

  abbrev ordered_points : ℕ → List Execution → List TrendPoint
  ordered_points width rows =
      order_by earlier (group_by (λ e. bucket_of width e.created_at) point_of rows)

  points_sum :
      (width : ℕ) (n : TrendPoint → ℕ) (p : Execution → Bool)
      → ((k : ℕ) (xs : List Execution) → n (point_of k xs) ≡ count_if p xs)
      → sum_of n (ordered_points width counted) ≡ count_if p counted
  points_sum width n p h =
      sum_of-order_by n earlier (group_by (λ e. bucket_of width e.created_at) point_of counted)
      ∙ group_by-share (λ e. bucket_of width e.created_at) p point_of n counted h

  points_value :
      (width : ℕ) (points : List TrendPoint)
      → (get_failure_trend env since width db).0 ≡ ok points
      → points ≡ ordered_points width counted
  unfolding get_failure_trend
  points_value width points h =
      query_value env (λ d. ordered_points width (select (in_window since) d.executions)) db points
        h

  abbrev ordered_hosts : List Execution → List HostFailureCount
  ordered_hosts rows =
      order_by (λ c d. worse c.failed c.total d.failed d.total)
        (group_by (λ e. e.host_id) (failures_of fl) rows)

  hosts_sum :
      (n : HostFailureCount → ℕ) (p : Execution → Bool)
      → ((k : Text) (xs : List Execution) → n (failures_of fl k xs) ≡ count_if p xs)
      → sum_of n (ordered_hosts counted) ≡ count_if p counted
  hosts_sum n p h =
      sum_of-order_by n (λ c d. worse c.failed c.total d.failed d.total)
        (group_by (λ e. e.host_id) (failures_of fl) counted)
      ∙ group_by-share (λ e. e.host_id) p (failures_of fl) n counted h

  hosts_value :
      (counts : List HostFailureCount)
      → (get_host_failure_counts env fl since db).0 ≡ ok counts
      → counts ≡ ordered_hosts counted
  unfolding get_host_failure_counts
  hosts_value counts h =
      query_value env (λ d. ordered_hosts (select (in_window since) d.executions)) db counts h

-- Where the statement is run and every execution in the table has one of the statuses that the table
-- admits, the total of the window is the sum of its parts.
pub window_total :
    (env : Env) (fl : Floats) (rfc3339 : ℕ → Text) (since : ℕ) (label : Text) (db : Db)
    (w : WindowStats)
    → All (λ e. is_known e.status ≡ true) db.executions
    → (get_window_stats env fl rfc3339 since label db).0 ≡ ok w
    → w.total ≡ w.success + w.failed + w.partial + w.unknown + w.missed
window_total env fl rfc3339 since label db w known h =
    rw (window_value env fl rfc3339 since label db w h) (parts since db.executions known)

-- Where the statements are run, the points of the trend add up to the window of the same start: in
-- their totals, their successes and their failures, and in what the trend calls unknown, which the
-- window counts as unknown or as partial.
pub trend_adds_up :
    (env : Env) (fl : Floats) (rfc3339 : ℕ → Text) (since bucket_seconds : ℕ) (label : Text)
    (db : Db) (w : WindowStats) (points : List TrendPoint)
    → (get_window_stats env fl rfc3339 since label db).0 ≡ ok w
    → (get_failure_trend env since bucket_seconds db).0 ≡ ok points
    → (sum_of (λ p. p.total) points ≡ w.total)
      × ((sum_of (λ p. p.success) points ≡ w.success)
          × ((sum_of (λ p. p.failed) points ≡ w.failed)
              × (sum_of (λ p. p.unknown) points ≡ w.unknown + w.partial)))
trend_adds_up env fl rfc3339 since bucket_seconds label db w points hw hp =
    let sum = points_sum env fl rfc3339 since label db bucket_seconds in
    rw
      (
        window_value env fl rfc3339 since label db w hw,
        points_value env fl rfc3339 since label db bucket_seconds points hp,
      )
      (
        sum (λ p. p.total) (λ e. true) (λ k xs. length-count xs)
            ∙ sym (length-count (select (in_window since) db.executions)),
        (
          sum (λ p. p.success) (λ e. is_success e.status) (λ k xs. refl),
          (
            sum (λ p. p.failed) (λ e. is_failed e.status) (λ k xs. refl),
            sum (λ p. p.unknown) (λ e. is_unknown e.status || is_partial e.status) (λ k xs. refl)
                ∙ tally-or (select (in_window since) db.executions),
          ),
        ),
      )

-- Where the statements are run, the counts of the hosts add up to the window of the same start.
pub hosts_add_up :
    (env : Env) (fl : Floats) (rfc3339 : ℕ → Text) (since : ℕ) (label : Text) (db : Db)
    (w : WindowStats) (counts : List HostFailureCount)
    → (get_window_stats env fl rfc3339 since label db).0 ≡ ok w
    → (get_host_failure_counts env fl since db).0 ≡ ok counts
    → (sum_of (λ c. c.total) counts ≡ w.total) × (sum_of (λ c. c.failed) counts ≡ w.failed)
hosts_add_up env fl rfc3339 since label db w counts hw hc =
    let sum = hosts_sum env fl rfc3339 since label db in
    rw
      (
        window_value env fl rfc3339 since label db w hw,
        hosts_value env fl rfc3339 since label db counts hc,
      )
      (
        sum (λ c. c.total) (λ e. true) (λ k xs. length-count xs)
            ∙ sym (length-count (select (in_window since) db.executions)),
        sum (λ c. c.failed) (λ e. is_failed e.status) (λ k xs. refl),
      )
