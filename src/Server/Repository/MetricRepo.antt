-- ===== src/Server/Repository/MetricRepo.antt =====
-- apps/server/internal/repository/metric.go
use dysonsphere.Common.{
  ℕ, Bool, true, false, ◌&&◌, List, [], ◌∷◌, ◌++◌, Text, text_eq, nat_eq, ◌==◌, ltb, take, drop,
  if◌then◌else◌,
}
use dysonsphere.Common.Tables.{exists_row, order_by}
use dysonsphere.Server.Domain.{DataMetric, MetricType, MetricStatus}
use dysonsphere.Server.Store.{Env, violation, ok, err, Action, ◌>>=◌}
use dysonsphere.Server.Store.Query.{statement, parse_uuid}

-- The CHECK constraints of the columns `metric_type` and `status`.
abbrev pub type_known : MetricType → Bool
type_known (MetricType.other s) = false
type_known _ = true

abbrev pub status_known : MetricStatus → Bool
status_known (MetricStatus.other s) = false
status_known _ = true

abbrev pub new_metric : ℕ → Text → Text → DataMetric → DataMetric
new_metric now id host m = record m { id = id; host_id = host; created_at = now }

unfoldable pub insert : Env → DataMetric → Action DataMetric
insert env m = do
  host ← parse_uuid env m.host_id
  statement env λ now id db.
      if type_known m.metric_type
        && (status_known m.status && exists_row (λ r. r.id == host) db.hosts)
      then (
        ok (new_metric now id host m),
        record db { metrics = db.metrics ++ new_metric now id host m ∷ [] },
      )
      else (err violation, db)

abbrev measured_later : DataMetric → DataMetric → Bool
measured_later a b = ltb b.measured_at a.measured_at

-- ORDER BY measured_at DESC LIMIT … OFFSET …, with 50 for a limit that is not positive
unfoldable pub list_metrics : Env → ℕ → ℕ → Action (List DataMetric)
list_metrics env limit offset = statement env λ now fresh db. (
  ok (take (if limit == 0 then 50 else limit) (drop offset (order_by measured_later db.metrics))),
  db,
)
