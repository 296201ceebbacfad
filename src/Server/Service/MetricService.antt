-- ===== src/Server/Service/MetricService.antt =====
-- apps/server/internal/service/metric.go
use dysonsphere.Common.{ℕ, List, [], ◌∷◌, Text}
use dysonsphere.Server.Domain.{DataMetric}
use dysonsphere.Server.Store.{Env, Action, pure, attempt, ◌>>=◌}
use dysonsphere.Server.Repository.MetricRepo
use dysonsphere.Server.Service.DiscoveryService.{keep_ok}

unfoldable pub batch_report : Env → Text → List DataMetric → Action (List DataMetric)
batch_report env host_id [] = pure []
batch_report env host_id (m ∷ ms) = do
  saved ← attempt (MetricRepo.insert env (record m { host_id = host_id }))
  rest ← batch_report env host_id ms
  pure (keep_ok saved rest)

unfoldable pub list_metrics : Env → ℕ → ℕ → Action (List DataMetric)
list_metrics env limit offset = MetricRepo.list_metrics env limit offset
