-- ===== src/Server/Service/DiscoveryService.antt =====
-- apps/server/internal/service/discovery.go
use dysonsphere.Common.{List, [], ◌∷◌, Text}
use dysonsphere.Server.Domain.{Job}
use dysonsphere.Server.Store.{Env, Result, ok, err, Action, pure, attempt, ◌>>=◌}
use dysonsphere.Server.Repository.JobRepo

-- A result that is an error is skipped.
abbrev pub keep_ok {ℓ} : {A : Type ℓ} → Result A → List A → List A
keep_ok (ok a) xs = a ∷ xs
keep_ok (err e) xs = xs

unfoldable pub process_discovery : Env → Text → List Job → Action (List Job)
process_discovery env host_id [] = pure []
process_discovery env host_id (j ∷ js) = do
  saved ← attempt (JobRepo.upsert env (record j { host_id = host_id }))
  rest ← process_discovery env host_id js
  pure (keep_ok saved rest)

unfoldable pub get_job : Env → Text → Action Job
get_job env job_id = JobRepo.get_by_id env job_id
