-- ===== src/Agent/Store.antt =====
-- The state file of the agent: apps/agent/internal/state/store.go. A value is marshalled before it is
-- put, and is read back as it was.
use dysonsphere.Common.{ℕ, Bool, ◌||◌, Option, none, some, List, [], map, Text, text_eq, ltb}
use dysonsphere.Common.Tables.{select}
use dysonsphere.Server.Domain.{Json}
use dysonsphere.Agent.Bolt.{Bolt}
use dysonsphere.Agent.World.{
  AgentEnv, PendingEvent, StoredJob, LocalExecution, Action, ◌>>=◌, update, view, clock,
}

-- The values of a bucket, in the order of `ForEach`.
abbrev pub values : (bolt : Bolt) → {V : Type 0} → bolt.Bucket V → List V
values bolt b = map (λ e. e.1) (bolt.entries b)

module _ (env : AgentEnv) where
  unfoldable pub save_execution : Text → Json → Action env Bool
  unfolding update
  save_execution id payload = do
    now ← clock env
    update env λ b. record b {
      executions =
          env.bolt.put b.executions id (record { id = id; created_at = now; payload = payload });
    }

  unfoldable pub save_metric : Text → Json → Action env Bool
  unfolding update
  save_metric id payload = do
    now ← clock env
    update env λ b. record b {
      metrics = env.bolt.put b.metrics id (record { id = id; created_at = now; payload = payload });
    }

  unfoldable pub pending_executions : Action env (Option (List PendingEvent))
  unfolding view
  pending_executions = view env λ b. values env.bolt b.executions

  unfoldable pub pending_metrics : Action env (Option (List PendingEvent))
  unfolding view
  pending_metrics = view env λ b. values env.bolt b.metrics

  unfoldable pub delete_execution : Text → Action env Bool
  unfolding update
  delete_execution id = update env λ b. record b { executions = env.bolt.delete b.executions id }

  unfoldable pub delete_metric : Text → Action env Bool
  unfolding update
  delete_metric id = update env λ b. record b { metrics = env.bolt.delete b.metrics id }

  unfoldable pub set_meta : Text → Text → Action env Bool
  unfolding update
  set_meta key value = update env λ b. record b { settings = env.bolt.put b.settings key value }

  abbrev pub text_or_empty : Option Text → Text
  text_or_empty none = []
  text_or_empty (some s) = s

  -- A key that is missing has the empty value.
  unfoldable pub get_meta : Text → Action env (Option Text)
  unfolding view
  get_meta key = view env λ b. text_or_empty (env.bolt.get b.settings key)

  unfoldable pub save_job : StoredJob → Action env Bool
  unfolding update
  save_job job = do
    now ← clock env
    update env λ b. record b {
      jobs = env.bolt.put b.jobs job.command_hash (record job { updated_at = now });
    }

  unfoldable pub list_jobs : Action env (Option (List StoredJob))
  unfolding view
  list_jobs = view env λ b. values env.bolt b.jobs

  unfoldable pub save_local_execution : LocalExecution → Action env Bool
  unfolding update
  save_local_execution exec = do
    now ← clock env
    update env λ b. record b {
      local_runs = env.bolt.put b.local_runs exec.id (record exec { last_updated_at = now });
    }

  unfoldable pub list_local_executions_since : ℕ → Action env (Option (List LocalExecution))
  unfolding view
  list_local_executions_since since = view env λ b.
      select (λ e. ltb since e.last_updated_at || ltb since e.started_at)
        (values env.bolt b.local_runs)
