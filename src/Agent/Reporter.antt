-- ===== src/Agent/Reporter.antt =====
-- The reporter of the agent: apps/agent/internal/reporter/reporter.go.
pub mod Delivery
pub mod Keyed
pub mod Emptied
use dysonsphere.Common.{
  ℕ, Bool, true, false, Option, none, some, List, [], ◌∷◌, ◌++◌, map, Text, if◌then◌else◌,
}
use dysonsphere.Server.Domain.{Json}
use dysonsphere.Agent.World.{AgentEnv, PendingEvent, World, Action, pure, ◌>>=◌, ◌>>◌, request}
use dysonsphere.Agent.Store.{
  save_execution, save_metric, pending_executions, pending_metrics, delete_execution, delete_metric,
}

abbrev pub payloads : List PendingEvent → List Json
payloads = map (λ p. p.payload)

module _ (env : AgentEnv) where
  -- The server has taken the events.
  abbrev pub deliver_executions : List Json → Action env (Unit {0})
  deliver_executions events w = (tt, record w { sent_executions = w.sent_executions ++ events })

  abbrev pub deliver_metrics : List Json → Action env (Unit {0})
  deliver_metrics events w = (tt, record w { sent_metrics = w.sent_metrics ++ events })

  -- An error of a deletion is dropped.
  unfoldable pub delete_executions : List PendingEvent → Action env (Unit {0})
  delete_executions [] = pure tt
  delete_executions (p ∷ ps) = do delete_execution env p.id; delete_executions ps

  unfoldable pub delete_metrics : List PendingEvent → Action env (Unit {0})
  delete_metrics [] = pure tt
  delete_metrics (p ∷ ps) = do delete_metric env p.id; delete_metrics ps

  unfoldable pub upload_executions : List PendingEvent → Action env (Unit {0})
  upload_executions pending = do
    ok ← request env
    if ok then (deliver_executions (payloads pending) >> delete_executions pending) else pure tt

  -- Nothing is uploaded after an error, or if nothing is buffered.
  abbrev pub upload_found_executions : Option (List PendingEvent) → Action env (Unit {0})
  upload_found_executions none = pure tt
  upload_found_executions (some []) = pure tt
  upload_found_executions (some (p ∷ ps)) = upload_executions (p ∷ ps)

  unfoldable pub flush_executions : Action env (Unit {0})
  flush_executions = do found ← pending_executions env; upload_found_executions found

  unfoldable pub upload_metrics : List PendingEvent → Action env (Unit {0})
  upload_metrics pending = do
    ok ← request env
    if ok then (deliver_metrics (payloads pending) >> delete_metrics pending) else pure tt

  -- Nothing is uploaded after an error, or if nothing is buffered.
  abbrev pub upload_found_metrics : Option (List PendingEvent) → Action env (Unit {0})
  upload_found_metrics none = pure tt
  upload_found_metrics (some []) = pure tt
  upload_found_metrics (some (p ∷ ps)) = upload_metrics (p ∷ ps)

  unfoldable pub flush_metrics : Action env (Unit {0})
  flush_metrics = do found ← pending_metrics env; upload_found_metrics found

  -- An error is logged only.
  unfoldable pub buffer_execution : Text → Json → Action env (Unit {0})
  buffer_execution id event = save_execution env id event >> pure tt

  unfoldable pub buffer_metric : Text → Json → Action env (Unit {0})
  buffer_metric id metric = save_metric env id metric >> pure tt
