-- ===== src/Server/Delivery.antt =====
-- The delivery of the commands: the operations that apps/server/internal/api/handlers.go runs on
-- apps/server/internal/service/command.go, one after the other, and the commands they hand out.
pub mod Picked
pub mod Once
use dysonsphere.Common.{ℕ, Option, List, [], ◌∷◌, ◌++◌, Text}
use dysonsphere.Server.Domain.{AgentCommand}
use dysonsphere.Server.Store.{Env, Db, Result, ok, err, Action, pure, ◌>>=◌, ◌>>◌}
use dysonsphere.Server.Service.CommandService.{enqueue_runs, claim_pending, complete}

pub data CommandOp : Type 0 where
  enqueue : Text → List Text → CommandOp
  claim : Text → ℕ → CommandOp
  finish : Text → Text → Text → Option ℕ → Option ℕ → Option ℕ → CommandOp

-- The commands that an operation hands to an agent.
abbrev pub perform : Env → CommandOp → Action (List AgentCommand)
perform env (enqueue host ids) = enqueue_runs env host ids >> pure []
perform env (claim host limit) = claim_pending env host limit
perform env (finish id status message started finished code) =
    complete env id status message started finished code >> pure []

abbrev pub handed : Result (List AgentCommand) → List AgentCommand
handed (ok rows) = rows
handed (err e) = []

unfoldable pub serve : Env → List CommandOp → Db → List AgentCommand × Db
serve env [] db = ([], db)
serve env (op ∷ ops) db =
    let (r, db') = perform env op db in
    let (rows, db'') = serve env ops db' in (handed r ++ rows, db'')
