-- ===== src/Server/Enrollment.antt =====
-- The enrollment of agents: the operations on the enrollment tokens that
-- apps/server/internal/api/handlers.go runs on apps/server/internal/service/agent.go.
pub mod Spent
pub mod Once
pub mod Race
pub mod Stored
use dysonsphere.Common.{Bool, List, [], ◌∷◌, Text}
use dysonsphere.Server.Domain.{Host, EnrollmentToken}
use dysonsphere.Server.Store.{Env, Db, Action, pure, ◌>>=◌, ◌>>◌}
use dysonsphere.Server.Service.AgentService.{enroll, generate_enrollment_token, hash_token}

pub data TokenOp : Type 0 where
  issue : Text → TokenOp
  join : Text → Text → Host → TokenOp

abbrev pub perform : Env → TokenOp → Action (Unit {0})
perform env (issue label) = generate_enrollment_token env label >> pure tt
perform env (join static_token token h) = enroll env static_token token h >> pure tt

-- The database after operations, each of which may have failed.
unfoldable pub after : Env → List TokenOp → Db → Db
after env [] db = db
after env (op ∷ ops) db = after env ops (perform env op db).1
