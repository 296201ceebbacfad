-- ===== src/Server/Store.antt =====
-- The database behind apps/server/internal/repository, as the tables that its SQL statements read and
-- write, and the actions that run them. PostgreSQL, its clock and its ids, and the UUID parser are
-- not code of the repository: they are the operations of an `Env`.
pub mod Query
pub mod Keeps
pub mod Ran
use dysonsphere.Common.{ℕ, suc, ◌≡◌, ◌≢◌, Bool, true, false, Option, none, some, List, [], Text}
use dysonsphere.Server.Domain.{
  Host, Job, Execution, DataMetric, Alert, CurrentJobState, CurrentHostState, EnrollmentToken,
  AgentCommand,
}

-- What a step of the program meets, by the number of the steps made before it: whether the statement
-- fails, the time, and the id that the database draws for a new row. `uuid_parse` is uuid.Parse of a
-- text, and `pg_uuid` the driver's conversion of a text for a column of type UUID; both give the
-- canonical text of the UUID.
pub record Env : Type 0 where
  pub fails : ℕ → Bool
  pub now : ℕ → ℕ
  pub fresh : ℕ → Text
  pub uuid_parse : Text → Option Text
  pub pg_uuid : Text → Option Text
  pub sha256 : Text → Text
  pub random : ℕ → Option Text
  pub confidence_ok : ℕ → Bool

-- A credential of an agent: the table agent_credentials.
pub record Credential : Type 0 where
  pub host_id : Text
  pub token_hash : Text
  pub created_at : ℕ
  pub rotated_at : ℕ

-- The tables, a row that was inserted later standing behind the others, and the steps made.
pub record Db : Type 0 where
  pub steps : ℕ
  pub hosts : List Host
  pub jobs : List Job
  pub executions : List Execution
  pub metrics : List DataMetric
  pub alerts : List Alert
  pub commands : List AgentCommand
  pub credentials : List Credential
  pub tokens : List EnrollmentToken
  pub host_states : List CurrentHostState
  pub job_states : List CurrentJobState

unfoldable pub empty_db : Db
empty_db = record {
  steps = 0;
  hosts = [];
  jobs = [];
  executions = [];
  metrics = [];
  alerts = [];
  commands = [];
  credentials = [];
  tokens = [];
  host_states = [];
  job_states = [];
}

pub data Error : Type 0 where
  query_failed bad_uuid no_rows violation random_failed : Error
  token_required token_used token_expired token_invalid : Error
  wrong_host bad_status : Error

pub data Result {ℓ} (A : Type ℓ) : Type ℓ where
  ok : A → Result A
  err : Error → Result A

-- An action on the database; what it wrote before an error stays written.
abbrev pub Action {ℓ} : Type ℓ → Type ℓ
Action A = Db → Result A × Db

module _ {ℓ κ} {A : Type ℓ} {B : Type κ} where
  abbrev pub continue : Result A → (A → Db → Result B × Db) → Db → Result B × Db
  continue (ok a) f db = f a db
  continue (err e) f db = (err e, db)

abbrev pub pure {ℓ} : {A : Type ℓ} → A → Action A
pure a db = (ok a, db)

abbrev pub raise {ℓ} : {A : Type ℓ} → Error → Action A
raise e db = (err e, db)

infixl 5 ◌>>=◌ ◌>>◌
abbrev pub ◌>>=◌ {ℓ} : {A B : Type ℓ} → Action A → (A → Action B) → Action B
◌>>=◌ m f db = let (r, db') = m db in continue r f db'

abbrev pub ◌>>◌ {ℓ} : {A B : Type ℓ} → Action A → Action B → Action B
m >> n = m >>= λ _. n

-- The result of an action whose error is logged and dropped.
abbrev pub attempt {ℓ} : {A : Type ℓ} → Action A → Action (Result A)
attempt m db = let (r, db') = m db in (ok r, db')

abbrev pub lift {ℓ} : {A : Type ℓ} → Error → Option A → Action A
lift e none = raise e
lift e (some a) = pure a

abbrev pub guard : Bool → Error → Action (Unit {0})
guard b e = elim b [ true ↦ pure tt | false ↦ raise e ]
