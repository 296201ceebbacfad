-- ===== src/Agent/World.antt =====
-- The world of the agent: what it holds on disk, and what it meets outside of its own code. The
-- actions of the agent go one after the other.
pub mod Keeps
use dysonsphere.Common.{
  ℕ, suc, Bool, true, false, Option, none, some, List, [], Text, if◌then◌else◌,
}
use dysonsphere.Server.Domain.{Json, Float64}
use dysonsphere.Agent.Bolt.{Bolt}

-- How a shell command ended: what it wrote, and the error, with the exit code of an `ExitError`.
pub record ShellRun : Type 0 where
  pub output : Text
  pub error : Option (Text × Option ℕ)

-- What a step meets, by the number of the steps made before it: whether an operation of bbolt fails,
-- the time, the UUID drawn, whether a request to the server succeeds; and the formats of Go's
-- standard library: a time in RFC 3339 and as JSON, a float, an integer, an exit code as JSON, `%d` read back, `%q`, the
-- seconds between two times, and strings.EqualFold. `visit` is the order in which a `range` goes
-- through a map, and `shell` runs a command.
pub record AgentEnv : Type 1 where
  pub bolt : Bolt
  pub store_fails : ℕ → Bool
  pub now : ℕ → ℕ
  pub uuid : ℕ → Text
  pub accepts : ℕ → Bool
  pub rfc3339 : ℕ → Text
  pub json_time : ℕ → Text
  pub show_float : Float64 → Text
  pub show_int : ℕ → Text
  pub show_code : ℕ → Text
  pub scan_int : Text → ℕ
  pub quote : Text → Text
  pub seconds : ℕ → ℕ → Float64
  pub equal_fold : Text → Text → Bool
  pub visit : {A : Type 0} → ℕ → List A → List A
  pub shell : ℕ → Text → ShellRun

-- A buffered event: PendingExecution and PendingMetric.
pub record PendingEvent : Type 0 where
  pub id : Text
  pub created_at : ℕ
  pub payload : Json

pub record StoredJob : Type 0 where
  pub command_hash : Text
  pub schedule : Text
  pub timezone : Text
  pub user : Text
  pub raw_command : Text
  pub normalized_command : Text
  pub source_file : Text
  pub updated_at : ℕ

pub record LocalExecution : Type 0 where
  pub id : Text
  pub job_id : Text
  pub command_hash : Text
  pub command : Text
  pub schedule : Text
  pub status : Text
  pub trigger : Text
  pub confidence_score : Float64
  pub started_at : ℕ
  pub finished_at : Option ℕ
  pub duration_seconds : Option Float64
  pub pid : Option ℕ
  pub exit_code : Option ℕ
  pub evidence : Json
  pub last_updated_at : ℕ

-- The buckets of the state file.
pub record Buckets (bolt : Bolt) : Type 0 where
  pub executions : bolt.Bucket PendingEvent
  pub metrics : bolt.Bucket PendingEvent
  pub settings : bolt.Bucket Text
  pub jobs : bolt.Bucket StoredJob
  pub local_runs : bolt.Bucket LocalExecution

-- The state file, the steps made, and the events of the uploads that the server accepted.
pub record World (env : AgentEnv) : Type 0 where
  pub steps : ℕ
  pub buckets : Buckets env.bolt
  pub sent_executions : List Json
  pub sent_metrics : List Json

abbrev pub Action {ℓ} : AgentEnv → Type ℓ → Type ℓ
Action env A = World env → A × World env

module _ {ℓ} {env : AgentEnv} {A : Type ℓ} where
  abbrev pub pure : A → Action env A
  pure a w = (a, w)

  -- An action over the environment makes a step.
  abbrev pub ask : (ℕ → A) → Action env A
  ask f w = (f w.steps, record w { steps = suc w.steps })

module _ {ℓ κ} {env : AgentEnv} {A : Type ℓ} {B : Type κ} where
  infixl 5 ◌>>=◌ ◌>>◌
  abbrev pub ◌>>=◌ : Action env A → (A → Action env B) → Action env B
  ◌>>=◌ m f w = let (a, w') = m w in f a w'

  abbrev pub ◌>>◌ : Action env A → Action env B → Action env B
  m >> n = m >>= λ _. n

module _ (env : AgentEnv) where
  -- A transaction that changes the buckets; false is its error.
  unfoldable pub update : (Buckets env.bolt → Buckets env.bolt) → Action env Bool
  update f w =
      if env.store_fails w.steps
      then (false, record w { steps = suc w.steps })
      else (true, record w { steps = suc w.steps; buckets = f w.buckets })

  -- A transaction that reads the buckets; none is its error.
  unfoldable pub view {ℓ} : {A : Type ℓ} → (Buckets env.bolt → A) → Action env (Option A)
  view f w = (
    if env.store_fails w.steps then none else some (f w.buckets),
    record w { steps = suc w.steps },
  )

  -- A request to the server; false is its error, or a status of 400 or more.
  abbrev pub request : Action env Bool
  request = ask env.accepts

  abbrev pub clock : Action env ℕ
  clock = ask env.now

  abbrev pub new_uuid : Action env Text
  new_uuid = ask env.uuid

abbrev pub empty_buckets : (bolt : Bolt) → Buckets bolt
empty_buckets bolt = record {
  executions = bolt.empty;
  metrics = bolt.empty;
  settings = bolt.empty;
  jobs = bolt.empty;
  local_runs = bolt.empty;
}
