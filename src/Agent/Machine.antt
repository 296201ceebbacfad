-- ===== src/Agent/Machine.antt =====
-- The machine as the command of apps/agent/cmd/agent/main.go meets it: the files, the state file of the
-- agent, and the processes. The operating system is not code of the repository: it is the operations
-- of a `MachineEnv`. State files stand beside the texts, each under its path;
-- what reads a text does not find them.
pub mod Stores
pub mod Ran
use dysonsphere.Common.{
  ℕ, suc, Bool, true, false, Option, none, some, List, [], ◌∷◌, Text, text_eq, if◌then◌else◌,
}
use dysonsphere.Common.Assoc.{Assoc, lookup, insert, remove}
use dysonsphere.Server.Api.Query.{ℤ}
use dysonsphere.Agent.World.{AgentEnv, Buckets, World}
use dysonsphere.Agent.Client.{HttpRequest, Transport}

-- What a reading of standard input up to the end of a line gives: false if the line does not end.
pub record Line : Type 0 where
  pub text : Text
  pub ended : Bool

-- What syscall.Kill gives: `no_process` is ESRCH.
pub data Kill : Type 0 where
  killed no_process not_permitted : Kill

-- What a step meets, by the number of the steps made before it: whether a system call fails, what a
-- write that fails leaves in the file, the message of a reading that fails, a line of standard input,
-- how a signal ends, and the pid of a process that is started.
pub record MachineEnv : Type 0 where
  pub fails : ℕ → Bool
  pub torn : ℕ → Text
  pub message : ℕ → Text
  pub line : ℕ → Line
  pub kill : ℕ → ℤ → Kill
  pub pid : ℕ → ℕ
  pub hostname : Text
  pub show_int : ℕ → Text
  pub transport : Transport

-- The world's buckets are those of the state file that was opened last, and its steps the steps made. A signal of `terminated` was sent without an
-- error; a process of `started` was given its arguments.
pub record Machine (agent : AgentEnv) : Type 0 where
  pub files : Assoc Text Text
  pub stores : Assoc Text (Buckets agent.bolt)
  pub world : World agent
  pub sent : List HttpRequest
  pub terminated : List ℤ
  pub started : List (List Text)

-- The Boolean says whether the error is os.ErrNotExist.
pub data Fault : Type 0 where
  open_config : Bool → Fault
  parse_config : Text → Fault
  open_credential : Text → Bool → Fault
  parse_credential : Text → Fault
  credential_empty : Text → Fault
  url_required token_required machine_required : Fault
  stat_failed : Fault
  server_url_required enrollment_token_required read_token_failed : Fault
  enrollment_failed write_credential_failed write_config_failed : Fault
  open_state_failed save_host_failed host_id_missing : Fault
  payload_not_base64 payload_not_json since_malformed : Fault
  make_dir_failed open_log_failed start_failed write_pid_failed : Fault
  already_running : ℤ → Fault
  read_pid_failed pid_malformed kill_failed : Fault

pub data Result (A : Type 0) : Type 0 where
  ok : A → Result A
  err : Fault → Result A

abbrev pub Action : AgentEnv → Type 0 → Type 0
Action agent A = Machine agent → Result A × Machine agent

module _ {agent : AgentEnv} {A B : Type 0} where
  abbrev pub continue : Result A → (A → Action agent B) → Action agent B
  continue (ok a) f m = f a m
  continue (err e) f m = (err e, m)

  infixl 5 ◌>>=◌ ◌>>◌
  abbrev pub ◌>>=◌ : Action agent A → (A → Action agent B) → Action agent B
  ◌>>=◌ p f m = let (r, m') = p m in continue r f m'

  abbrev pub ◌>>◌ : Action agent A → Action agent B → Action agent B
  p >> q = p >>= λ _. q

module _ {agent : AgentEnv} {A : Type 0} where
  abbrev pub pure : A → Action agent A
  pure a m = (ok a, m)

  abbrev pub raise : Fault → Action agent A
  raise e m = (err e, m)

-- One more step is made.
abbrev pub tick : {agent : AgentEnv} → Machine agent → Machine agent
tick m = record m { world = record m.world { steps = suc m.world.steps } }

-- An action over the environment makes a step.
abbrev pub ask : {agent : AgentEnv} {A : Type 0} → (ℕ → A) → Action agent A
ask f m = (ok (f m.world.steps), tick m)

abbrev found : (Bool → Fault) → Option Text → Result Text
found e none = err (e true)
found e (some s) = ok s

module _ {agent : AgentEnv} (env : MachineEnv) where
  -- A system call that changes nothing of the model, and whether it fails.
  abbrev pub try : Action agent Bool
  try = ask (λ n. if env.fails n then false else true)

  -- A system call whose error is returned.
  unfoldable pub sys : Fault → Action agent (Unit {0})
  sys e m = if env.fails m.world.steps then (err e, tick m) else (ok tt, tick m)

  -- os.Open, and the text of the file.
  unfoldable pub open_file : (Bool → Fault) → Text → Action agent Text
  open_file e path m =
      if env.fails m.world.steps
      then (err (e false), tick m)
      else (found e (lookup path m.files), tick m)

  -- os.ReadFile; none is its error.
  unfoldable pub read_file : Text → Action agent (Option Text)
  read_file path m = (ok (if env.fails m.world.steps then none else lookup path m.files), tick m)

  -- A text is written over a state file of this path.
  abbrev pub put_file : Text → Text → Machine agent → Machine agent
  put_file path s m = record m { files = insert path s m.files; stores = remove path m.stores }

  abbrev pub create_file : Text → Machine agent → Machine agent
  create_file path m = put_file path [] (tick m)

  -- os.OpenFile, which empties the file, and then a writing of the whole text.
  unfoldable pub write_file : Fault → Text → Text → Action agent (Unit {0})
  write_file e path s m =
      if env.fails m.world.steps
      then (err e, tick m)
      else if env.fails (suc m.world.steps)
      then (err e, put_file path (env.torn (suc m.world.steps)) (tick (create_file path m)))
      else (ok tt, put_file path s (tick (create_file path m)))
