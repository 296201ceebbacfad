-- ===== src/Agent/Commands.antt =====
-- The commands `init` and `status` of apps/agent/cmd/agent/main.go, by the values of their flags.
use dysonsphere.Common.{ℕ, Option, none, some, List, Text, if◌then◌else◌}
use dysonsphere.Common.Strings.{is_empty}
use dysonsphere.Agent.World.{AgentEnv}
use dysonsphere.Agent.Machine.{
  MachineEnv, payload_not_base64, payload_not_json, since_malformed, open_state_failed, Action,
  pure, raise, ◌>>=◌, ◌>>◌,
}
use dysonsphere.Agent.Config.{Yamls, load}
use dysonsphere.Agent.Paths.{default_value}
use dysonsphere.Agent.Machine.Stores.{open_state, in_state}
use dysonsphere.Agent.Setup.{interactive_init}
use dysonsphere.Agent.Status.{print_local_status}

pub record EnrollPayload : Type 0 where
  pub server_url : Text
  pub token : Text

-- What is read of the flag --payload, by base64 and JSON.
pub data PayloadRead : Type 0 where
  no_base64 no_json : PayloadRead
  payload_read : EnrollPayload → PayloadRead

abbrev read_payload : {agent : AgentEnv} → PayloadRead → Action agent EnrollPayload
read_payload no_base64 = raise payload_not_base64
read_payload no_json = raise payload_not_json
read_payload (payload_read p) = pure p

abbrev given_or_error :
    {agent : AgentEnv} → Option (List (List Text)) → Action agent (List (List Text))
given_or_error none = raise open_state_failed
given_or_error (some rows) = pure rows

module _ {agent : AgentEnv} (env : MachineEnv) (yaml : Yamls) where
  -- A flag that is given goes before the payload.
  unfoldable pub init_command :
      (Text → PayloadRead) → Text → Text → Text → Text → Text → Text → Action agent (Unit {0})
  init_command read payload server_url token config_out state_file token_file =
      if is_empty payload
      then interactive_init env yaml server_url token config_out state_file token_file
      else (do
        p ← read_payload (read payload)
        interactive_init env yaml (default_value server_url p.server_url)
            (default_value token p.token) config_out state_file token_file)

  abbrev show_since : (ℕ → Text) → Text → Option ℕ → Action agent (List (List Text))
  show_since format state_file none = raise since_malformed
  show_since format state_file (some window) = do
    open_state env state_file
    rows ← in_state state_file (print_local_status agent format window)
    given_or_error rows

  -- The rows that are printed; the window is read by time.ParseDuration, and is not negative.
  unfoldable pub show_status :
      (ℕ → Text) → (Text → Option ℕ) → Text → Text → Action agent (List (List Text))
  show_status format parse config_path since = do
    cfg ← load env yaml config_path
    show_since format cfg.agent.state_file (parse since)
