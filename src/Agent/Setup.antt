-- ===== src/Agent/Setup.antt =====
-- The setup of an agent: the command `init` of apps/agent/cmd/agent/main.go, and its helpers on paths
-- and values.
pub mod Document
pub mod Joined
pub mod Loads
pub mod Tests
use dysonsphere.Common.{
  ◌||◌, Option, none, some, List, [], ◌∷◌, Text, text_eq, nat_eq, if◌then◌else◌,
}
use dysonsphere.Common.Strings.{codes, is_empty, trim_space}
use dysonsphere.Common.Assoc.{lookup}
use dysonsphere.Agent.Paths.{default_value, default_token_file}
use dysonsphere.Agent.World.{AgentEnv}
use dysonsphere.Agent.Store.{set_meta}
use dysonsphere.Agent.Client
use dysonsphere.Agent.Client.{EnrollRequest, EnrollResponse, new_client}
use dysonsphere.Agent.Machine.{
  MachineEnv, Line, stat_failed, server_url_required, enrollment_token_required, read_token_failed,
  enrollment_failed, write_credential_failed, write_config_failed, save_host_failed, Result, ok,
  err, Action, pure, raise, ◌>>=◌, ◌>>◌, tick, ask, try, sys, read_file, write_file,
}
use dysonsphere.Agent.Machine.Stores.{open_state, in_state}
use dysonsphere.Agent.Config.{Yaml, text, texts, mapping, Entries, end, entry, Yamls}

abbrev pub default_config_path : Text
default_config_path = codes "/etc/observer-agent/config.yaml"

abbrev pub default_state_file : Text
default_state_file = codes "/var/lib/observer-agent/state.db"

abbrev pub agent_version : Text
agent_version = codes "0.1.0"

abbrev pub fields_of : List (Text × Yaml) → Entries
fields_of [] = end
fields_of ((k, v) ∷ m) = entry k v (fields_of m)

abbrev pub mapping_of : List (Text × Yaml) → Yaml
mapping_of m = mapping (fields_of m)

unfoldable pub build_config : Text → Text → Text → Text → Text → EnrollResponse → Yaml
build_config server_url token_file machine_id hostname state_file resp = mapping_of (
    (
      codes "server",
      mapping_of ((codes "url", text server_url) ∷ (codes "token_file", text token_file) ∷ []),
    )
    ∷ (
      codes "agent",
      mapping_of (
          (codes "machine_id", text machine_id)
          ∷ (codes "hostname", text hostname)
          ∷ (codes "environment", text resp.config.environment)
          ∷ (codes "tags", texts resp.config.tags)
          ∷ (codes "version", text agent_version)
          ∷ (codes "state_file", text state_file)
          ∷ (
            codes "heartbeat_interval",
            text (default_value resp.config.heartbeat_interval (codes "30s")),
          )
          ∷ (
            codes "discovery_interval",
            text (default_value resp.config.discovery_interval (codes "5m")),
          )
          ∷ (
            codes "process_scan_interval",
            text (default_value resp.config.process_scan_interval (codes "30s")),
          )
          ∷ (codes "report_interval", text (default_value resp.config.report_interval (codes "1m")))
          ∷ (
            codes "command_poll_interval",
            text (default_value resp.config.command_poll_interval (codes "15s")),
          )
          ∷ []),
    )
    ∷ (codes "probes", texts [])
    ∷ [])

abbrev pub credential_document : Text → Yaml
credential_document token = mapping_of ((codes "token", text token) ∷ [])

abbrev enrolled : Client.Result EnrollResponse → Result EnrollResponse
enrolled (Client.ok r) = ok r
enrolled (Client.failed e) = err enrollment_failed

-- What os.Stat gives.
pub data Stat : Type 0 where
  there missing stat_error : Stat

abbrev stat_of : Option Text → Stat
stat_of none = missing
stat_of (some s) = there

module _ {agent : AgentEnv} (env : MachineEnv) where
  -- The line is taken whether or not it ends.
  abbrev pub prompt : Text → Action agent Text
  prompt fallback = do
    line ← ask (λ n. trim_space (env.line n).text)
    pure (default_value line fallback)

  abbrev ended_line : Line → Action agent Text
  ended_line line = if line.ended then pure (trim_space line.text) else raise read_token_failed

  -- The echo of the terminal is switched off before the reading, and on after it.
  unfoldable pub prompt_secret : Action agent Text
  prompt_secret = do sys env read_token_failed; line ← ask env.line; _ ← try env; ended_line line

  abbrev pub id_or_new : Option Text → Action agent Text
  id_or_new none = ask agent.uuid
  id_or_new (some s) = if is_empty (trim_space s) then ask agent.uuid else pure (trim_space s)

  unfoldable pub generate_machine_id : Action agent Text
  generate_machine_id = do found ← read_file env (codes "/etc/machine-id"); id_or_new found

  unfoldable pub write_credential_file : Text → Text → Action agent (Unit {0})
  write_credential_file path content = do
    sys env write_credential_failed
    write_file env write_credential_failed path content

  -- An error of the making of the directory is logged only.
  unfoldable pub write_config_file : Text → Text → Action agent (Unit {0})
  write_config_file path content = do _ ← try env; write_file env write_config_failed path content

  unfoldable pub enroll : Text → EnrollRequest → Action agent EnrollResponse
  enroll server_url r m =
      let (answer, sent) = Client.enroll env.transport (new_client server_url [] []) r m.sent in
      (enrolled answer, record m { sent = sent })

  unfoldable pub stat : Text → Action agent Stat
  stat path m =
      (ok (if env.fails m.world.steps then stat_error else stat_of (lookup path m.files)), tick m)

  abbrev pub token_or_prompt : Text → Action agent Text
  token_or_prompt [] = do
    token ← prompt_secret
    if is_empty token then raise enrollment_token_required else pure token
  token_or_prompt (c ∷ s) = pure (c ∷ s)

  -- What the command line did not give is asked for.
  unfoldable pub ask_missing : Text → Text → Action agent (Text × Text)
  ask_missing server_url token =
      if is_empty server_url || is_empty token
      then (do
        url ← prompt server_url
        secret ← if is_empty url then raise server_url_required else token_or_prompt token
        pure (url, secret))
      else pure (server_url, token)

  -- state.Open, and the setting of the host id.
  unfoldable pub save_host_id : Text → Text → Action agent (Unit {0})
  save_host_id state_path host_id = do
    _ ← try env
    open_state env state_path
    saved ← in_state state_path (set_meta agent (codes "host_id") host_id)
    if saved then pure tt else raise save_host_failed

  module _ (yaml : Yamls) where
    -- What follows the questions.
    unfoldable pub join_server : Text → Text → Text → Text → Text → Action agent (Unit {0})
    join_server url secret config_path state_path token_path = do
      machine_id ← generate_machine_id
      resp ← enroll url (record {
        enrollment_token = secret;
        machine_id = machine_id;
        hostname = env.hostname;
        ip_address = [];
        agent_version = agent_version;
      })
      write_credential_file token_path (yaml.encode (credential_document resp.credential.token))
      write_config_file config_path
          (yaml.encode (build_config url token_path machine_id env.hostname state_path resp))
      save_host_id state_path resp.host_id

    unfoldable pub interactive_init : Text → Text → Text → Text → Text → Action agent (Unit {0})
    interactive_init server_url token config_out state_file token_file = do
      asked ← ask_missing server_url token
      join_server asked.0 asked.1 (default_value config_out default_config_path)
          (default_value state_file default_state_file)
          (default_value token_file
            (default_token_file (default_value config_out default_config_path)))

    abbrev pub set_up_unless : Text → Stat → Action agent (Unit {0})
    set_up_unless path there = pure tt
    set_up_unless path missing =
        interactive_init [] [] path default_state_file (default_token_file path)
    set_up_unless path stat_error = raise stat_failed

    unfoldable pub ensure_config : Text → Action agent (Unit {0})
    ensure_config path = do found ← stat path; set_up_unless path found
