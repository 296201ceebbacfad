-- ===== src/Agent/Config.antt =====
-- The configuration of the agent: apps/agent/internal/config/config.go.
use dysonsphere.Common.{not, ◌&&◌, Option, List, Text, text_eq, if◌then◌else◌}
use dysonsphere.Common.Strings.{is_empty}
use dysonsphere.Server.Api.Query.{ℤ}
use dysonsphere.Agent.World.{AgentEnv}
use dysonsphere.Agent.Machine.{
  MachineEnv, Fault, open_config, parse_config, open_credential, parse_credential, credential_empty,
  url_required, token_required, machine_required, Result, ok, err, Action, pure, raise, ◌>>=◌,
  open_file, tick,
}

pub record ServerConfig : Type 0 where
  pub url : Text
  pub token : Text
  pub token_file : Text

pub record AgentConfig : Type 0 where
  pub machine_id : Text
  pub hostname : Text
  pub environment : Text
  pub tags : List Text
  pub version : Text
  pub state_file : Text
  pub heartbeat_interval : Text
  pub discovery_interval : Text
  pub process_scan_interval : Text
  pub report_interval : Text
  pub command_poll_interval : Text
  pub mail_scan_interval : Text
  pub mail_spool_paths : List Text

pub record SqlProbe : Type 0 where
  pub dsn : Text
  pub query : Text

pub record FileProbe : Type 0 where
  pub path : Text
  pub max_age_seconds : ℤ

pub record CommandProbe : Type 0 where
  pub command : Text
  pub args : List Text

pub record ProbeConfig : Type 0 where
  pub name : Text
  pub kind : Text
  pub schedule : Text
  pub sql : Option SqlProbe
  pub file : Option FileProbe
  pub command : Option CommandProbe

pub record Config : Type 0 where
  pub server : ServerConfig
  pub agent : AgentConfig
  pub probes : List ProbeConfig

-- A value that the agent writes as YAML: the maps, lists and texts of the maps from texts to any.
mutual
  pub data Yaml : Type 0 where
    text : Text → Yaml
    texts : List Text → Yaml
    mapping : Entries → Yaml

  pub data Entries : Type 0 where
    end : Entries
    entry : Text → Yaml → Entries → Entries

pub data Decoded (A : Type 0) : Type 0 where
  broken : Text → Decoded A
  decoded : A → Decoded A

-- YAML: a document into the struct of its tags, or the message of the error. A credential file gives
-- the text under the tag "token", which is empty where it is missing.
pub record Yamls : Type 0 where
  pub read_config : Text → Decoded Config
  pub read_credential : Text → Decoded Text
  pub encode : Yaml → Text

abbrev outcome : {A : Type 0} → (Text → Fault) → Decoded A → Result A
outcome e (broken message) = err (e message)
outcome e (decoded a) = ok a

unfoldable pub validate : {agent : AgentEnv} → Config → Action agent Config
validate cfg =
    if is_empty cfg.server.url
    then raise url_required
    else if is_empty cfg.server.token
    then raise token_required
    else if is_empty cfg.agent.machine_id
    then raise machine_required
    else pure cfg

abbrev pub with_token : Config → Text → Config
with_token cfg token = record cfg { server = record cfg.server { token = token } }

module _ {agent : AgentEnv} (env : MachineEnv) where
  -- The decoding of a file reads it, which may fail.
  unfoldable pub decode : {A : Type 0} → (Text → Fault) → Decoded A → Action agent A
  decode e d m =
      if env.fails m.world.steps
      then (err (e (env.message m.world.steps)), tick m)
      else (outcome e d, tick m)

  module _ (yaml : Yamls) where
    unfoldable pub load_token_file : Text → Action agent Text
    load_token_file path = do
      content ← open_file env (open_credential path) path
      token ← decode parse_credential (yaml.read_credential content)
      if is_empty token then raise (credential_empty path) else pure token

    unfoldable pub load : Text → Action agent Config
    load path = do
      content ← open_file env open_config path
      cfg ← decode parse_config (yaml.read_config content)
      if is_empty cfg.server.token && not (is_empty cfg.server.token_file)
          then (load_token_file cfg.server.token_file >>= λ token. validate (with_token cfg token))
          else validate cfg
