-- ===== src/Agent/Setup/Document.antt =====
-- The documents that the setup of apps/agent/cmd/agent/main.go writes, as the tags of the structs of
-- apps/agent/internal/config/config.go read them.
use dysonsphere.Common.{◌≡◌, false, some, List, [], Text, text_eq, ◌==◌, if◌then◌else◌}
use dysonsphere.Common.Strings.{codes, is_empty}
use dysonsphere.Agent.Client.{EnrollResponse}
use dysonsphere.Agent.Machine.{MachineEnv}
use dysonsphere.Agent.Config.{
  Config, Yaml, text, texts, mapping, Entries, end, entry, decoded, Yamls,
}
use dysonsphere.Agent.Setup.{build_config, credential_document}

-- The document's text under a tag, empty where it has none.
abbrev pub value_at : Text → Entries → Yaml
value_at k end = text []
value_at k (entry j v rest) = if j == k then v else value_at k rest

abbrev pub within : Yaml → Text → Yaml
within (mapping m) k = value_at k m
within (text s) k = text []
within (texts l) k = text []

abbrev pub text_of : Yaml → Text
text_of (text s) = s
text_of (texts l) = []
text_of (mapping m) = []

abbrev pub texts_of : Yaml → List Text
texts_of (text s) = []
texts_of (texts l) = l
texts_of (mapping m) = []

-- The configuration that the tags of the struct find in a document that lists no probes.
abbrev pub config_of : Yaml → Config
config_of v =
    let server = within v (codes "server") in
    let agent = within v (codes "agent") in
    record {
      server = record {
        url = text_of (within server (codes "url"));
        token = text_of (within server (codes "token"));
        token_file = text_of (within server (codes "token_file"));
      };
      agent = record {
        machine_id = text_of (within agent (codes "machine_id"));
        hostname = text_of (within agent (codes "hostname"));
        environment = text_of (within agent (codes "environment"));
        tags = texts_of (within agent (codes "tags"));
        version = text_of (within agent (codes "version"));
        state_file = text_of (within agent (codes "state_file"));
        heartbeat_interval = text_of (within agent (codes "heartbeat_interval"));
        discovery_interval = text_of (within agent (codes "discovery_interval"));
        process_scan_interval = text_of (within agent (codes "process_scan_interval"));
        report_interval = text_of (within agent (codes "report_interval"));
        command_poll_interval = text_of (within agent (codes "command_poll_interval"));
        mail_scan_interval = text_of (within agent (codes "mail_scan_interval"));
        mail_spool_paths = texts_of (within agent (codes "mail_spool_paths"));
      };
      probes = [];
    }

-- The documents of a setup are read back as they were written.
abbrev pub ReadsBack : MachineEnv → Yamls → Text → Text → Text → Type 0
ReadsBack env yaml url token_path state_path =
    (id s : Text) (resp : EnrollResponse)
    → env.transport.read_enrollment s ≡ some resp
    → let written = build_config url token_path id env.hostname state_path resp in
      (yaml.read_config (yaml.encode written) ≡ decoded (config_of written))
      × (yaml.read_credential (yaml.encode (credential_document resp.credential.token))
          ≡ decoded resp.credential.token)

-- The answer to an enrollment holds a credential and a host id.
abbrev pub GivesCredentials : MachineEnv → Type 0
GivesCredentials env =
    (s : Text) (resp : EnrollResponse)
    → env.transport.read_enrollment s ≡ some resp
    → (is_empty resp.credential.token ≡ false) × (is_empty resp.host_id ≡ false)
