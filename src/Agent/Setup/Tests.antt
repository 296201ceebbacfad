-- ===== src/Agent/Setup/Tests.antt =====
-- A setup of an agent on a small machine.
use dysonsphere.Common.{◌≡◌, refl, true, false, some, none, [], ◌++◌, Text, text_eq}
use dysonsphere.Common.Strings.{codes}
use dysonsphere.Agent.App.Tests.{env, start}
use dysonsphere.Agent.Client
use dysonsphere.Agent.Client.{EnrollResponse, Transport}
use dysonsphere.Agent.Machine.{Machine, MachineEnv, killed, err, payload_not_base64}
use dysonsphere.Agent.Config.{Yaml, Yamls, decoded}
use dysonsphere.Agent.Setup.{build_config}
use dysonsphere.Agent.Commands.{no_base64, init_command}
use dysonsphere.Agent.Setup.Document.{config_of, within, text_of}

abbrev issued : EnrollResponse
issued = record {
  host_id = codes "h1";
  credential = record { token = codes "ab" };
  config = record {
    environment = codes "production";
    tags = [];
    heartbeat_interval = [];
    discovery_interval = codes "9m";
    process_scan_interval = [];
    report_interval = [];
    command_poll_interval = [];
  };
}

-- No call fails, and every enrollment has the same answer.
abbrev pub machine_env : MachineEnv
machine_env = record {
  fails = λ n. false;
  torn = λ n. [];
  message = λ n. [];
  line = λ n. record { text = codes "x\n"; ended = true };
  kill = λ n p. killed;
  pid = λ n. 7;
  hostname = codes "box";
  show_int = λ n. codes "7";
  transport = record {
    marshal = λ j. some [];
    valid_url = λ s. true;
    exchange = λ sent. some (record { status = 201; content = [] });
    read_enrollment = λ s. some issued;
    read_commands = λ s. none;
    show_int = λ n. [];
    rfc3339 = λ n. [];
  };
}

abbrev pub machine : Machine env
machine = record {
  files = [];
  stores = [];
  world = start;
  sent = [];
  terminated = [];
  started = [];
}

abbrev written_by : Text → Yaml
written_by id =
    build_config (codes "u") (codes "/etc/a/credentials.yaml") id (codes "box") (codes "/s") issued

-- A document is told by its machine id and its token.
abbrev pub yaml : Yamls
yaml = record {
  read_config = λ s. decoded (config_of (written_by s));
  read_credential = λ s. decoded s;
  encode = λ v.
      text_of (within v (codes "token"))
      ++ text_of (within (within v (codes "agent")) (codes "machine_id"));
}

payload_refused :
    (init_command machine_env yaml (λ s. no_base64) (codes "x") [] [] [] [] [] machine).0
    ≡ err payload_not_base64
unfolding init_command
payload_refused = refl
