-- ===== src/Agent/Start.antt =====
-- The start of the agent and its main loop: `Run` of apps/agent/internal/app/app.go.
use dysonsphere.Common.{
  ℕ, ◌*◌, Bool, ◌&&◌, Option, none, some, List, [], ◌∷◌, Text, text_eq, nat_eq, ltb, if◌then◌else◌,
}
use dysonsphere.Common.Strings.{codes, is_empty}
use dysonsphere.Server.Api.Query.{ℤ, pos, at_least_zero}
use dysonsphere.Agent.World.{AgentEnv}
use dysonsphere.Agent.World
use dysonsphere.Agent.Store.{get_meta}
use dysonsphere.Agent.Client.{Client, new_client}
use dysonsphere.Agent.Config.{Config, AgentConfig}
use dysonsphere.Agent.Machine.{MachineEnv, host_id_missing, Action, pure, raise, ◌>>=◌, ◌>>◌, try}
use dysonsphere.Agent.Machine.Stores.{open_state, in_state}
use dysonsphere.Agent.Paths.{default_value}
use dysonsphere.Agent.Setup.{default_state_file}
use dysonsphere.Agent.App.{Memory}
use dysonsphere.Agent.App.Remote.{
  RunCommand, Tick, heartbeat_tick, discovery_tick, command_tick, mail_tick, round,
}
use dysonsphere.Agent.Discovery.{DiscoveredJob}
use dysonsphere.Agent.MailSpool.{MailEnv, Spool}

abbrev pub known_host : {agent : AgentEnv} → Option Text → Action agent Text
known_host none = raise host_id_missing
known_host (some []) = raise host_id_missing
known_host (some (c ∷ id)) = pure (c ∷ id)

-- `Run` up to the main loop: the client with which it goes on.
unfoldable pub open_agent : {agent : AgentEnv} → MachineEnv → Config → Action agent Client
open_agent {agent} env cfg = do
  let state_file = default_value cfg.agent.state_file default_state_file
  _ ← try env
  open_state env state_file
  found ← in_state state_file (get_meta agent (codes "host_id"))
  host_id ← known_host found
  pure (new_client cfg.server.url cfg.server.token host_id)

-- The durations between the ticks, in nanoseconds.
pub record Intervals : Type 0 where
  pub heartbeat : ℤ
  pub discovery : ℤ
  pub process_scan : ℤ
  pub report : ℤ
  pub command_poll : ℤ
  pub mail_scan : ℤ

abbrev parsed_or : Option ℤ → ℤ → ℤ
parsed_or none fallback = fallback
parsed_or (some d) fallback = d

-- time.ParseDuration is an argument; none is its error.
unfoldable pub parse_duration : (Text → Option ℤ) → Text → ℤ → ℤ
parse_duration parse s fallback = if is_empty s then fallback else parsed_or (parse s) fallback

abbrev pub seconds : ℕ → ℤ
seconds n = pos (n * 1_000_000_000)

unfoldable pub intervals_of : (Text → Option ℤ) → AgentConfig → Intervals
intervals_of parse cfg = record {
  heartbeat = parse_duration parse cfg.heartbeat_interval (seconds 30);
  discovery = parse_duration parse cfg.discovery_interval (seconds 300);
  process_scan = parse_duration parse cfg.process_scan_interval (seconds 30);
  report = parse_duration parse cfg.report_interval (seconds 60);
  command_poll = parse_duration parse cfg.command_poll_interval (seconds 15);
  mail_scan = parse_duration parse cfg.mail_scan_interval (seconds 120);
}

-- time.NewTicker panics at a duration that is not positive.
abbrev pub is_positive : ℤ → Bool
is_positive d = ltb 0 (at_least_zero d)

unfoldable pub all_tick : Intervals → Bool
all_tick i =
    is_positive i.heartbeat
    && is_positive i.discovery
    && is_positive i.process_scan
    && is_positive i.report
    && is_positive i.command_poll
    && is_positive i.mail_scan

module _ (env : AgentEnv) where
  abbrev after_round :
      (Memory → World.Action env (Option Memory)) → Option Memory → World.Action env (Option Memory)
  after_round next none = World.pure none
  after_round next (some mem) = next mem

  -- The rounds of the tickers in the order in which they fire; none is a panic.
  unfoldable pub rounds : List Tick → Memory → World.Action env (Option Memory)
  rounds [] mem = World.pure (some mem)
  rounds (t ∷ ticks) mem =
      let later = rounds ticks in World.◌>>=◌ (round env t mem) (after_round later)

  -- What is done at the start is what the tickers of the heartbeat, the discovery, the commands and the
  -- mail do later.
  unfoldable pub main_loop :
      Intervals
      → Option (List DiscoveredJob)
      → List RunCommand
      → MailEnv
      → (Text → Spool)
      → List Text
      → List Tick
      → Memory
      → World.Action env (Option Memory)
  main_loop intervals jobs claimed mail files paths ticks mem =
      if all_tick intervals
      then rounds
          (heartbeat_tick
            ∷ discovery_tick jobs
            ∷ command_tick claimed
            ∷ mail_tick mail files paths
            ∷ ticks)
          mem
      else World.pure none
