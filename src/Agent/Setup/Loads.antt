-- ===== src/Agent/Setup/Loads.antt =====
-- What the setup of an agent wrote is what its start reads: apps/agent/cmd/agent/main.go and
-- apps/agent/internal/config/config.go.
use dysonsphere.Common.{text_eq}
use dysonsphere.Agent.Machine.{Machine}
use dysonsphere.Agent.Config.{Config}
use dysonsphere.Agent.Setup.Joined.{Joined}
