-- ===== src/Agent.antt =====
-- The agent on a monitored host: apps/agent.
pub mod Bolt
pub mod World
pub mod Store
pub mod Process
pub mod Reporter
pub mod App
pub mod Client
pub mod Machine
pub mod Config
pub mod Paths
pub mod Setup
pub mod Status
pub mod Daemon
pub mod Commands
pub mod Start
pub mod Probes
pub mod MailSpool
pub mod Discovery
mod Tests
