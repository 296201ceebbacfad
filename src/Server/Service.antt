-- ===== src/Server/Service.antt =====
-- The business logic over the repositories: apps/server/internal/service, a module for each file.
pub mod AgentService
pub mod CommandService
pub mod DiscoveryService
pub mod ExecutionService
pub mod MetricService
