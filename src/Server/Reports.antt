-- ===== src/Server/Reports.antt =====
-- The reports of the agents, as apps/server/internal/service/execution.go and discovery.go store them.
pub mod Executions
pub mod Discovery
