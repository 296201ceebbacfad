-- ===== src/Server/Api.antt =====
-- The HTTP interface of the server: apps/server/internal/api.
pub mod Query
pub mod Wire
pub mod AgentHandlers
pub mod DashboardHandlers
pub mod Router
pub mod Tests
