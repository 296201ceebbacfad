-- ===== src/Server.antt =====
-- The central server: apps/server.
pub mod Auth
pub mod Api
pub mod Domain
pub mod Store
pub mod Repository
pub mod StatsRepo
pub mod Config
pub mod Service
pub mod Alerting
pub mod Request
pub mod Delivery
pub mod Enrollment
pub mod Start
pub mod Reports
pub mod Tests
