-- ===== src/Server/Repository.antt =====
-- The statements on the tables: apps/server/internal/repository, a module for each file.
pub mod HostRepo
pub mod CredentialRepo
pub mod EnrollmentTokenRepo
pub mod CommandRepo
pub mod JobRepo
pub mod ExecutionRepo
pub mod MetricRepo
pub mod AlertRepo
mod Tests
