-- ===== src/Server/Reports/Discovery.antt =====
-- The jobs that a discovery leaves in the database: apps/server/internal/service/discovery.go over
-- apps/server/internal/repository/job.go.
pub mod Rows
use dysonsphere.Common.{text_eq}
