-- ===== src/Server/Domain/Stats.antt =====
-- The statistics types: apps/server/internal/domain/models.go. The arithmetic of `float64` is not code
-- of the repository: it is given by the operations of `Floats`.
use dysonsphere.Common.{ℕ, Bool, Option, List, Text}
use dysonsphere.Server.Domain.{Time, Float64}

-- `of_count` is the conversion of an integer, and `seconds` the length of a duration in seconds.
pub record Floats : Type 0 where
  pub of_count : ℕ → Float64
  pub add : Float64 → Float64 → Float64
  pub mul : Float64 → Float64 → Float64
  pub div : Float64 → Float64 → Float64
  pub seconds : ℕ → Float64

pub record WindowStats : Type 0 where
  pub window : Text
  pub since : Text
  pub total : ℕ
  pub success : ℕ
  pub failed : ℕ
  pub partial : ℕ
  pub unknown : ℕ
  pub missed : ℕ
  pub success_rate : Float64

pub record TrendPoint : Type 0 where
  pub bucket : Time
  pub total : ℕ
  pub success : ℕ
  pub failed : ℕ
  pub unknown : ℕ

pub record JobSuccessRate : Type 0 where
  pub job_id : Text
  pub host_id : Text
  pub total : ℕ
  pub success : ℕ
  pub failed : ℕ
  pub success_rate : Float64
  pub consecutive_fail : ℕ
  pub last_run_at : Option Time

pub record HostFailureCount : Type 0 where
  pub host_id : Text
  pub total : ℕ
  pub failed : ℕ
  pub failure_rate : Float64

pub record RecoveryEpisode : Type 0 where
  pub episode_start : Time
  pub episode_end : Time
  pub failure_count : ℕ
  pub recovered_at : Option Time
  pub recovery_seconds : Option Float64

pub record JobRecoverySummary : Type 0 where
  pub job_id : Text
  pub host_id : Text
  pub is_currently_failing : Bool
  pub current_episode_since : Option Time
  pub current_episode_fails : ℕ
  pub last_recovered_at : Option Time
  pub avg_recovery_seconds : Option Float64
  pub episodes : List RecoveryEpisode
