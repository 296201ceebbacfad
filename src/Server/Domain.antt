-- ===== src/Server/Domain.antt =====
-- The domain types: apps/server/internal/domain/models.go. An id is the text of a UUID, a time counts
-- nanoseconds since Go's zero time, a `float64` is given by its bit pattern, and a pointer or a
-- `json.RawMessage` that may be nil is an `Option`.
pub mod Stats
use dysonsphere.Common.{ℕ, Bool, Option, List, Text}

abbrev pub Time : Type 0
Time = ℕ

abbrev pub Float64 : Type 0
Float64 = ℕ

-- The value that a `json.RawMessage` encodes; `invalid` stands for bytes that are no JSON, and a
-- number is given by its text.
mutual
  pub data Json : Type 0 where
    null invalid : Json
    bool : Bool → Json
    number : Text → Json
    text : Text → Json
    array : Items → Json
    object : Fields → Json

  pub data Items : Type 0 where
    no_item : Items
    item : Json → Items → Items

  pub data Fields : Type 0 where
    no_field : Fields
    field : Text → Json → Fields → Fields

pub data HostStatus : Type 0 where
  active stale offline unknown : HostStatus

pub record Host : Type 0 where
  pub id : Text
  pub machine_id : Text
  pub hostname : Text
  pub ip_address : Text
  pub environment : Text
  pub tags : List Text
  pub registered_at : Time
  pub last_heartbeat_at : Option Time
  pub status : HostStatus
  pub agent_version : Text
  pub metadata : Option Json

-- A value of one of the string types that is none of its constants is `other`.
pub data JobSourceType : Type 0 where
  cron systemd_timer manual discovered : JobSourceType
  other : Text → JobSourceType

pub record Job : Type 0 where
  pub id : Text
  pub host_id : Text
  pub source_type : JobSourceType
  pub schedule : Text
  pub timezone : Text
  pub user : Text
  pub raw_command : Text
  pub normalized_command : Text
  pub command_hash : Text
  pub enabled : Bool
  pub source_file : Text
  pub metadata : Option Json
  pub created_at : Time
  pub updated_at : Time

pub data ExecutionStatus : Type 0 where
  running success failed unknown partial missed : ExecutionStatus
  other : Text → ExecutionStatus

pub record Execution : Type 0 where
  pub id : Text
  pub host_id : Text
  pub job_id : Option Text
  pub scheduled_at : Option Time
  pub detected_started_at : Option Time
  pub detected_finished_at : Option Time
  pub duration_seconds : Option Float64
  pub status : ExecutionStatus
  pub confidence_score : Float64
  pub detection_sources : List Text
  pub output_text : Option Text
  pub evidence : Option Json
  pub created_at : Time

pub data MetricType : Type 0 where
  count gauge boolean string : MetricType
  other : Text → MetricType

pub data MetricStatus : Type 0 where
  ok warning critical unknown : MetricStatus
  other : Text → MetricStatus

pub record DataMetric : Type 0 where
  pub id : Text
  pub host_id : Text
  pub metric_name : Text
  pub metric_type : MetricType
  pub dimensions : Option Json
  pub value : Float64
  pub measured_at : Time
  pub status : MetricStatus
  pub evidence : Option Json
  pub created_at : Time

pub data AlertSeverity : Type 0 where
  info warning critical : AlertSeverity

pub data AlertStatus : Type 0 where
  active resolved : AlertStatus

-- The targets and the rules that the program fires alerts for; a message is composed for people and
-- left out.
pub data TargetType : Type 0 where
  host_target job_target metric_target : TargetType

pub data RuleName : Type 0 where
  stale_heartbeat repeated_failures : RuleName

pub record Alert : Type 0 where
  pub id : Text
  pub target_type : TargetType
  pub target_id : Text
  pub rule_name : RuleName
  pub severity : AlertSeverity
  pub status : AlertStatus
  pub triggered_at : Time
  pub resolved_at : Option Time

pub record CurrentJobState : Type 0 where
  pub job_id : Text
  pub host_id : Text
  pub last_status : ExecutionStatus
  pub last_run_at : Option Time
  pub next_expected_at : Option Time
  pub consecutive_fail : ℕ
  pub updated_at : Time

pub record CurrentHostState : Type 0 where
  pub host_id : Text
  pub status : HostStatus
  pub last_heartbeat_at : Option Time
  pub active_jobs : ℕ
  pub updated_at : Time

pub data AgentCommandStatus : Type 0 where
  pending dispatched success failed : AgentCommandStatus
  other : Text → AgentCommandStatus

pub record EnrollmentToken : Type 0 where
  pub id : Text
  pub token_hash : Text
  pub label : Text
  pub used : Bool
  pub used_at : Option Time
  pub expires_at : Time
  pub created_at : Time

-- An exit code is given by its bit pattern.
pub record AgentCommand : Type 0 where
  pub id : Text
  pub host_id : Text
  pub job_id : Text
  pub command_hash : Text
  pub raw_command : Text
  pub schedule : Text
  pub status : AgentCommandStatus
  pub message : Text
  pub exit_code : Option ℕ
  pub requested_at : Time
  pub dispatched_at : Option Time
  pub started_at : Option Time
  pub finished_at : Option Time
