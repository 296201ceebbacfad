-- ===== src/Server/Request.antt =====
-- The payloads of the agents and their conversion: apps/server/internal/api/request.go. The decoding
-- of a body is the standard library's; an Option of a JSON value is a `json.RawMessage`.
pub mod Evidence
use dysonsphere.Common.{
  Bool, Option, none, some, List, [], ◌∷◌, Text, text_eq, ◌==◌, map, if◌then◌else◌,
}
use dysonsphere.Common.Strings.{codes, is_empty}
use dysonsphere.Server.Domain.{
  Host, HostStatus, Job, JobSourceType, cron, systemd_timer, manual, discovered, Execution,
  ExecutionStatus, running, success, failed, partial, missed, DataMetric, MetricType, count, gauge,
  boolean, string, MetricStatus, warning, critical, Json, null, object, text, Fields, no_field,
  field, Float64, Time,
}

pub record RegisterRequest : Type 0 where
  pub machine_id : Text
  pub hostname : Text
  pub ip_address : Text
  pub environment : Text
  pub tags : List Text
  pub agent_version : Text
  pub metadata : Option Json

-- The fields that the database fills in are left at values that no statement reads.
abbrev pub register_host : RegisterRequest → Host
register_host r = record {
  id = [];
  machine_id = r.machine_id;
  hostname = r.hostname;
  ip_address = r.ip_address;
  environment = r.environment;
  tags = r.tags;
  registered_at = 0;
  last_heartbeat_at = none;
  status = HostStatus.unknown;
  agent_version = r.agent_version;
  metadata = r.metadata;
}

pub record EnrollRequest : Type 0 where
  pub enrollment_token : Text
  pub machine_id : Text
  pub hostname : Text
  pub ip_address : Text
  pub agent_version : Text
  pub metadata : Option Json

abbrev pub enroll_host : EnrollRequest → Host
enroll_host r = record {
  id = [];
  machine_id = r.machine_id;
  hostname = r.hostname;
  ip_address = r.ip_address;
  environment = codes "production";
  tags = [];
  registered_at = 0;
  last_heartbeat_at = none;
  status = HostStatus.unknown;
  agent_version = r.agent_version;
  metadata = r.metadata;
}

pub record DiscoveredJob : Type 0 where
  pub source_type : Text
  pub schedule : Text
  pub timezone : Text
  pub user : Text
  pub raw_command : Text
  pub normalized_command : Text
  pub command_hash : Text
  pub enabled : Bool
  pub source_file : Text
  pub metadata : Option Json

unfoldable pub source_type_of : Text → JobSourceType
source_type_of s =
    if s == codes "cron"
    then cron
    else if s == codes "systemd_timer"
    then systemd_timer
    else if s == codes "manual"
    then manual
    else if s == codes "discovered"
    then discovered
    else JobSourceType.other s

abbrev pub job_of : DiscoveredJob → Job
job_of j = record {
  id = [];
  host_id = [];
  source_type = source_type_of j.source_type;
  schedule = j.schedule;
  timezone = j.timezone;
  user = j.user;
  raw_command = j.raw_command;
  normalized_command = j.normalized_command;
  command_hash = j.command_hash;
  enabled = j.enabled;
  source_file = j.source_file;
  metadata = j.metadata;
  created_at = 0;
  updated_at = 0;
}

unfoldable pub discovered_jobs : List DiscoveredJob → List Job
discovered_jobs js = map job_of js

-- A nil list of sources counts as the empty one.
pub record ExecutionEvent : Type 0 where
  pub job_id : Option Text
  pub command_hash : Text
  pub scheduled_at : Option Time
  pub detected_started_at : Option Time
  pub detected_finished_at : Option Time
  pub duration_seconds : Option Float64
  pub status : Text
  pub confidence_score : Float64
  pub detection_sources : List Text
  pub output_text : Option Text
  pub evidence : Option Json

unfoldable pub execution_status_of : Text → ExecutionStatus
execution_status_of s =
    if s == codes "running"
    then running
    else if s == codes "success"
    then success
    else if s == codes "failed"
    then failed
    else if s == codes "unknown"
    then ExecutionStatus.unknown
    else if s == codes "partial"
    then partial
    else if s == codes "missed"
    then missed
    else ExecutionStatus.other s

-- out[k] = v
unfoldable pub set_field : Text → Json → Fields → Fields
set_field k v no_field = field k v no_field
set_field k v (field j w fs) =
    let rest = set_field k v fs in if j == k then rest else field j w rest

-- `mergeJSON` with one key. The value null decodes to a nil map, and the assignment to it panics: that
-- is `none`. What is no object leaves the new map empty.
unfoldable pub merge_json : Option Json → Text → Json → Option Json
merge_json (some null) k v = none
merge_json (some (object fs)) k v = some (object (set_field k v fs))
merge_json _ k v = some (object (field k v no_field))

abbrev event : ExecutionEvent → Option Json → Execution
event e evidence = record {
  id = [];
  host_id = [];
  job_id = e.job_id;
  scheduled_at = e.scheduled_at;
  detected_started_at = e.detected_started_at;
  detected_finished_at = e.detected_finished_at;
  duration_seconds = e.duration_seconds;
  status = execution_status_of e.status;
  confidence_score = e.confidence_score;
  detection_sources = e.detection_sources;
  output_text = e.output_text;
  evidence = evidence;
  created_at = 0;
}

abbrev with_evidence : ExecutionEvent → Option Json → Option Execution
with_evidence e none = none
with_evidence e (some j) = some (event e (some j))

-- One round of the loop; `none` is a panic.
unfoldable pub execution_of : ExecutionEvent → Option Execution
execution_of e =
    if is_empty e.command_hash
    then some (event e e.evidence)
    else with_evidence e (merge_json e.evidence (codes "command_hash") (text e.command_hash))

abbrev both : Option Execution → Option (List Execution) → Option (List Execution)
both (some x) (some xs) = some (x ∷ xs)
both _ _ = none

unfoldable pub executions_of : List ExecutionEvent → Option (List Execution)
executions_of [] = some []
executions_of (e ∷ es) = both (execution_of e) (executions_of es)

pub record MetricEntry : Type 0 where
  pub metric_name : Text
  pub metric_type : Text
  pub dimensions : Option Json
  pub value : Float64
  pub measured_at : Time
  pub status : Text
  pub evidence : Option Json

unfoldable pub metric_type_of : Text → MetricType
metric_type_of s =
    if s == codes "count"
    then count
    else if s == codes "gauge"
    then gauge
    else if s == codes "boolean"
    then boolean
    else if s == codes "string"
    then string
    else MetricType.other s

unfoldable pub metric_status_of : Text → MetricStatus
metric_status_of s =
    if s == codes "ok"
    then MetricStatus.ok
    else if s == codes "warning"
    then warning
    else if s == codes "critical"
    then critical
    else if s == codes "unknown"
    then MetricStatus.unknown
    else MetricStatus.other s

abbrev pub metric_of : MetricEntry → DataMetric
metric_of m = record {
  id = [];
  host_id = [];
  metric_name = m.metric_name;
  metric_type = metric_type_of m.metric_type;
  dimensions = m.dimensions;
  value = m.value;
  measured_at = m.measured_at;
  status = metric_status_of m.status;
  evidence = m.evidence;
  created_at = 0;
}

unfoldable pub metrics_of : List MetricEntry → List DataMetric
metrics_of ms = map metric_of ms
