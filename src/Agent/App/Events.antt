-- ===== src/Agent/App/Events.antt =====
-- The events that the agent reports: the maps of apps/agent/internal/app/app.go that are encoded as
-- JSON. The encoder orders their keys; here they stand as written.
use dysonsphere.Common.{ℕ, Option, none, some, List, [], ◌∷◌, map, Text, leb, if◌then◌else◌}
use dysonsphere.Common.Strings.{codes}
use dysonsphere.Server.Domain.{
  Json, null, bool, number, text, array, object, Items, no_item, item, Fields, no_field, field,
  Float64,
}
use dysonsphere.Agent.World.{AgentEnv}
use dysonsphere.Agent.MailSpool.{size, CronMailMessage}
use dysonsphere.Agent.Discovery.{DiscoveredJob}
use dysonsphere.Agent.Process.{MatchedProcess, take_bytes}

abbrev fields_of : List (Text × Json) → Fields
fields_of [] = no_field
fields_of ((k, v) ∷ kvs) = field k v (fields_of kvs)

abbrev pub object_of : List (Text × Json) → Json
object_of kvs = object (fields_of kvs)

abbrev items_of : List Json → Items
items_of [] = no_item
items_of (j ∷ js) = item j (items_of js)

abbrev pub note : Text → Json
note message = object_of ((codes "note", text message) ∷ [])

-- detection_sources, a list of one.
abbrev source : Text → Text × Json
source name = (codes "detection_sources", array (item (text name) no_item))

abbrev pub job_payload : DiscoveredJob → Json
job_payload j = object_of (
    (codes "source_type", text j.source_type)
    ∷ (codes "schedule", text j.schedule)
    ∷ (codes "timezone", text j.timezone)
    ∷ (codes "user", text j.user)
    ∷ (codes "raw_command", text j.raw_command)
    ∷ (codes "normalized_command", text j.normalized_command)
    ∷ (codes "command_hash", text j.command_hash)
    ∷ (codes "enabled", bool j.enabled)
    ∷ (codes "source_file", text j.source_file)
    ∷ [])

-- `toDiscoveryPayload`, under the key of the request.
unfoldable pub discovery_payload : List DiscoveredJob → Json
discovery_payload jobs = object_of ((codes "jobs", array (items_of (map job_payload jobs))) ∷ [])

-- At most `n` bytes of a text.
unfoldable pub truncate_string : Text → ℕ → Text
truncate_string s n = if leb (size s) n then s else take_bytes n s

-- 0.7 and 1.0
abbrev mail_confidence : Float64
mail_confidence = 0x3FE6_6666_6666_6666

abbrev full_confidence : Float64
full_confidence = 0x3FF0_0000_0000_0000

-- Why a probe has no verdict, with the message of what it called.
pub data ProbeError : Type 0 where
  unknown_type missing_config : Text → ProbeError
  open_failed query_failed stat_failed command_failed : Text → ProbeError

-- The result of a probe: `Result` of apps/agent/internal/probes/runner.go.
pub record ProbeResult : Type 0 where
  pub probe_name : Text
  pub metric_type : Text
  pub value : Float64
  pub status : Text
  pub evidence : Json
  pub measured_at : ℕ
  pub error : Option ProbeError

module _ (env : AgentEnv) where
  abbrev pub probe_event : ProbeResult → Json
  probe_event r = object_of (
      (codes "metric_name", text r.probe_name)
      ∷ (codes "metric_type", text r.metric_type)
      ∷ (codes "value", number (env.show_float r.value))
      ∷ (codes "measured_at", text (env.rfc3339 r.measured_at))
      ∷ (codes "status", text r.status)
      ∷ (codes "evidence", r.evidence)
      ∷ [])

  abbrev pub match_evidence : MatchedProcess → Json
  match_evidence m = object_of (
      (codes "pid", number (env.show_int m.process.pid))
      ∷ (codes "ppid", number (env.show_int m.process.ppid))
      ∷ (codes "note", text m.evidence)
      ∷ [])

  abbrev pub started_event : MatchedProcess → Json
  started_event m = object_of (
      (codes "command_hash", text m.job_hash)
      ∷ (codes "detected_started_at", text (env.rfc3339 m.process.create_time))
      ∷ (codes "status", text (codes "running"))
      ∷ (codes "confidence_score", number (env.show_float m.confidence))
      ∷ source (codes "process")
      ∷ (codes "evidence", match_evidence m)
      ∷ [])

  -- The event of a process that is gone, by its job, its start, the time of the scan and the score.
  abbrev pub gone_event : Text → ℕ → ℕ → Float64 → Json
  gone_event hash started now score = object_of (
      (codes "command_hash", text hash)
      ∷ (codes "detected_started_at", text (env.rfc3339 started))
      ∷ (codes "detected_finished_at", text (env.rfc3339 now))
      ∷ (codes "duration_seconds", number (env.show_float (env.seconds started now)))
      ∷ (codes "status", text (codes "partial"))
      ∷ (codes "confidence_score", number (env.show_float score))
      ∷ source (codes "process")
      ∷ (codes "evidence", note (codes "process disappeared; completion inferred"))
      ∷ [])

  abbrev mail_evidence : CronMailMessage → Json
  mail_evidence msg = object_of (
      (codes "source", text (codes "mail_spool"))
      ∷ (codes "subject", text msg.subject)
      ∷ (codes "mail_user", text msg.mail_user)
      ∷ [])

  -- `commandHash` is left out where it is empty.
  abbrev with_hash : Text → List (Text × Json)
  with_hash [] = []
  with_hash (c ∷ hash) = (codes "command_hash", text (c ∷ hash)) ∷ []

  -- The event of a mail, with the hash of the job that it was found to be of.
  abbrev pub mail_event : CronMailMessage → Text → Json
  mail_event msg hash = object_of (
      (codes "detected_started_at", text (env.rfc3339 msg.envelope_date))
      ∷ (codes "status", text (codes "partial"))
      ∷ (codes "confidence_score", number (env.show_float mail_confidence))
      ∷ source (codes "mail_spool")
      ∷ (codes "output_text", text (truncate_string msg.body 4000))
      ∷ (codes "evidence", mail_evidence msg)
      ∷ with_hash hash)

  abbrev pub exit_code_value : Option ℕ → Json
  exit_code_value none = null
  exit_code_value (some code) = number (env.show_code code)

  abbrev remote_evidence : Text → Option ℕ → Json
  remote_evidence id code =
      object_of ((codes "command_id", text id) ∷ (codes "exit_code", exit_code_value code) ∷ [])

  -- The result of a command that the server had asked for.
  abbrev pub remote_event : Text → Text → Text → ℕ → ℕ → Text → Text → Option ℕ → Json
  remote_event id job_id hash started finished status output code = object_of (
      (codes "job_id", text job_id)
      ∷ (codes "command_hash", text hash)
      ∷ (codes "detected_started_at", text (env.rfc3339 started))
      ∷ (codes "detected_finished_at", text (env.rfc3339 finished))
      ∷ (codes "duration_seconds", number (env.show_float (env.seconds started finished)))
      ∷ (codes "status", text status)
      ∷ (codes "confidence_score", number (env.show_float full_confidence))
      ∷ source (codes "remote_command")
      ∷ (codes "output_text", text (truncate_string output 4000))
      ∷ (codes "evidence", remote_evidence id code)
      ∷ [])
