-- ===== src/Server/Api/Wire.antt =====
-- Requests and responses: apps/server/internal/api/request.go and response.go. A body that the standard
-- library decoded is `body`, and the error of its decoder is `malformed`; encoding is left to it, too.
use dysonsphere.Common.{ℕ, Bool, Option, List, Text}
use dysonsphere.Server.Domain.{Host, Job, Execution, DataMetric, Alert, AgentCommand, Json}
use dysonsphere.Server.Domain.Stats.{
  Floats, WindowStats, TrendPoint, JobSuccessRate, HostFailureCount, JobRecoverySummary,
}
use dysonsphere.Server.Store.{Error, Result, ok, err, Db, Action}
use dysonsphere.Server.Auth.{LoginResponse}

pub data Decoded (A : Type 0) : Type 0 where
  malformed : Text → Decoded A
  body : A → Decoded A

pub record LoginRequest : Type 0 where
  pub username : Text
  pub password : Text

pub record CompleteCommandRequest : Type 0 where
  pub status : Text
  pub message : Text
  pub started_at : Option ℕ
  pub finished_at : Option ℕ
  pub exit_code : Option ℕ

pub record CreateEnrollmentTokenRequest : Type 0 where
  pub label : Text
  pub server_url : Text

pub record StatsResponse : Type 0 where
  pub total_hosts : ℕ
  pub active_hosts : ℕ
  pub total_jobs : ℕ
  pub active_alerts : ℕ
  pub recent_failed : ℕ

pub record AgentConfigBlock : Type 0 where
  pub environment : Text
  pub tags : List Text
  pub heartbeat_interval : Text
  pub discovery_interval : Text
  pub process_scan_interval : Text
  pub report_interval : Text
  pub command_poll_interval : Text

pub record EnrollResponse : Type 0 where
  pub host_id : Text
  pub credential : Text
  pub config : AgentConfigBlock

pub record EnrollmentTokenCreatedResponse : Type 0 where
  pub id : Text
  pub label : Text
  pub payload : Text
  pub expires_at : Text
  pub created_at : Text

pub record EnrollmentTokenItem : Type 0 where
  pub id : Text
  pub label : Text
  pub used : Bool
  pub used_at : Option Text
  pub expires_at : Text
  pub created_at : Text

-- A message that is fixed, or the text of an error. A body that is given as a map has its entries as
-- arguments; `recovered` is the answer of the router's middleware to a panic.
pub data Body : Type 0 where
  message : Text → Body
  error_text : Error → Body
  healthy acknowledged recovered : Body
  logged_in : LoginResponse → Body
  enrolled : EnrollResponse → Body
  host : Host → Body
  hosts : List Host → Body
  commands : List AgentCommand → Body
  queued : ℕ → List AgentCommand → Body
  upserted : ℕ → List Job → Body
  accepted : ℕ → Body
  executions : List Execution → Body
  metrics : List DataMetric → Body
  jobs : List Job → Body
  job_detail : Job → List Execution → Body
  alerts : List Alert → Body
  overview : StatsResponse → Body
  window_stats : WindowStats → Body
  trend : List TrendPoint → Body
  job_stats : List JobSuccessRate → Body
  host_stats : List HostFailureCount → Body
  recovery_stats : List JobRecoverySummary → Body
  token_created : EnrollmentTokenCreatedResponse → Body
  tokens : List EnrollmentTokenItem → Body

pub record Response : Type 0 where
  pub status : ℕ
  pub content : Body

abbrev pub write_json : ℕ → Body → Response
write_json status content = record { status = status; content = content }

abbrev pub write_error : ℕ → Text → Response
write_error status text = record { status = status; content = message text }

-- A handler changes the tables and answers.
abbrev pub Handler : Type 0
Handler = Db → Response × Db

abbrev pub answer : Response → Handler
answer r db = (r, db)

module _ {A : Type 0} where
  abbrev pub respond : (A → Response) → (Error → Response) → Result A → Response
  respond f g (ok a) = f a
  respond f g (err e) = g e

  -- The call of a service, and the answers to its result and to its error.
  abbrev pub call : Action A → (A → Response) → (Error → Response) → Handler
  call m f g db = let (r, db') = m db in (respond f g r, db')

-- What the server takes from the standard library: a time in RFC 3339, the bytes of a value in JSON,
-- `base64.RawURLEncoding`, and floating point numbers.
pub record Formats : Type 0 where
  pub rfc3339 : ℕ → Text
  pub marshal : Json → Text
  pub base64_url : Text → Text
  pub floats : Floats
