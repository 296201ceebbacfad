-- ===== src/Agent/Client.antt =====
-- The HTTP client of the agent: apps/agent/internal/client/client.go. JSON, the formats of numbers and
-- times, and the exchange of a request for an answer are not code of the repository: they are the
-- operations of a `Transport`.
pub mod Signed
use dysonsphere.Common.{
  ℕ, Bool, true, false, Option, none, some, List, [], ◌∷◌, ◌++◌, map, Text, leb, if◌then◌else◌,
}
use dysonsphere.Common.Strings.{codes, is_empty}
use dysonsphere.Server.Domain.{Json, null, number, text, object, Fields, no_field, field}
use dysonsphere.Agent.App.Remote.{RunCommand}

pub data Method : Type 0 where
  get post : Method

-- A request; an absent header has the empty value, as `Header.Get` gives it.
pub record HttpRequest : Type 0 where
  pub method : Method
  pub url : Text
  pub authorization : Text
  pub host_id : Text
  pub content : Option Text

pub record HttpResponse : Type 0 where
  pub status : ℕ
  pub content : Text

pub record EnrollRequest : Type 0 where
  pub enrollment_token : Text
  pub machine_id : Text
  pub hostname : Text
  pub ip_address : Text
  pub agent_version : Text

pub record AgentBootstrapConfig : Type 0 where
  pub environment : Text
  pub tags : List Text
  pub heartbeat_interval : Text
  pub discovery_interval : Text
  pub process_scan_interval : Text
  pub report_interval : Text
  pub command_poll_interval : Text

pub record AgentCredential : Type 0 where
  pub token : Text

pub record EnrollResponse : Type 0 where
  pub host_id : Text
  pub credential : AgentCredential
  pub config : AgentBootstrapConfig

-- The answer to a request is given by all requests up to it, the last one first; none is an error of
-- the connection. `valid_url` is the test of http.NewRequest.
pub record Transport : Type 0 where
  pub marshal : Json → Option Text
  pub valid_url : Text → Bool
  pub exchange : List HttpRequest → Option HttpResponse
  pub read_enrollment : Text → Option EnrollResponse
  pub read_commands : Text → Option (List RunCommand)
  pub show_int : ℕ → Text
  pub rfc3339 : ℕ → Text

pub data Failure : Type 0 where
  not_marshalled bad_url not_sent not_decoded : Failure
  refused : ℕ → Text → Failure

pub data Result (A : Type 0) : Type 0 where
  ok : A → Result A
  failed : Failure → Result A

-- A call over the requests that were sent, the last one first.
abbrev pub Call : Type 0 → Type 0
Call A = List HttpRequest → Result A × List HttpRequest

abbrev pub continue : {A B : Type 0} → Result A → (A → Call B) → Call B
continue (ok a) f sent = f a sent
continue (failed e) f sent = (failed e, sent)

infixl 5 ◌>>=◌ ◌>>◌
abbrev pub ◌>>=◌ : {A B : Type 0} → Call A → (A → Call B) → Call B
◌>>=◌ m f sent = let (r, sent') = m sent in continue r f sent'

abbrev pub ◌>>◌ : {A B : Type 0} → Call A → Call B → Call B
m >> k = m >>= λ _. k

abbrev pub lift : {A : Type 0} → Failure → Option A → Call A
lift e none sent = (failed e, sent)
lift e (some a) sent = (ok a, sent)

abbrev pure : {A : Type 0} → A → Call A
pure a sent = (ok a, sent)

abbrev guard : Bool → Failure → Call (Unit {0})
guard b e = elim b [ true ↦ pure tt | false ↦ λ sent. (failed e, sent) ]

pub record Client : Type 0 where
  pub base_url : Text
  pub token : Text
  pub host_id : Text

abbrev pub new_client : Text → Text → Text → Client
new_client base_url token host_id = record { base_url = base_url; token = token; host_id = host_id }

-- The header is set only for a client that has a token.
unfoldable pub authorization : Client → Text
authorization c = if is_empty c.token then [] else codes "Bearer " ++ c.token

abbrev get_request : Client → Text → Text → HttpRequest
get_request c path host_id = record {
  method = get;
  url = c.base_url ++ path;
  authorization = authorization c;
  host_id = host_id;
  content = none;
}

abbrev post_request : Client → Text → Text → Text → HttpRequest
post_request c path host_id body = record (get_request c path host_id) {
  method = post;
  content = some body;
}

-- A status of 400 or more is an error.
abbrev accepted : HttpResponse → Call Text
accepted r sent =
    (if leb 400 r.status then failed (refused r.status r.content) else ok r.content, sent)

abbrev pub enrollment : EnrollRequest → Json
enrollment r = object (
    field (codes "enrollment_token") (text r.enrollment_token) (
      field (codes "machine_id") (text r.machine_id) (
        field (codes "hostname") (text r.hostname) (
          field (codes "ip_address") (text r.ip_address)
            (field (codes "agent_version") (text r.agent_version) no_field)))))

module _ (t : Transport) where
  abbrev send : HttpRequest → Call HttpResponse
  send r sent = lift not_sent (t.exchange (r ∷ sent)) (r ∷ sent)

  unfoldable pub post_raw : Client → Text → Text → Json → Call Text
  post_raw c path host_id body = do
    b ← lift not_marshalled (t.marshal body)
    guard (t.valid_url (c.base_url ++ path)) bad_url
    r ← send (post_request c path host_id b)
    accepted r

  -- The answer is decoded, and dropped by every caller.
  unfoldable pub post_json : Client → Text → Text → Json → Call (Unit {0})
  post_json c path host_id body = post_raw c path host_id body >> pure tt

  unfoldable pub get_json : {A : Type 0} → (Text → Option A) → Client → Text → Text → Call A
  get_json read c path host_id = do
    guard (t.valid_url (c.base_url ++ path)) bad_url
    r ← send (get_request c path host_id)
    s ← accepted r
    lift not_decoded (read s)

  unfoldable pub enroll : Client → EnrollRequest → Call EnrollResponse
  enroll c r = do
    s ← post_raw c (codes "/api/v1/agents/enroll") [] (enrollment r)
    lift not_decoded (t.read_enrollment s)

  unfoldable pub heartbeat : Client → Text → Call (Unit {0})
  heartbeat c ip_address =
      post_json c (codes "/api/v1/agents/heartbeat") c.host_id
        (object (field (codes "ip_address") (text ip_address) no_field))

  unfoldable pub submit_discovery : Client → Json → Call (Unit {0})
  submit_discovery c jobs = post_json c (codes "/api/v1/jobs/discovery") c.host_id jobs

  unfoldable pub batch_executions : Client → Json → Call (Unit {0})
  batch_executions c events = post_json c (codes "/api/v1/executions/batch") c.host_id events

  unfoldable pub batch_metrics : Client → Json → Call (Unit {0})
  batch_metrics c metrics = post_json c (codes "/api/v1/metrics/batch") c.host_id metrics

  unfoldable pub claim_run_commands : Client → ℕ → Call (List RunCommand)
  claim_run_commands c limit =
      get_json t.read_commands c (codes "/api/v1/agents/commands?limit=" ++ t.show_int limit)
        c.host_id

  unfoldable pub exit_code_value : Option ℕ → Json
  exit_code_value none = null
  exit_code_value (some code) = number (t.show_int code)

  unfoldable pub complete_run_command :
      Client → Text → Text → Text → ℕ → ℕ → Option ℕ → Call (Unit {0})
  complete_run_command c id status message started_at finished_at exit_code =
      post_json c (codes "/api/v1/agents/commands/" ++ (id ++ codes "/complete")) c.host_id (
        object (
          field (codes "status") (text status) (
            field (codes "message") (text message) (
              field (codes "started_at") (text (t.rfc3339 started_at)) (
                field (codes "finished_at") (text (t.rfc3339 finished_at))
                  (field (codes "exit_code") (exit_code_value exit_code) no_field))))))
