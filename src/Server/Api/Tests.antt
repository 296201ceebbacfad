-- ===== src/Server/Api/Tests.antt =====
-- Requests to a small server.
use dysonsphere.Common.{arith, some, ◌≡◌, refl, true, false, none, [], ◌∷◌, text_beq, if◌then◌else◌}
use dysonsphere.Common.Strings.{codes, is_empty, strip_prefix, trim_space, is_space}
use dysonsphere.Common.Assoc.{lookup}
use dysonsphere.Server.Store.{Env, ok, Db, empty_db}
use dysonsphere.Server.Store.Query.{tick, statement, column_uuid, read_clock}
use dysonsphere.Common.Tables.{find, exists_row, update_where}
use dysonsphere.Server.Repository.CredentialRepo
use dysonsphere.Server.Repository.HostRepo
use dysonsphere.Server.Repository.EnrollmentTokenRepo.{token_found}
use dysonsphere.Server.Start.{dsn, request, minute, run_events}
use dysonsphere.Server.Config.{DatabaseConfig, loaded, read_config, load}
use dysonsphere.Server.Config.Defaults.{load_never_fails}
use dysonsphere.Server.Tests.{env, host}
use dysonsphere.Server.Auth.{AuthManager, bearer_token}
use dysonsphere.Server.Auth.Secure.{secure_equal, pad_to, hex_encode}
use dysonsphere.Server.Request.{EnrollRequest}
use dysonsphere.Server.Service.AgentService
use dysonsphere.Server.Api.Query.{pos, parse_pagination, digits, atoi}
use dysonsphere.Server.Api.DashboardHandlers.{ExecutionQuery}
use dysonsphere.Server.Api.Wire.{Formats, write_error, write_json, healthy}
use dysonsphere.Server.Api.Router.{health, host_list, guarded, Settings, Site, handle, serve}
use dysonsphere.Server.Api.Router.Guarded.{is_entitled, guarded_exactly}
use dysonsphere.Server.Enrollment.Stored.{DrawsBytes}
use dysonsphere.Server.Api.Router.ReadOnly.{SameTables, queries_only_read}

abbrev pub formats : Formats
formats = record {
  rfc3339 = λ n. n ∷ [];
  marshal = λ j. [];
  base64_url = λ s. s;
  floats = record {
    of_count = λ n. n;
    add = λ a b. a;
    mul = λ a b. a;
    div = λ a b. a;
    seconds = λ n. n;
  };
}

abbrev pub settings : Settings
settings = record { static_token = codes "s"; public_url = []; formats = formats }

abbrev pub db : Db
db = record empty_db { hosts = host ∷ [] }

abbrev pub manager : AuthManager
manager = record {
  legacy_agent_token = codes "legacy";
  login_username = codes "u";
  login_password = codes "p";
  validator = none;
  sessions = [];
  attempts = [];
}

abbrev pub site : Site
site = record { auth = manager; db = db }

guarded_exactly_example :
    let r = serve env settings (guarded (codes "Bearer nobody") [] host_list) site in
    ((r.0, r.1.db) ≡ (
      if is_entitled env site (codes "Bearer nobody") []
      then handle env settings [] host_list (tick db)
      else (write_error 401 (codes "invalid or missing token"), tick db)))
guarded_exactly_example = guarded_exactly env settings (codes "Bearer nobody") [] host_list site

refused : is_entitled env site (codes "Bearer nobody") [] ≡ false
unfolding bearer_token strip_prefix trim_space is_space lookup secure_equal text_beq pad_to
refused = refl

admitted : is_entitled env site (codes "Bearer legacy") [] ≡ true
unfolding bearer_token strip_prefix trim_space is_space lookup secure_equal text_beq pad_to
admitted = refl

queries_only_read_example : SameTables db (handle env settings [] host_list db).1
queries_only_read_example = queries_only_read env settings [] host_list db refl

abbrev enrollment : EnrollRequest
enrollment = record {
  enrollment_token = codes "s";
  machine_id = codes "m";
  hostname = codes "box";
  ip_address = [];
  agent_version = [];
  metadata = none;
}

abbrev asked : ExecutionQuery
asked = record {
  status = [];
  host_id = [];
  job_id = [];
  window = codes "7d";
  limit = codes "1000";
  offset = codes "-4";
}

paged : parse_pagination (codes "25") (codes "+75") ≡ (25, 75)
unfolding parse_pagination atoi digits
paged = refl

load_never_fails_example : load (λ key. []) ≡ loaded (read_config (λ key. []))
load_never_fails_example = load_never_fails (λ key. [])

abbrev pub uuid_env : Env
uuid_env = record env { pg_uuid = λ s. if is_empty s then none else some s }

pub draws : DrawsBytes uuid_env
draws n b e = let p : b ≡ 0xab ∷ [] = ground arith in rw p ((omega arith, tt), refl)

abbrev pub joined : AgentService.EnrollmentResult
joined = record {
  host = record host { environment = codes "unknown"; tags = [] };
  agent_token = codes "ab";
  environment = codes "production";
  tags = [];
}

pub joined_first : (AgentService.enroll uuid_env (codes "s") (codes "s") host site.db).0 ≡ ok joined
unfolding empty_db AgentService.enroll AgentService.admit AgentService.consume_enrollment_token
    token_found read_clock AgentService.register AgentService.new_agent_token
    AgentService.default_environment CredentialRepo.upsert HostRepo.upsert
    HostRepo.upsert_current_state column_uuid statement AgentService.hash_token hex_encode find
    exists_row update_where text_beq
joined_first = refl

abbrev database : DatabaseConfig
database = record {
  host = codes "db";
  port = pos 5432;
  user = codes "u";
  password = codes "p";
  db_name = codes "o";
  ssl_mode = [];
}

connection :
    dsn (λ n. codes "5432") database
    ≡ codes "host=db port=5432 user=u password=p dbname=o sslmode=disable"
unfolding dsn
connection = refl

-- The rules are run between two requests.
answered :
    (run_events env settings (request health ∷ minute ∷ request health ∷ []) site).0
    ≡ write_json 200 healthy ∷ write_json 200 healthy ∷ []
unfolding run_events serve
answered = refl
