-- ===== src/Server/Service/AgentService.antt =====
-- apps/server/internal/service/agent.go
use dysonsphere.Common.{
  ℕ, ◌+◌, ◌*◌, Bool, false, ◌||◌, Option, none, some, List, Text, text_eq, ◌==◌, if◌then◌else◌,
}
use dysonsphere.Common.Strings.{codes, is_empty}
use dysonsphere.Server.Auth.Secure.{hex_encode}
use dysonsphere.Server.Domain.{Host, active, EnrollmentToken}
use dysonsphere.Server.Store.{
  Env, Db, random_failed, token_required, token_invalid, Result, ok, err, Action, pure, raise,
  attempt, ◌>>=◌, ◌>>◌,
}
use dysonsphere.Server.Store.Query.{tick, read_clock}
use dysonsphere.Server.Repository.HostRepo
use dysonsphere.Server.Repository.CredentialRepo
use dysonsphere.Server.Repository.EnrollmentTokenRepo.{create, consume, token_found, list_tokens}

pub record EnrollmentResult : Type 0 where
  pub host : Host
  pub agent_token : Text
  pub environment : Text
  pub tags : List Text

unfoldable pub hash_token : Env → Text → Text
hash_token env token = hex_encode (env.sha256 token)

draw : Env → Action (Option Text)
draw env db = (ok (env.random db.steps), tick db)

unfoldable pub new_agent_token : Env → Action Text
unfolding draw
new_agent_token env = do
  bytes ← draw env
  elim bytes [ none ↦ raise random_failed | some b ↦ pure (hex_encode b) ]

unfoldable pub default_environment : Text → Text
default_environment value =
    if is_empty value || value == codes "unknown" then codes "production" else value

-- An error of the second statement is logged only.
unfoldable pub register : Env → Host → Action Host
register env h = do
  host ← HostRepo.upsert env h
  now ← read_clock env
  _ ← attempt (HostRepo.upsert_current_state env host.id active (some now) 0)
  pure host

unfoldable pub consume_enrollment_token : Env → Text → Text → Action (Unit {0})
consume_enrollment_token env static_token token =
    if is_empty token then raise token_required else do
      found ← token_found env (hash_token env token)
      if found
          then consume env (hash_token env token)
          else if token == static_token
          then pure tt
          else raise token_invalid

-- What `Enroll` does once the token is accepted.
unfoldable pub admit : Env → Host → Action EnrollmentResult
admit env h = do
  host ← register env h
  agent_token ← new_agent_token env
  CredentialRepo.upsert env host.id (hash_token env agent_token)
  pure (record {
    host = host;
    agent_token = agent_token;
    environment = default_environment host.environment;
    tags = host.tags;
  })

unfoldable pub enroll : Env → Text → Text → Host → Action EnrollmentResult
enroll env static_token token h = do consume_enrollment_token env static_token token; admit env h

abbrev pub day : ℕ
day = 24 * 3600 * 1_000_000_000

unfoldable pub generate_enrollment_token : Env → Text → Action (Text × EnrollmentToken)
generate_enrollment_token env label = do
  raw ← new_agent_token env
  now ← read_clock env
  row ← create env (hash_token env raw) label (now + day)
  pure (raw, row)

unfoldable pub list_enrollment_tokens : Env → Action (List EnrollmentToken)
list_enrollment_tokens env = list_tokens env

unfoldable pub heartbeat : Env → Text → Text → Action (Unit {0})
heartbeat env host_id ip = do
  HostRepo.update_heartbeat env host_id ip
  now ← read_clock env
  HostRepo.upsert_current_state env host_id active (some now) 0

abbrev is_true : Result Bool → Bool
is_true (ok b) = b
is_true (err e) = false

-- An error of the statement counts as a refusal.
unfoldable pub validate_credential : Env → Text → Text → Db → Bool × Db
validate_credential env host_id token db =
    let (r, db') = CredentialRepo.validate env host_id (hash_token env token) db in (is_true r, db')
