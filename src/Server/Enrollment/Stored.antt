-- ===== src/Server/Enrollment/Stored.antt =====
-- The credential that an enrollment issues is the one that is stored:
-- apps/server/internal/service/agent.go over apps/server/internal/repository/credential.go.
use dysonsphere.Common.{
  ℕ, ◌<◌, ◌≡◌, refl, ◌∙◌, Bool, true, false, Option, none, some, List, [], ◌∷◌, Text, text_eq,
  text_beq_iff, All, arith,
}
use dysonsphere.Common.Strings.{is_empty}
use dysonsphere.Server.Domain.{Host}
use dysonsphere.Server.Auth.Secure.{hex_encode}
use dysonsphere.Server.Store.{Env, Db, Credential, Result, ok, err}
use dysonsphere.Server.Store.Query.{statement, column_uuid, read_clock, tick}
use dysonsphere.Server.Store.Keeps.{Keeps}
use dysonsphere.Server.Store.Ran.{ran}
use dysonsphere.Server.Repository.HostRepo
use dysonsphere.Server.Repository.CredentialRepo
use dysonsphere.Server.Repository.CredentialRepo.Contract.{
  OnePerHost, upsert_refines, validate_refines, is_ok,
}
use dysonsphere.Server.Repository.EnrollmentTokenRepo.{
  consume, check_token, select_token, mark_used, token_found,
}
use dysonsphere.Server.Service.AgentService.{
  EnrollmentResult, hash_token, new_agent_token, register, admit, consume_enrollment_token, enroll,
  validate_credential,
}

-- rand.Read fills a buffer with bytes.
abbrev pub DrawsBytes : Env → Type 0
DrawsBytes env =
    (n : ℕ) (b : Text) → env.random n ≡ some b → All (λ c. c < 256) b × (is_empty b ≡ false)

-- The table of the credentials is this one.
abbrev Holds : List Credential → Db → Type 0
Holds rows db = db.credentials ≡ rows

module _ (env : Env) (rows : List Credential) where
  consume-Keeps : (g : Text) → Keeps (Holds rows) (consume env g)
  unfolding consume check_token select_token mark_used statement read_clock
  consume-Keeps g = record { after = λ db s. ground arith }

  consume_enrollment_token-Keeps :
      (static_token token : Text)
      → Keeps (Holds rows) (consume_enrollment_token env static_token token)
  unfolding consume_enrollment_token token_found statement
  consume_enrollment_token-Keeps static_token token = record {
    after = λ db s. ground (arith, (consume-Keeps (hash_token env token)).after (tick db));
  }

  register-Keeps : (host : Host) → Keeps (Holds rows) (register env host)
  unfolding register HostRepo.upsert HostRepo.upsert_current_state read_clock statement column_uuid
  register-Keeps host = record { after = λ db s. ground arith }

  new_agent_token-Keeps : Keeps (Holds rows) (new_agent_token env)
  unfolding new_agent_token
  new_agent_token-Keeps = record { after = λ db s. ground arith }

-- A token that is drawn is the hexadecimal text of what was drawn.
drawn_token :
    (env : Env) (db : Db) (t : Text)
    → (new_agent_token env db).0 ≡ ok t
    → (b : Text) × (env.random db.steps ≡ some b) × (t ≡ hex_encode b)
unfolding new_agent_token
drawn_token env db t e = known (env.random db.steps) refl
  where
    known :
        (o : Option Text)
        → env.random db.steps ≡ o
        → (b : Text) × (env.random db.steps ≡ some b) × (t ≡ hex_encode b)
    known none p = ground (arith, (rw p at e))
    known (some b) p = let q = rw p at e in (b, p, ground (arith, q))

pub hex_encode-empty : (b : Text) → is_empty (hex_encode b) ≡ is_empty b
unfolding hex_encode
hex_encode-empty [] = refl
hex_encode-empty (c ∷ b) = refl

-- A credential that was stored has a host id that stands for a UUID.
pub stored_uuid :
    (env : Env) (id hash : Text) (db : Db)
    → (CredentialRepo.upsert env id hash db).0 ≡ ok tt
    → (uuid : Text) × (env.pg_uuid id ≡ some uuid)
unfolding CredentialRepo.upsert column_uuid
stored_uuid env id hash db e = known (env.pg_uuid id) refl
  where
    known : (o : Option Text) → env.pg_uuid id ≡ o → (uuid : Text) × (env.pg_uuid id ≡ some uuid)
    known none p = ground (arith, (rw p at e))
    known (some uuid) p = (uuid, p)

answered : (r : Result Bool) → is_ok r ≡ true → (answer : Bool) × (r ≡ ok answer)
answered (ok b) h = (b, refl)
answered (err e) h = cc

validate_answers :
    (env : Env) (id hash uuid : Text) (db : Db)
    → env.pg_uuid id ≡ some uuid
    → env.fails db.steps ≡ false
    → is_ok (CredentialRepo.validate env id hash db).0 ≡ true
unfolding CredentialRepo.validate column_uuid statement
validate_answers env id hash uuid db h up = rw (h, up) refl

-- What an enrollment leaves of a credential that it stored.
put_validates :
    (env : Env) (id token : Text) (db : Db)
    → OnePerHost db.credentials
    → (CredentialRepo.upsert env id (hash_token env token) db).0 ≡ ok tt
    → env.fails (CredentialRepo.upsert env id (hash_token env token) db).1.steps ≡ false
    → (validate_credential env id token
        (CredentialRepo.upsert env id (hash_token env token) db).1).0
      ≡ true
unfolding validate_credential
put_validates env id token db one e up =
    let hash = hash_token env token in
    let (uuid, u) = stored_uuid env id hash db e in
    let after = (CredentialRepo.upsert env id hash db).1 in
    let (kept, entry) = upsert_refines env id hash uuid db one u in
    let (answer, v) =
      answered (CredentialRepo.validate env id hash after).0
        (validate_answers env id hash uuid after u up) in
    let agrees = validate_refines env id hash uuid after answer kept u v in
    rw v (ground (arith, agrees, entry uuid, e, text_beq_iff uuid uuid, text_beq_iff hash hash))

-- What an enrollment has done, over the table of credentials that it found.
pub record Stored (env : Env) (rows : List Credential) (x : EnrollmentResult) (after : Db)
    : Type 0 where
  pub before : Db
  pub held : before.credentials ≡ rows
  pub done : (CredentialRepo.upsert env x.host.id (hash_token env x.agent_token) before).0 ≡ ok tt
  pub left : after ≡ (CredentialRepo.upsert env x.host.id (hash_token env x.agent_token) before).1
  pub drawn : (n : ℕ) × (b : Text) × (env.random n ≡ some b) × (x.agent_token ≡ hex_encode b)

admit-Stored :
    (env : Env) (h : Host) (rows : List Credential) (db : Db) (x : EnrollmentResult)
    → Holds rows db
    → (admit env h db).0 ≡ ok x
    → Stored env rows x (admit env h db).1
unfolding admit
admit-Stored env h rows db x held e =
    let registered = ran (register env h) _ db x e in
    let db1 = (register env h db).1 in
    let issued = ran (new_agent_token env) _ db1 x registered.second in
    let db2 = (new_agent_token env db1).1 in
    let host = registered.value in
    let token = issued.value in
    let put =
      ran (CredentialRepo.upsert env host.id (hash_token env token)) _ db2 x issued.second in
    let same : x.host ≡ host = ground (arith, put.second) in
    let shown : x.agent_token ≡ token = ground (arith, put.second) in
    let (b, p, q) = drawn_token env db1 token issued.first in
    record {
      before = db2;
      held = (new_agent_token-Keeps env rows).after db1 ((register-Keeps env rows h).after db held);
      done = rw (same, shown) put.first;
      left = rw (same, shown) (registered.left ∙ issued.left ∙ put.left);
      drawn = (db1.steps, b, p, shown ∙ q);
    }

pub enroll-Stored :
    (env : Env) (static_token token : Text) (h : Host) (db : Db) (x : EnrollmentResult)
    → (enroll env static_token token h db).0 ≡ ok x
    → Stored env db.credentials x (enroll env static_token token h db).1
unfolding enroll
enroll-Stored env static_token token h db x e =
    let taken = ran (consume_enrollment_token env static_token token) (λ v. admit env h) db x e in
    let db1 = (consume_enrollment_token env static_token token db).1 in
    rw taken.left (
      admit-Stored env h db.credentials db1 x
        ((consume_enrollment_token-Keeps env db.credentials static_token token).after db refl)
        taken.second)

pub Stored-validates :
    (env : Env) (rows : List Credential) (x : EnrollmentResult) (after : Db)
    → Stored env rows x after
    → OnePerHost rows
    → env.fails after.steps ≡ false
    → (validate_credential env x.host.id x.agent_token after).0 ≡ true
Stored-validates env rows x after st one up = rw st.left (
    put_validates env x.host.id x.agent_token st.before (rw st.held one) st.done (rw st.left at up))
