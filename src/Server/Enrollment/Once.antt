-- ===== src/Server/Enrollment/Once.antt =====
-- An enrollment token enrolls one agent: apps/server/internal/service/agent.go over
-- apps/server/internal/repository/enrollment_token.go.
use dysonsphere.Common.{
  ℕ, suc, ◌≡◌, ◌≢◌, refl, true, List, [], ◌∷◌, Text, text_eq, text_beq, ◌==◌, arith,
}
use dysonsphere.Common.Strings.{is_empty}
use dysonsphere.Common.Tables.{exists_row}
use dysonsphere.Common.Tables.Laws.{exists-find}
use dysonsphere.Server.Domain.{Host}
use dysonsphere.Server.Store.{
  Env, Db, Result, ok, err, Action, continue, token_required, token_invalid,
}
use dysonsphere.Server.Store.Query.{statement, column_uuid, read_clock, tick}
use dysonsphere.Server.Store.Keeps.{
  Keeps, continue-keeps, Keeps-pure, Keeps-raise, Keeps-if, Keeps-statement, Keeps-bind,
}
use dysonsphere.Server.Repository.HostRepo
use dysonsphere.Server.Repository.CredentialRepo
use dysonsphere.Server.Repository.EnrollmentTokenRepo.{
  create, consume, check_token, select_token, mark_used, token_found, new_token,
}
use dysonsphere.Server.Service.AgentService.{
  EnrollmentResult, hash_token, new_agent_token, register, admit, consume_enrollment_token, enroll,
  generate_enrollment_token,
}
use dysonsphere.Server.Enrollment.{TokenOp, issue, join, perform, after}
use dysonsphere.Server.Enrollment.Spent.{
  Spent, mark-spent, marked-spent, spent-append, spent-exists,
}

module _ (env : Env) (h : Text) where
  mark_used-Keeps : (g : Text) → Keeps (Spent h) (mark_used env g)
  unfolding mark_used
  mark_used-Keeps g =
      Keeps-statement env _ (λ db s. s)
        λ now fresh. record { after = λ db s. mark-spent h g now db.tokens s }

  check_token-Keeps : (g : Text) → Keeps (Spent h) (check_token env g)
  unfolding check_token select_token statement read_clock
  check_token-Keeps g = record { after = λ db s. ground arith }

  consume-Keeps : (g : Text) → Keeps (Spent h) (consume env g)
  unfolding consume
  consume-Keeps g =
      Keeps-bind (check_token env g) _ (check_token-Keeps g)
        λ found. Keeps-if found _ _ (mark_used-Keeps g) (Keeps-pure tt)

  create-Keeps : (g label : Text) (expires : ℕ) → Keeps (Spent h) (create env g label expires)
  unfolding create
  create-Keeps g label expires =
      Keeps-statement env _ (λ db s. s)
        λ now fresh. record {
          after = λ db s.
              ground (arith, spent-append h (new_token now fresh g label expires) db.tokens s);
        }

  token_found-Keeps : (g : Text) → Keeps (Spent h) (token_found env g)
  unfolding token_found
  token_found-Keeps g = Keeps-statement env _ (λ db s. s) λ now fresh. record { after = λ db s. s }

  new_agent_token-Keeps : Keeps (Spent h) (new_agent_token env)
  unfolding new_agent_token
  new_agent_token-Keeps = record { after = λ db s. ground arith }

  consume_enrollment_token-Keeps :
      (static_token token : Text)
      → Keeps (Spent h) (consume_enrollment_token env static_token token)
  unfolding consume_enrollment_token
  consume_enrollment_token-Keeps static_token token =
      Keeps-if (is_empty token) _ _ (Keeps-raise token_required) (
        Keeps-bind (token_found env (hash_token env token)) _
          (token_found-Keeps (hash_token env token))
          λ found.
            Keeps-if found _ _ (consume-Keeps (hash_token env token))
              (Keeps-if (token == static_token) _ _ (Keeps-pure tt) (Keeps-raise token_invalid)))

  register-Keeps : (host : Host) → Keeps (Spent h) (register env host)
  unfolding register HostRepo.upsert HostRepo.upsert_current_state read_clock statement column_uuid
  register-Keeps host = record { after = λ db s. ground arith }

  put-Keeps : (id hash : Text) → Keeps (Spent h) (CredentialRepo.upsert env id hash)
  unfolding CredentialRepo.upsert statement column_uuid
  put-Keeps id hash = record { after = λ db s. ground arith }

  read_clock-Keeps : Keeps (Spent h) (read_clock env)
  unfolding read_clock
  read_clock-Keeps = record { after = λ db s. s }

  admit-Keeps : (host : Host) → Keeps (Spent h) (admit env host)
  unfolding admit
  admit-Keeps host = Keeps-bind (register env host) _ (register-Keeps host) λ row.
      Keeps-bind (new_agent_token env) _ new_agent_token-Keeps λ t.
        Keeps-bind (CredentialRepo.upsert env row.id (hash_token env t)) _
          (put-Keeps row.id (hash_token env t)) λ v. Keeps-pure _

  enroll-Keeps :
      (static_token token : Text) (host : Host)
      → Keeps (Spent h) (enroll env static_token token host)
  unfolding enroll
  enroll-Keeps static_token token host =
      Keeps-bind (consume_enrollment_token env static_token token) _
        (consume_enrollment_token-Keeps static_token token) λ u. admit-Keeps host

  perform-Keeps : (op : TokenOp) → Keeps (Spent h) (perform env op)
  unfolding generate_enrollment_token
  perform-Keeps (issue label) =
      Keeps-bind (generate_enrollment_token env label) _
        (Keeps-bind (new_agent_token env) _ new_agent_token-Keeps λ raw.
          Keeps-bind (read_clock env) _ read_clock-Keeps
            λ now. Keeps-bind _ _ (create-Keeps (hash_token env raw) label _) λ row. Keeps-pure _)
        λ r. Keeps-pure tt
  perform-Keeps (join static_token token host) =
      Keeps-bind (enroll env static_token token host) _ (enroll-Keeps static_token token host)
        λ r. Keeps-pure tt

  after-Spent : (ops : List TokenOp) (db : Db) → Spent h db → Spent h (after env ops db)
  unfolding after
  after-Spent [] db s = s
  after-Spent (op ∷ ops) db s =
      after-Spent ops (perform env op db).1 ((perform-Keeps op).after db s)

  -- A token that is accepted and that the table holds is used from then on.
  accepted-Spent :
      (db : Db)
      → (consume env h db).0 ≡ ok tt
      → exists_row (λ t. text_beq t.token_hash h) db.tokens ≡ true
      → Spent h (consume env h db).1
  unfolding consume check_token select_token read_clock mark_used statement exists_row
  accepted-Spent db e there = ground (
    arith,
    marked-spent h (env.now (suc (suc db.steps))) db.tokens there,
    exists-find (λ t. text_beq t.token_hash h) (tick db).tokens,
  )

  -- A used token is refused.
  Spent-refused : (db : Db) → Spent h db → (consume env h db).0 ≢ ok tt
  unfolding consume check_token select_token read_clock mark_used statement
  Spent-refused db s = ground arith

module _ (env : Env) (static_token token : Text) where
  token_accepted-Spent :
      (db : Db)
      → (consume_enrollment_token env static_token token db).0 ≡ ok tt
      → exists_row (λ t. text_beq t.token_hash (hash_token env token)) db.tokens ≡ true
      → Spent (hash_token env token) (consume_enrollment_token env static_token token db).1
  unfolding consume_enrollment_token token_found statement
  token_accepted-Spent db e there =
      ground (arith, accepted-Spent env (hash_token env token) (tick db))

  token_refused :
      (db : Db)
      → Spent (hash_token env token) db
      → (consume_enrollment_token env static_token token db).0 ≢ ok tt
  unfolding consume_enrollment_token token_found statement
  token_refused db s = ground (
    arith,
    spent-exists (hash_token env token) db.tokens s,
    Spent-refused env (hash_token env token) (tick db) s,
  )

  enrolled_accepted :
      {A : Type 0} (r : Result (Unit {0})) (f : Unit {0} → Action A) (db : Db) (x : A)
      → (continue r f db).0 ≡ ok x
      → r ≡ ok tt
  enrolled_accepted (ok tt) f db x e = refl
  enrolled_accepted (err y) f db x e = ground arith

  enroll_accepted :
      (host : Host) (db : Db) (x : EnrollmentResult)
      → (enroll env static_token token host db).0 ≡ ok x
      → (consume_enrollment_token env static_token token db).0 ≡ ok tt
  unfolding enroll
  enroll_accepted host db x e = enrolled_accepted _ _ _ x e

  enroll-Spent :
      (host : Host) (db : Db) (x : EnrollmentResult)
      → (enroll env static_token token host db).0 ≡ ok x
      → exists_row (λ t. text_beq t.token_hash (hash_token env token)) db.tokens ≡ true
      → Spent (hash_token env token) (enroll env static_token token host db).1
  unfolding enroll
  enroll-Spent host db x e there =
      let h = hash_token env token in
      continue-keeps (consume_enrollment_token env static_token token db).0 (λ u. admit env host)
        (consume_enrollment_token env static_token token db).1 (λ u. admit-Keeps env h host)
        (token_accepted-Spent db (enroll_accepted host db x e) there)

-- After an agent has enrolled with a token of the table, no agent enrolls with it, whatever tokens
-- are issued, agents enroll and statements fail in between.
pub one_agent :
    (env : Env) (static_token token : Text) (host other : Host) (db : Db) (ops : List TokenOp)
    (x y : EnrollmentResult)
    → exists_row (λ t. text_beq t.token_hash (hash_token env token)) db.tokens ≡ true
    → (enroll env static_token token host db).0 ≡ ok x
    → (enroll env static_token token other
        (after env ops (enroll env static_token token host db).1)).0
      ≢ ok y
one_agent env static_token token host other db ops x y there e f =
    let later = after env ops (enroll env static_token token host db).1 in
    token_refused env static_token token later
      (after-Spent env (hash_token env token) ops (enroll env static_token token host db).1
        (enroll-Spent env static_token token host db x e there))
      (enroll_accepted env static_token token other later y f)
