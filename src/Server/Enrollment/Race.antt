-- ===== src/Server/Enrollment/Race.antt =====
-- Two calls of `Consume` at the same time: the tests of
-- apps/server/internal/repository/enrollment_token.go and the update that follows them are two
-- statements outside of a transaction.
use dysonsphere.Common.{ℕ, ◌≡◌, refl, Bool, true, false, some, Text, text_beq, ltb, if◌then◌else◌}
use dysonsphere.Common.Tables.{find}
use dysonsphere.Server.Domain.{EnrollmentToken}
use dysonsphere.Server.Store.{Env, Db, ok, Action, pure, ◌>>=◌, ◌>>◌}
use dysonsphere.Server.Store.Query.{statement, read_clock, tick}
use dysonsphere.Server.Repository.EnrollmentTokenRepo.{select_token, check_token, mark_used}

-- The tests of two calls, and then their updates.
unfoldable pub consume_twice : Env → Text → Action (Bool × Bool)
consume_twice env h = do
  first ← check_token env h
  second ← check_token env h
  if first then mark_used env h else pure tt
  if second then mark_used env h else pure tt
  pure (first, second)

module _ (env : Env) (h : Text) (r : EnrollmentToken) (up : (n : ℕ) → env.fails n ≡ false) where
  accepts :
      (db : Db)
      → ((n : ℕ) → ltb r.expires_at (env.now n) ≡ false)
      → find (λ t. text_beq t.token_hash h) db.tokens ≡ some r
      → r.used ≡ false
      → check_token env h db ≡ (ok true, tick (tick db))
  unfolding check_token select_token read_clock statement
  accepts db fresh there unused = rw (up db.steps, there, unused, fresh) refl

  marks : (db : Db) → (mark_used env h db).0 ≡ ok tt
  unfolding mark_used statement
  marks db = rw (up db.steps) refl

-- Where no statement fails and the token is neither used nor expired, both calls accept it.
pub both_accepted :
    (env : Env) (h : Text) (db : Db) (r : EnrollmentToken)
    → ((n : ℕ) → env.fails n ≡ false)
    → ((n : ℕ) → ltb r.expires_at (env.now n) ≡ false)
    → find (λ t. text_beq t.token_hash h) db.tokens ≡ some r
    → r.used ≡ false
    → (consume_twice env h db).0 ≡ ok (true, true)
unfolding consume_twice
both_accepted env h db r up fresh there unused =
    rw
      (
        accepts env h r up db fresh there unused,
        accepts env h r up (tick (tick db)) fresh there unused,
        marks env h r up (tick (tick (tick (tick db)))),
        marks env h r up (mark_used env h (tick (tick (tick (tick db))))).1,
      )
      refl
