-- ===== src/Server/Repository/EnrollmentTokenRepo.antt =====
-- apps/server/internal/repository/enrollment_token.go
use dysonsphere.Common.{
  ℕ, Bool, true, false, Option, none, some, List, [], ◌∷◌, ◌++◌, Text, text_eq, ◌==◌, ltb,
  if◌then◌else◌,
}
use dysonsphere.Common.Tables.{find, update_where, exists_row, order_by}
use dysonsphere.Server.Domain.{EnrollmentToken}
use dysonsphere.Server.Store.{
  Env, violation, token_used, token_expired, ok, err, Action, pure, raise, ◌>>=◌,
}
use dysonsphere.Server.Store.Query.{statement, read_clock}

abbrev pub new_token : ℕ → Text → Text → Text → ℕ → EnrollmentToken
new_token now id hash label expires = record {
  id = id;
  token_hash = hash;
  label = label;
  used = false;
  used_at = none;
  expires_at = expires;
  created_at = now;
}

-- The hash is unique in the table.
unfoldable pub create : Env → Text → Text → ℕ → Action EnrollmentToken
create env hash label expires = statement env λ now id db.
    if exists_row (λ r. r.token_hash == hash) db.tokens then (err violation, db) else (
      ok (new_token now id hash label expires),
      record db { tokens = db.tokens ++ new_token now id hash label expires ∷ [] },
    )

-- SELECT used, expires_at
unfoldable pub select_token : Env → Text → Action (Option EnrollmentToken)
select_token env hash =
    statement env λ now fresh db. (ok (find (λ r. r.token_hash == hash) db.tokens), db)

abbrev pub spend : ℕ → EnrollmentToken → EnrollmentToken
spend now r = record r { used = true; used_at = some now }

unfoldable pub mark_used : Env → Text → Action (Unit {0})
mark_used env hash = statement env λ now fresh db.
    (ok tt, record db { tokens = update_where (λ r. r.token_hash == hash) (spend now) db.tokens })

-- The tests between the two statements of `Consume`. Where no row has the hash, the call returns with
-- no error: `found` tells whether the second statement is run.
unfoldable pub check_token : Env → Text → Action Bool
unfolding select_token read_clock
check_token env hash = do
  row ← select_token env hash
  elim row [
    | none ↦ pure false
    | some r ↦
        if r.used
        then raise token_used
        else (read_clock env >>= λ now.
            if ltb r.expires_at now then raise token_expired else pure true)
  ]

unfoldable pub consume : Env → Text → Action (Unit {0})
unfolding check_token mark_used
consume env hash = do found ← check_token env hash; if found then mark_used env hash else pure tt

-- SELECT COUNT(*) … > 0
unfoldable pub token_found : Env → Text → Action Bool
token_found env hash =
    statement env λ now fresh db. (ok (exists_row (λ r. r.token_hash == hash) db.tokens), db)

abbrev created_later : EnrollmentToken → EnrollmentToken → Bool
created_later a b = ltb b.created_at a.created_at

unfoldable pub list_tokens : Env → Action (List EnrollmentToken)
list_tokens env = statement env λ now fresh db. (ok (order_by created_later db.tokens), db)
