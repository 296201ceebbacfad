-- ===== src/Server/Store/Query.antt =====
-- Running a statement: the calls of `QueryRow`, `Query` and `Exec` in
-- apps/server/internal/repository.
use dysonsphere.Common.{ℕ, suc, Text, if◌then◌else◌}
use dysonsphere.Server.Store.{Env, Db, query_failed, bad_uuid, ok, err, Action, lift}

-- One more step is made.
abbrev pub tick : Db → Db
tick db = record db { steps = suc db.steps }

-- A statement is given the time and the id that it may draw. Where it fails, no table changes.
unfoldable pub statement {ℓ} : {A : Type ℓ} → Env → (ℕ → Text → Action A) → Action A
statement env run db =
    if env.fails db.steps
    then (err query_failed, tick db)
    else run (env.now db.steps) (env.fresh db.steps) (tick db)

-- time.Now()
unfoldable pub read_clock : Env → Action ℕ
read_clock env db = (ok (env.now db.steps), tick db)

-- uuid.Parse
unfoldable pub parse_uuid : Env → Text → Action Text
parse_uuid env s = lift bad_uuid (env.uuid_parse s)

-- A text as the value of a column of type UUID.
unfoldable pub column_uuid : Env → Text → Action Text
column_uuid env s = lift query_failed (env.pg_uuid s)
