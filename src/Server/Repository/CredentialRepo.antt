-- ===== src/Server/Repository/CredentialRepo.antt =====
-- apps/server/internal/repository/credential.go
pub mod Contract
use dysonsphere.Common.{
  ℕ, Bool, ◌&&◌, ◌||◌, List, [], ◌∷◌, ◌++◌, Text, text_eq, nat_eq, ◌==◌, count_if, if◌then◌else◌,
}
use dysonsphere.Common.Tables.{update_where, exists_row}
use dysonsphere.Server.Store.{Env, Credential, violation, ok, err, Action, ◌>>=◌}
use dysonsphere.Server.Store.Query.{statement, column_uuid}

abbrev pub put_credential : ℕ → Text → Text → List Credential → List Credential
put_credential now host_id hash table =
    if exists_row (λ r. r.host_id == host_id) table
    then update_where (λ r. r.host_id == host_id)
        (λ r. record r { token_hash = hash; rotated_at = now }) table
    else table
      ++ record { host_id = host_id; token_hash = hash; created_at = now; rotated_at = now } ∷ []

-- A new row refers to a host of the table.
unfoldable pub upsert : Env → Text → Text → Action (Unit {0})
upsert env host_id hash = do
  uuid ← column_uuid env host_id
  statement env λ now fresh db.
      if exists_row (λ r. r.host_id == uuid) db.credentials
        || exists_row (λ r. r.id == uuid) db.hosts
      then (ok tt, record db { credentials = put_credential now uuid hash db.credentials })
      else (err violation, db)

-- SELECT COUNT(*) … = 1
unfoldable pub validate : Env → Text → Text → Action Bool
validate env host_id hash = do
  uuid ← column_uuid env host_id
  statement env λ now fresh db.
      (ok (count_if (λ r. r.host_id == uuid && r.token_hash == hash) db.credentials == 1), db)
