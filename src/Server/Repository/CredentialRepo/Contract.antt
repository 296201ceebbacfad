-- ===== src/Server/Repository/CredentialRepo/Contract.antt =====
-- The credentials of the agents as a map from hosts to hashes:
-- apps/server/internal/repository/credential.go.
use dysonsphere.Common.{
  ℕ, ◌+◌, ◌≤◌, ◌≡◌, refl, Bool, true, false, ◌&&◌, ◌||◌, Bool-cases, ◌⊎◌, inl, inr, Option, none,
  some, List, [], ◌∷◌, ◌++◌, Text, text_eq, text_beq_iff, nat_eq, nat_beq_iff, ◌==◌, count_if,
  if◌then◌else◌, arith,
}
use dysonsphere.Common.Tables.{exists_row, update_where}
use dysonsphere.Server.Store.{Env, Db, Credential, Result, ok, err}
use dysonsphere.Server.Store.Query.{statement, column_uuid}
use dysonsphere.Server.Repository.CredentialRepo.{put_credential, upsert, validate}

-- The map that the table stands for.
unfoldable pub stored : List Credential → Text → Option Text
stored [] host = none
stored (r ∷ rs) host = if r.host_id == host then some r.token_hash else stored rs host

-- A host has at most one credential.
abbrev pub OnePerHost : List Credential → Type 0
OnePerHost rows = (host : Text) → count_if (λ r. r.host_id == host) rows ≤ 1

abbrev of_host : Text → Credential → Bool
of_host host r = r.host_id == host

abbrev rotate : ℕ → Text → Credential → Credential
rotate now hash r = record r { token_hash = hash; rotated_at = now }

stored-update :
    (now : ℕ) (hash u j : Text) (rows : List Credential)
    → stored (update_where (of_host u) (rotate now hash) rows) j ≡ (
        if u == j then (if exists_row (of_host u) rows then some hash else none) else stored rows j)
unfolding stored update_where exists_row
stored-update now hash u j [] = ground arith
stored-update now hash u j (r ∷ rows) = ground (
  arith,
  stored-update now hash u j rows,
  text_beq_iff r.host_id u,
  text_beq_iff r.host_id j,
  text_beq_iff u j,
)

stored-absent :
    (u : Text) (rows : List Credential) → exists_row (of_host u) rows ≡ false → stored rows u ≡ none
unfolding stored exists_row
stored-absent u [] h = refl
stored-absent u (r ∷ rows) h = ground (arith, stored-absent u rows, h)

stored-append :
    (new : Credential) (j : Text) (rows : List Credential)
    → stored (rows ++ new ∷ []) j ≡ (
        if exists_row (of_host j) rows
        then stored rows j
        else (if new.host_id == j then some new.token_hash else none))
unfolding stored exists_row
stored-append new j [] = ground arith
stored-append new j (r ∷ rows) = ground (arith, stored-append new j rows)

count-update :
    (now : ℕ) (hash u j : Text) (rows : List Credential)
    → count_if (of_host j) (update_where (of_host u) (rotate now hash) rows)
      ≡ count_if (of_host j) rows
unfolding update_where
count-update now hash u j [] = refl
count-update now hash u j (r ∷ rows) = ground (arith, count-update now hash u j rows)

count-absent :
    (u : Text) (rows : List Credential)
    → exists_row (of_host u) rows ≡ false
    → count_if (of_host u) rows ≡ 0
unfolding exists_row
count-absent u [] h = refl
count-absent u (r ∷ rows) h = ground (arith, count-absent u rows, h)

count-append :
    (new : Credential) (j : Text) (rows : List Credential)
    → count_if (of_host j) (rows ++ new ∷ [])
      ≡ count_if (of_host j) rows + (if new.host_id == j then 1 else 0)
count-append new j [] = omega arith
count-append new j (r ∷ rows) = omega (arith, count-append new j rows)

abbrev fresh_row : ℕ → Text → Text → Credential
fresh_row now u hash = record { host_id = u; token_hash = hash; created_at = now; rotated_at = now }

-- A row that is new to the table is new to the host of the same name.
absent_at :
    (u j : Text) (rows : List Credential)
    → exists_row (of_host u) rows ≡ false
    → (u == j) ≡ true
    → exists_row (of_host j) rows ≡ false
absent_at u j rows new same = let p : u ≡ j = (text_beq_iff u j).0 same in rw (← p) new

put-stored :
    (now : ℕ) (u hash j : Text) (rows : List Credential)
    → stored (put_credential now u hash rows) j ≡ (if u == j then some hash else stored rows j)
put-stored now u hash j rows = elim (Bool-cases (exists_row (of_host u) rows)) [
  | inl old ↦ rw old (ground (arith, stored-update now hash u j rows, old))
  | inr new ↦ rw new (
      ground (
        arith,
        stored-append (fresh_row now u hash) j rows,
        stored-absent j rows,
        absent_at u j rows new,
      ))
]

put-OnePerHost :
    (now : ℕ) (u hash : Text) (rows : List Credential)
    → OnePerHost rows
    → OnePerHost (put_credential now u hash rows)
put-OnePerHost now u hash rows one j = elim (Bool-cases (exists_row (of_host u) rows)) [
  | inl old ↦ rw old (ground (arith, count-update now hash u j rows, one j))
  | inr new ↦ rw new (
      ground (
        arith,
        count-append (fresh_row now u hash) j rows,
        count-absent j rows,
        absent_at u j rows new,
        one j,
      ))
]

abbrev pub matches : Option Text → Text → Bool
matches none hash = false
matches (some g) hash = g == hash

abbrev is_pair : Text → Text → Credential → Bool
is_pair u hash r = r.host_id == u && r.token_hash == hash

fewer_pairs :
    (u hash : Text) (rows : List Credential)
    → count_if (is_pair u hash) rows ≤ count_if (of_host u) rows
fewer_pairs u hash [] = omega arith
fewer_pairs u hash (r ∷ rows) = ground (arith, fewer_pairs u hash rows)

pairs_found :
    (u hash : Text) (rows : List Credential)
    → count_if (of_host u) rows ≤ 1
    → (count_if (is_pair u hash) rows == 1) ≡ matches (stored rows u) hash
unfolding stored
pairs_found u hash [] h = refl
pairs_found u hash (r ∷ rows) h = ground (
  arith,
  pairs_found u hash rows,
  fewer_pairs u hash rows,
  h,
  nat_beq_iff (count_if (is_pair u hash) rows) 0,
)

abbrev pub is_ok : {A : Type 0} → Result A → Bool
is_ok (ok a) = true
is_ok (err e) = false

upsert_cases :
    (env : Env) (id hash uuid : Text) (db : Db)
    → env.pg_uuid id ≡ some uuid
    → let after = upsert env id hash db in
      ((after.0 ≡ ok tt)
        × (after.1.credentials ≡ put_credential (env.now db.steps) uuid hash db.credentials))
      ⊎ ((is_ok after.0 ≡ false) × (after.1.credentials ≡ db.credentials))
unfolding upsert column_uuid statement
upsert_cases env id hash uuid db h = elim (Bool-cases (env.fails db.steps)) [
  | inl down ↦ rw (h, down) (inr (refl, refl))
  | inr up ↦
      elim (Bool-cases
        (exists_row (of_host uuid) db.credentials || exists_row (λ r. r.id == uuid) db.hosts)) [
          | inl known ↦ rw (h, up, known) (inl (refl, refl))
          | inr unknown_host ↦ rw (h, up, unknown_host) (inr (refl, refl))
        ]
]

-- The credentials are a map from hosts to hashes. On a table with at most one credential of a host,
-- and for a text that stands for a UUID, a rotation keeps it so: it sets the entry of the host and
-- leaves the others where it succeeds, and leaves all where it fails.
pub upsert_refines :
    (env : Env) (id hash uuid : Text) (db : Db)
    → OnePerHost db.credentials
    → env.pg_uuid id ≡ some uuid
    → let after = upsert env id hash db in
      OnePerHost after.1.credentials
      × ((j : Text)
          → stored after.1.credentials j
            ≡ (if is_ok after.0 && uuid == j then some hash else stored db.credentials j))
upsert_refines env id hash uuid db one h = elim (upsert_cases env id hash uuid db h) [
  | inl done ↦ (
    (rw done.1 (put-OnePerHost (env.now db.steps) uuid hash db.credentials one)),
    λ j. (rw (done.0, done.1) (put-stored (env.now db.steps) uuid hash j db.credentials)),
  )
  | inr lost ↦ ((rw lost.1 one), λ j. (rw (lost.0, lost.1) refl))
]

-- A validation that is run answers, on a table with at most one credential of a host, whether the
-- entry of the host is the hash.
pub validate_refines :
    (env : Env) (id hash uuid : Text) (db : Db) (answer : Bool)
    → OnePerHost db.credentials
    → env.pg_uuid id ≡ some uuid
    → (validate env id hash db).0 ≡ ok answer
    → answer ≡ matches (stored db.credentials uuid) hash
unfolding validate column_uuid statement
validate_refines env id hash uuid db answer one h v = elim (Bool-cases (env.fails db.steps)) [
  | inl down ↦ ground (arith, (rw (h, down) at v))
  | inr up ↦
      let w = rw (h, up) at v in ground (arith, w, pairs_found uuid hash db.credentials (one uuid))
]
