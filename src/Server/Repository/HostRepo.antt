-- ===== src/Server/Repository/HostRepo.antt =====
-- apps/server/internal/repository/host.go
use dysonsphere.Common.{
  ℕ, ◌+◌, Bool, true, false, ◌&&◌, ◌||◌, Option, none, some, List, [], ◌∷◌, ◌++◌, Text, text_eq,
  ◌==◌, ltb, count_if, if◌then◌else◌,
}
use dysonsphere.Common.Tables.{find, update_where, exists_row, order_by}
use dysonsphere.Server.Domain.{Host, HostStatus, active, stale, unknown, CurrentHostState}
use dysonsphere.Server.Store.{Env, violation, no_rows, ok, err, Action, ◌>>=◌, lift}
use dysonsphere.Server.Store.Query.{statement, column_uuid}

-- The columns that an upsert sets.
abbrev pub overwrite : Host → Host → Host
overwrite h row = record row {
  hostname = h.hostname;
  ip_address = h.ip_address;
  environment = h.environment;
  tags = h.tags;
  agent_version = h.agent_version;
  metadata = h.metadata;
}

abbrev pub new_host : ℕ → Text → Host → Host
new_host now id h = record h {
  id = id;
  registered_at = now;
  last_heartbeat_at = none;
  status = unknown;
}

-- INSERT … ON CONFLICT (machine_id) DO UPDATE … RETURNING
unfoldable pub upsert : Env → Host → Action Host
upsert env h = statement env λ now id db. elim (find (λ r. r.machine_id == h.machine_id) db.hosts) [
  | none ↦ (ok (new_host now id h), record db { hosts = db.hosts ++ new_host now id h ∷ [] })
  | some row ↦ (
    ok (overwrite h row),
    record db { hosts = update_where (λ r. r.machine_id == h.machine_id) (overwrite h) db.hosts },
  )
]

unfoldable pub get_by_id : Env → Text → Action Host
get_by_id env id = do
  uuid ← column_uuid env id
  statement env λ now fresh db. lift no_rows (find (λ r. r.id == uuid) db.hosts) db

unfoldable pub get_by_machine_id : Env → Text → Action Host
get_by_machine_id env machine_id =
    statement env λ now fresh db. lift no_rows (find (λ r. r.machine_id == machine_id) db.hosts) db

abbrev registered_later : Host → Host → Bool
registered_later a b = ltb b.registered_at a.registered_at

-- ORDER BY registered_at DESC
unfoldable pub list_hosts : Env → Action (List Host)
list_hosts env = statement env λ now fresh db. (ok (order_by registered_later db.hosts), db)

abbrev pub beat : ℕ → Text → Host → Host
beat now ip row = record row { last_heartbeat_at = some now; status = active; ip_address = ip }

unfoldable pub update_heartbeat : Env → Text → Text → Action (Unit {0})
update_heartbeat env id ip = do
  uuid ← column_uuid env id
  statement env λ now fresh db.
      (ok tt, record db { hosts = update_where (λ r. r.id == uuid) (beat now ip) db.hosts })

unfoldable pub update_status : Env → Text → HostStatus → Action (Unit {0})
update_status env id status = do
  uuid ← column_uuid env id
  statement env λ now fresh db. (
    ok tt,
    record db {
      hosts = update_where (λ r. r.id == uuid) (λ r. record r { status = status }) db.hosts;
    },
  )

abbrev pub is_active : HostStatus → Bool
is_active active = true
is_active _ = false

-- last_heartbeat_at IS NULL OR last_heartbeat_at < NOW() - threshold
abbrev pub is_silent : ℕ → ℕ → Option ℕ → Bool
is_silent now threshold none = true
is_silent now threshold (some t) = ltb (t + threshold) now

abbrev pub goes_stale : ℕ → ℕ → Host → Bool
goes_stale now threshold r = is_active r.status && is_silent now threshold r.last_heartbeat_at

unfoldable pub mark_stale_hosts : Env → ℕ → Action ℕ
mark_stale_hosts env threshold = statement env λ now fresh db. (
  ok (count_if (goes_stale now threshold) db.hosts),
  record db {
    hosts = update_where (goes_stale now threshold) (λ r. record r { status = stale }) db.hosts;
  },
)

abbrev put_state : CurrentHostState → List CurrentHostState → List CurrentHostState
put_state s states =
    if exists_row (λ r. r.host_id == s.host_id) states
    then update_where (λ r. r.host_id == s.host_id) (λ r. s) states
    else states ++ s ∷ []

-- A new row refers to a host of the table.
unfoldable pub upsert_current_state : Env → Text → HostStatus → Option ℕ → ℕ → Action (Unit {0})
upsert_current_state env host_id status last_hb active_jobs = do
  uuid ← column_uuid env host_id
  statement env λ now fresh db.
      if exists_row (λ r. r.host_id == uuid) db.host_states
        || exists_row (λ r. r.id == uuid) db.hosts
      then (
        ok tt,
        record db {
          host_states =
              put_state
                (record {
                  host_id = uuid;
                  status = status;
                  last_heartbeat_at = last_hb;
                  active_jobs = active_jobs;
                  updated_at = now;
                })
                db.host_states;
        },
      )
      else (err violation, db)
