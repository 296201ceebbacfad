-- ===== src/Server/StatsRepo/Recovery.antt =====
-- The failure episodes of jobs: `GetJobRecoveryStats` of apps/server/internal/repository/stats.go. Rows
-- of one time are numbered in the order of the table in both of the query's numberings.
pub mod Islands
pub mod Grouping
use dysonsphere.Common.{
  ℕ, zero, suc, ◌+◌, ◌-◌, Bool, true, false, not, ◌&&◌, ◌||◌, Option, none, some, List, [], ◌∷◌,
  ◌++◌, map, Text, text_eq, nat_eq, ◌==◌, ltb, leb, length, if◌then◌else◌,
}
use dysonsphere.Common.Tables.{select, update_where, exists_row, order_by}
use dysonsphere.Server.Domain.{Execution, ExecutionStatus, failed, unknown, missed, Float64}
use dysonsphere.Server.Domain.Stats.{Floats, RecoveryEpisode, JobRecoverySummary}
use dysonsphere.Server.Store.{Env, Db, ok, Action, ◌>>=◌, pure}
use dysonsphere.Server.Store.Query.{statement}
use dysonsphere.Server.Repository.ExecutionRepo.{of_job}
use dysonsphere.Server.StatsRepo.{distinct, host_of, is_success}

-- status IN ('failed','unknown','missed')
abbrev pub is_bad : ExecutionStatus → Bool
is_bad failed = true
is_bad unknown = true
is_bad missed = true
is_bad _ = false

-- The bad rows of a job with their `rn - type_rn`, after `seen` rows of which `bad` were bad.
unfoldable pub bad_islands : ℕ → ℕ → List Execution → List (ℕ × Execution)
bad_islands seen bad [] = []
bad_islands seen bad (e ∷ es) =
    let after_bad = bad_islands (suc seen) (suc bad) es in
    let after_other = bad_islands (suc seen) bad es in
    if is_bad e.status then (suc seen - suc bad, e) ∷ after_bad else after_other

abbrev pub rows_of : ℕ → List (ℕ × Execution) → List Execution
rows_of id rows = map (λ r. r.1) (select (λ r. r.0 == id) rows)

-- GROUP BY island_id
unfoldable pub islands : List Execution → List (List Execution)
islands rows =
    map (λ id. rows_of id (bad_islands 0 0 rows)) (distinct (map (λ r. r.0) (bad_islands 0 0 rows)))

-- ORDER BY created_at
abbrev pub created_earlier : Execution → Execution → Bool
created_earlier a b = ltb a.created_at b.created_at

unfoldable pub first_time : List Execution → ℕ
first_time [] = 0
first_time (e ∷ []) = e.created_at
first_time (e ∷ f ∷ es) =
    let rest = first_time (f ∷ es) in if ltb rest e.created_at then rest else e.created_at

unfoldable pub last_time : List Execution → ℕ
last_time [] = 0
last_time (e ∷ es) = let rest = last_time es in if ltb e.created_at rest then rest else e.created_at

abbrev pub episode : Floats → List Execution → Option ℕ → RecoveryEpisode
episode fl island recovered = record {
  episode_start = first_time island;
  episode_end = last_time island;
  failure_count = length island;
  recovered_at = recovered;
  recovery_seconds = elim recovered [
    | none ↦ none
    | some t ↦ some (fl.seconds (t - first_time island))
  ];
}

abbrev recovers : ℕ → Execution → Bool
recovers end e = ltb end e.created_at && is_success e.status

abbrev time_of_first : List Execution → Option ℕ
time_of_first [] = none
time_of_first (e ∷ es) = some (first_time (e ∷ es))

-- The first success after the end of an episode: the LEFT JOIN, under the order of DISTINCT ON.
unfoldable pub recovery_time : List Execution → ℕ → Option ℕ
recovery_time rows end = time_of_first (select (recovers end) rows)

-- The order of the rows of one job: by the start, then by the recovery, a missing one last.
abbrev pub starts_first : RecoveryEpisode → RecoveryEpisode → Bool
starts_first e f =
    ltb e.episode_start f.episode_start
    || e.episode_start == f.episode_start && elim e.recovered_at [
      | none ↦ false
      | some t ↦ elim f.recovered_at [ none ↦ true | some u ↦ ltb t u ]
    ]

-- DISTINCT ON: of the rows with one start, the first.
unfoldable pub one_each : List RecoveryEpisode → List RecoveryEpisode
one_each [] = []
one_each (e ∷ es) = e ∷ select (λ f. not (f.episode_start == e.episode_start)) (one_each es)

abbrev pub job_rows : Db → Text → List Execution
job_rows db job = order_by created_earlier (select (of_job job) db.executions)

abbrev pub starts_last : RecoveryEpisode → RecoveryEpisode → Bool
starts_last e f = ltb f.episode_start e.episode_start

unfoldable pub episodes_of : Floats → Db → Text → List RecoveryEpisode
episodes_of fl db job = order_by starts_last (
    one_each (
      order_by starts_first (
        map (λ island. episode fl island (recovery_time (job_rows db job) (last_time island)))
          (islands (job_rows db job)))))

-- The order of UUIDs in their canonical texts.
unfoldable pub text_ltb : Text → Text → Bool
text_ltb s [] = false
text_ltb [] (d ∷ t) = true
text_ltb (c ∷ s) (d ∷ t) = ltb c d || c == d && text_ltb s t

pub record RecoveryRow : Type 0 where
  pub job_id : Text
  pub host_id : Text
  pub found : RecoveryEpisode

unfoldable pub job_ids : List Execution → List Text
job_ids [] = []
job_ids (e ∷ es) = let rest = job_ids es in elim e.job_id [ none ↦ rest | some id ↦ id ∷ rest ]

-- JOIN jobs j ON j.id = r.job_id
abbrev pub known_jobs : Db → List Text
known_jobs db =
    order_by text_ltb
      (select (λ id. exists_row (λ j. j.id == id) db.jobs) (distinct (job_ids db.executions)))

unfoldable pub recovery_rows : Floats → Db → List Text → List RecoveryRow
recovery_rows fl db [] = []
recovery_rows fl db (job ∷ jobs) =
    map (λ e. record { job_id = job; host_id = host_of db job; found = e }) (episodes_of fl db job)
    ++ recovery_rows fl db jobs

-- The entry of `summaryMap` that a job starts with.
abbrev pub new_summary : RecoveryRow → JobRecoverySummary
new_summary r = record {
  job_id = r.job_id;
  host_id = r.host_id;
  is_currently_failing = false;
  current_episode_since = none;
  current_episode_fails = 0;
  last_recovered_at = none;
  avg_recovery_seconds = none;
  episodes = r.found ∷ [];
}

abbrev pub append_episode : RecoveryEpisode → JobRecoverySummary → JobRecoverySummary
append_episode e s = record s { episodes = s.episodes ++ e ∷ [] }

-- One round of the loop over the rows: `summaryMap` in the order of `jobOrder`.
unfoldable pub add_row : List JobRecoverySummary → RecoveryRow → List JobRecoverySummary
add_row ss r =
    if exists_row (λ s. s.job_id == r.job_id) ss
    then update_where (λ s. s.job_id == r.job_id) (append_episode r.found) ss
    else ss ++ new_summary r ∷ []

unfoldable pub add_rows : List JobRecoverySummary → List RecoveryRow → List JobRecoverySummary
add_rows ss [] = ss
add_rows ss (r ∷ rs) = add_rows (add_row ss r) rs

-- Episodes are ordered DESC by start time; the first is the most recent.
unfoldable pub with_latest : JobRecoverySummary → List RecoveryEpisode → JobRecoverySummary
with_latest s [] = s
with_latest s (e ∷ es) = elim e.recovered_at [
  | none ↦ record s {
    is_currently_failing = true;
    current_episode_since = some e.episode_start;
    current_episode_fails = e.failure_count;
  }
  | some t ↦ record s { last_recovered_at = some t }
]

-- `totalSec` and `count`, added up from the front.
unfoldable pub sum_seconds : Floats → Float64 × ℕ → List RecoveryEpisode → Float64 × ℕ
sum_seconds fl acc [] = acc
sum_seconds fl acc (e ∷ es) = elim e.recovery_seconds [
  | none ↦ sum_seconds fl acc es
  | some t ↦ sum_seconds fl (fl.add acc.0 t, suc acc.1) es
]

abbrev average : Floats → Float64 × ℕ → Option Float64
average fl acc = if acc.1 == 0 then none else some (fl.div acc.0 (fl.of_count acc.1))

unfoldable pub summarize : Floats → JobRecoverySummary → JobRecoverySummary
summarize fl s = record (with_latest s s.episodes) {
  avg_recovery_seconds = average fl (sum_seconds fl (0, 0) s.episodes);
}

unfoldable pub get_job_recovery_stats : Env → Floats → Action (List JobRecoverySummary)
get_job_recovery_stats env fl = statement env λ now fresh db.
    (ok (map (summarize fl) (add_rows [] (recovery_rows fl db (known_jobs db)))), db)
