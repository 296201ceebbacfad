-- ===== src/Server/StatsRepo/Recovery/Grouping.antt =====
-- The rows of the episodes are grouped by their jobs: the loop of `GetJobRecoveryStats` in
-- apps/server/internal/repository/stats.go.
use dysonsphere.Common.{
  ◌≤◌, ◌≡◌, refl, sym, ap, ◌∙◌, Bool, true, false, Bool-cases, inl, inr, List, [], ◌∷◌, ◌++◌, map,
  Text, text_eq, text_beq_iff, ◌==◌, count_if, count_if-append, if◌then◌else◌, arith,
}
use mathlib.Core.List.{append-nil, append_assoc}
use dysonsphere.Common.Tables.{exists_row, select, update_where}
use dysonsphere.Server.Domain.Stats.{RecoveryEpisode, JobRecoverySummary}
use dysonsphere.Server.StatsRepo.Recovery.{
  RecoveryRow, new_summary, append_episode, add_row, add_rows,
}

abbrev is_of : Text → JobRecoverySummary → Bool
is_of job s = s.job_id == job

-- The episodes of a job in all its summaries.
unfoldable pub collected : Text → List JobRecoverySummary → List RecoveryEpisode
collected job [] = []
collected job (s ∷ ss) =
    let rest = collected job ss in if s.job_id == job then s.episodes ++ rest else rest

-- The episodes of a job among the rows, in their order.
abbrev pub episodes_in : Text → List RecoveryRow → List RecoveryEpisode
episodes_in job rows = map (λ r. r.found) (select (λ r. r.job_id == job) rows)

-- A job has at most one summary.
abbrev pub OnePerJob : List JobRecoverySummary → Type 0
OnePerJob ss = (job : Text) → count_if (λ s. s.job_id == job) ss ≤ 1

collected_none :
    (job : Text) (ss : List JobRecoverySummary)
    → count_if (is_of job) ss ≡ 0
    → collected job ss ≡ []
unfolding collected
collected_none job [] h = refl
collected_none job (s ∷ ss) h = ground (arith, collected_none job ss, h)

collected-append :
    (job : Text) (ss ts : List JobRecoverySummary)
    → collected job (ss ++ ts) ≡ collected job ss ++ collected job ts
unfolding collected
collected-append job [] ts = refl
collected-append job (s ∷ ss) ts = elim (Bool-cases (s.job_id == job)) [
  | inl here ↦ rw here (
      ap (λ es. s.episodes ++ es) (collected-append job ss ts)
      ∙ sym (append_assoc s.episodes (collected job ss) (collected job ts)))
  | inr there ↦ rw there (collected-append job ss ts)
]

absent_count :
    (job : Text) (ss : List JobRecoverySummary)
    → exists_row (is_of job) ss ≡ false
    → count_if (is_of job) ss ≡ 0
unfolding exists_row
absent_count job [] h = refl
absent_count job (s ∷ ss) h = ground (arith, absent_count job ss, h)

count-update :
    (k job : Text) (e : RecoveryEpisode) (ss : List JobRecoverySummary)
    → count_if (is_of job) (update_where (is_of k) (append_episode e) ss) ≡ count_if (is_of job) ss
unfolding update_where
count-update k job e [] = refl
count-update k job e (s ∷ ss) = ground (arith, count-update k job e ss)

-- An update of another job, or of a job without a summary.
collected-other :
    (k job : Text) (e : RecoveryEpisode) (ss : List JobRecoverySummary)
    → (k == job) ≡ false
    → collected job (update_where (is_of k) (append_episode e) ss) ≡ collected job ss
unfolding collected update_where
collected-other k job e [] h = refl
collected-other k job e (s ∷ ss) h = elim (Bool-cases (s.job_id == k)) [
  | inl here ↦
      let p : s.job_id ≡ k = (text_beq_iff s.job_id k).0 here in
      let q : (s.job_id == job) ≡ false = (rw p h) in rw (here, q) (collected-other k job e ss h)
  | inr there ↦ rw (there, collected-other k job e ss h) refl
]

untouched :
    (k : Text) (e : RecoveryEpisode) (ss : List JobRecoverySummary)
    → count_if (is_of k) ss ≡ 0
    → collected k (update_where (is_of k) (append_episode e) ss) ≡ []
untouched k e ss h =
    collected_none k (update_where (is_of k) (append_episode e) ss) (count-update k k e ss ∙ h)

collected-own :
    (k : Text) (e : RecoveryEpisode) (ss : List JobRecoverySummary)
    → count_if (is_of k) ss ≤ 1
    → exists_row (is_of k) ss ≡ true
    → collected k (update_where (is_of k) (append_episode e) ss) ≡ collected k ss ++ e ∷ []
unfolding collected update_where exists_row
collected-own k e [] one h = ground (arith, h)
collected-own k e (s ∷ ss) one h = elim (Bool-cases (s.job_id == k)) [
  | inl here ↦
      let zero_left : count_if (is_of k) ss ≡ 0 = ground (arith, one, here) in
      rw (here, untouched k e ss zero_left, collected_none k ss zero_left, here)
        (append-nil (s.episodes ++ e ∷ []) ∙ ap (λ es. es ++ e ∷ []) (sym (append-nil s.episodes)))
  | inr there ↦
      rw (there, there)
        (collected-own k e ss (ground (arith, one, there)) (ground (arith, h, there)))
]

own_new :
    (job : Text) (r : RecoveryRow)
    → collected job (new_summary r ∷ []) ≡ (if r.job_id == job then r.found ∷ [] else [])
unfolding collected
own_new job r = ground arith

add_row-collected :
    (job : Text) (ss : List JobRecoverySummary) (r : RecoveryRow)
    → OnePerJob ss
    → collected job (add_row ss r)
      ≡ collected job ss ++ (if r.job_id == job then r.found ∷ [] else [])
unfolding add_row
add_row-collected job ss r one = elim (Bool-cases (exists_row (is_of r.job_id) ss)) [
  | inr new ↦ rw new (
      collected-append job ss (new_summary r ∷ [])
      ∙ ap (λ es. collected job ss ++ es) (own_new job r))
  | inl old ↦ elim (Bool-cases (r.job_id == job)) [
    | inl same ↦
        let p : r.job_id ≡ job = (text_beq_iff r.job_id job).0 same in
        rw (old, same, ← p) (collected-own r.job_id r.found ss (one r.job_id) old)
    | inr other ↦
        rw (old, other)
          (collected-other r.job_id job r.found ss other ∙ sym (append-nil (collected job ss)))
  ]
]

add_row-OnePerJob :
    (ss : List JobRecoverySummary) (r : RecoveryRow) → OnePerJob ss → OnePerJob (add_row ss r)
unfolding add_row
add_row-OnePerJob ss r one job = elim (Bool-cases (exists_row (is_of r.job_id) ss)) [
  | inl old ↦ rw old (rw (count-update r.job_id job r.found ss) (one job))
  | inr new ↦ elim (Bool-cases (r.job_id == job)) [
    | inl same ↦
        let p : r.job_id ≡ job = (text_beq_iff r.job_id job).0 same in
        let none_yet : count_if (is_of job) ss ≡ 0 = (rw p at (absent_count r.job_id ss new)) in
        rw (new, count_if-append (is_of job) ss (new_summary r ∷ []))
          (ground (arith, none_yet, same))
    | inr other ↦
        rw (new, count_if-append (is_of job) ss (new_summary r ∷ []))
          (ground (arith, one job, other))
  ]
]

rows-cons :
    (job : Text) (r : RecoveryRow) (rows : List RecoveryRow)
    → episodes_in job (r ∷ rows)
      ≡ (if r.job_id == job then r.found ∷ [] else []) ++ episodes_in job rows
unfolding select
rows-cons job r rows = ground arith

-- The loop over the rows gives every job at most one summary, and this collects, after the episodes
-- that the job had before, all of its episodes in the order of the rows.
pub rows_grouped :
    (rows : List RecoveryRow) (ss : List JobRecoverySummary)
    → OnePerJob ss
    → OnePerJob (add_rows ss rows)
      × ((job : Text) → collected job (add_rows ss rows) ≡ collected job ss ++ episodes_in job rows)
unfolding add_rows select
rows_grouped [] ss one = (one, λ job. sym (append-nil (collected job ss)))
rows_grouped (r ∷ rows) ss one =
    let (kept, all) = rows_grouped rows (add_row ss r) (add_row-OnePerJob ss r one) in
    (
      kept,
      λ job.
          all job
          ∙ (ap (λ es. es ++ episodes_in job rows) (add_row-collected job ss r one)
              ∙ (append_assoc (collected job ss) (if r.job_id == job then r.found ∷ [] else [])
                    (episodes_in job rows)
                  ∙ ap (λ es. collected job ss ++ es) (sym (rows-cons job r rows)))),
    )
