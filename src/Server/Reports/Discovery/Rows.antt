-- ===== src/Server/Reports/Discovery/Rows.antt =====
-- What the statement that saves a job does to the table: `Upsert` of
-- apps/server/internal/repository/job.go.
use dysonsphere.Common.{
  ℕ, ◌≡◌, refl, ◌∙◌, Bool, ◌&&◌, Option, none, some, List, [], ◌∷◌, ◌++◌, Text, text_eq,
  text_beq_iff, ◌==◌, if◌then◌else◌, arith, Bool-cases, inl, inr,
}
use dysonsphere.Common.Tables.{find, update_where}
use dysonsphere.Common.Tables.Laws.{find_holds}
use dysonsphere.Server.Domain.{Job}
use dysonsphere.Server.Store.{Result, ok}
use dysonsphere.Server.Repository.JobRepo.{has_key, new_job, overwrite}

-- A row holds what a host reported of a job.
pub record IsSaved (host : Text) (j row : Job) : Type 0 where
  pub host_id : row.host_id ≡ host
  pub command_hash : row.command_hash ≡ j.command_hash
  pub schedule : row.schedule ≡ j.schedule
  pub timezone : row.timezone ≡ j.timezone
  pub user : row.user ≡ j.user
  pub raw_command : row.raw_command ≡ j.raw_command
  pub normalized_command : row.normalized_command ≡ j.normalized_command
  pub enabled : row.enabled ≡ j.enabled
  pub source_file : row.source_file ≡ j.source_file
  pub metadata : row.metadata ≡ j.metadata

abbrev pub AreSaved : Text → List Job → List Job → Type 0
AreSaved host [] [] = Unit
AreSaved host [] (row ∷ rows) = ⊥
AreSaved host (j ∷ js) [] = ⊥
AreSaved host (j ∷ js) (row ∷ rows) = IsSaved host j row × AreSaved host js rows

-- A job that was there is still there, with its id and its time of creation.
abbrev pub IsKept : Option Job → Option Job → Type 0
IsKept none new = Unit
IsKept (some old) none = ⊥
IsKept (some old) (some new) = (old.id ≡ new.id) × (old.created_at ≡ new.created_at)

-- The last of the rows that passes a test, or what was there before them.
abbrev pub latest : (Job → Bool) → List Job → Option Job → Option Job
latest p [] before = before
latest p (row ∷ rows) before = latest p rows (if p row then some row else before)

pub IsKept-refl : (o : Option Job) → IsKept o o
IsKept-refl none = tt
IsKept-refl (some j) = (refl, refl)

pub IsKept-trans : (a b c : Option Job) → IsKept a b → IsKept b c → IsKept a c
IsKept-trans none b c h k = tt
IsKept-trans (some a) none c h k = absurd h
IsKept-trans (some a) (some b) none h k = absurd k
IsKept-trans (some a) (some b) (some c) h k = (h.0 ∙ k.0, h.1 ∙ k.1)

abbrev overwritten : ℕ → Job → Option Job → Option Job
overwritten now j none = none
overwritten now j (some row) = some (overwrite now j row)

abbrev found_or : Option Job → Option Job → Option Job
found_or none other = other
found_or (some j) other = some j

module _ (u k h c : Text) where
  find-update :
      (now : ℕ) (j : Job) (jobs : List Job)
      → find (has_key h c) (update_where (has_key u k) (overwrite now j) jobs) ≡ (
          if u == h && k == c
          then overwritten now j (find (has_key u k) jobs)
          else find (has_key h c) jobs)
  unfolding find update_where
  find-update now j [] = ground arith
  find-update now j (r ∷ jobs) = ground (
    arith,
    find-update now j jobs,
    text_beq_iff r.host_id u,
    text_beq_iff r.host_id h,
    text_beq_iff u h,
    text_beq_iff r.command_hash k,
    text_beq_iff r.command_hash c,
    text_beq_iff k c,
  )

find-append :
    (p : Job → Bool) (jobs : List Job) (new : Job)
    → find p (jobs ++ new ∷ []) ≡ found_or (find p jobs) (if p new then some new else none)
unfolding find
find-append p [] new = refl
find-append p (j ∷ jobs) new = ground (arith, find-append p jobs new)

found_or-none : (o : Option Job) → found_or o none ≡ o
found_or-none none = refl
found_or-none (some j) = refl

IsKept-found : (o other : Option Job) → IsKept o (found_or o other)
IsKept-found none other = tt
IsKept-found (some j) other = (refl, refl)

-- What a statement that saves a job has done to the jobs.
pub record Saves (u : Text) (j : Job) (jobs : List Job) (answer : Result Job) (after : List Job)
    : Type 0 where
  pub row : Job
  pub gives : answer ≡ ok row
  pub saved : IsSaved u j row
  pub shows :
      (h c : Text)
      → find (has_key h c) after ≡ (if has_key h c row then some row else find (has_key h c) jobs)
  pub kept : (h c : Text) → IsKept (find (has_key h c) jobs) (find (has_key h c) after)

module _ (u : Text) (now : ℕ) (j : Job) (jobs : List Job) where
  pub overwrites :
      (old : Job)
      → find (has_key u j.command_hash) jobs ≡ some old
      → Saves u j jobs
          (ok (overwrite now j old))
          (update_where (has_key u j.command_hash) (overwrite now j) jobs)
  overwrites old there =
      let k = j.command_hash in
      let fits = find_holds (has_key u k) jobs old there in
      let host : old.host_id ≡ u = (text_beq_iff old.host_id u).0 (ground (arith, fits)) in
      let hash : old.command_hash ≡ k =
        (text_beq_iff old.command_hash k).0 (ground (arith, fits)) in
      record {
        row = overwrite now j old;
        gives = refl;
        saved = record {
          host_id = host;
          command_hash = hash;
          schedule = refl;
          timezone = refl;
          user = refl;
          raw_command = refl;
          normalized_command = refl;
          enabled = refl;
          source_file = refl;
          metadata = refl;
        };
        shows = λ h c. ground (arith, find-update u k h c now j jobs, there, host, hash);
        kept = λ h c. elim (Bool-cases (u == h && k == c)) [
          | inl same ↦
              let p : u ≡ h = (text_beq_iff u h).0 (ground (arith, same)) in
              let q : k ≡ c = (text_beq_iff k c).0 (ground (arith, same)) in
              let before : find (has_key h c) jobs ≡ some old = (rw (← p, ← q) there) in
              let after = find-update u k h c now j jobs in
              rw (before, after, same, there) (refl, refl)
          | inr other ↦
              let after = find-update u k h c now j jobs in
              rw (after, other) (IsKept-refl (find (has_key h c) jobs))
        ];
      }

  pub appends :
      (id : Text)
      → find (has_key u j.command_hash) jobs ≡ none
      → Saves u j jobs (ok (new_job now id u j)) (jobs ++ new_job now id u j ∷ [])
  appends id free =
      let k = j.command_hash in
      let new = new_job now id u j in
      record {
        row = new;
        gives = refl;
        saved = record {
          host_id = refl;
          command_hash = refl;
          schedule = refl;
          timezone = refl;
          user = refl;
          raw_command = refl;
          normalized_command = refl;
          enabled = refl;
          source_file = refl;
          metadata = refl;
        };
        shows = λ h c. elim (Bool-cases (has_key h c new)) [
          | inl same ↦
              let p : u ≡ h = (text_beq_iff u h).0 (ground (arith, same)) in
              let q : k ≡ c = (text_beq_iff k c).0 (ground (arith, same)) in
              let before : find (has_key h c) jobs ≡ none = (rw (← p, ← q) free) in
              rw (find-append (has_key h c) jobs new, before) refl
          | inr other ↦ rw (find-append (has_key h c) jobs new, other) (found_or-none _)
        ];
        kept = λ h c.
            rw (find-append (has_key h c) jobs new)
              (IsKept-found (find (has_key h c) jobs) (if has_key h c new then some new else none));
      }
