-- ===== src/Agent/Status/Tally.antt =====
-- The counts of the local status: the loop over the records in apps/agent/cmd/agent/main.go.
use dysonsphere.Common.{
  ℕ, ◌+◌, ◌≡◌, refl, Bool, ◌&&◌, ◌||◌, not, Option, none, some, List, [], ◌∷◌, Text, text_eq,
  text_beq, text_beq_iff, nat_eq, ◌==◌, ltb, count_if, if◌then◌else◌, arith, Bool-cases, inl, inr,
  ap, ◌∙◌,
}
use dysonsphere.Common.Strings.{codes, is_some}
use dysonsphere.Common.Assoc.{Assoc, lookup, insert, lookup-insert}
use dysonsphere.Common.Tables.{exists_row}
use dysonsphere.Agent.World.{LocalExecution}
use dysonsphere.Agent.Status.{Summary, key_of, new_summary, add_record, summary_or_new, group}

abbrev pub has_key : Text → LocalExecution → Bool
has_key key rec = key_of rec == key

abbrev pub is_success : LocalExecution → Bool
is_success rec = rec.status == codes "success"

abbrev pub is_failed : LocalExecution → Bool
is_failed rec = rec.status == codes "failed"

abbrev pub is_running : LocalExecution → Bool
is_running rec = rec.status == codes "running"

abbrev pub is_partial : LocalExecution → Bool
is_partial rec = not (is_success rec || is_failed rec || is_running rec)

-- A record of the key that passes a test.
abbrev pub of_key : Text → (LocalExecution → Bool) → LocalExecution → Bool
of_key key test rec = has_key key rec && test rec

-- The latest start, or a time before it.
abbrev pub latest : (LocalExecution → Bool) → ℕ → List LocalExecution → ℕ
latest p t [] = t
latest p t (rec ∷ records) =
    latest p (if p rec && ltb t rec.started_at then rec.started_at else t) records

-- A count of the summary of a key, 0 where it has none.
abbrev pub tally : (Summary → ℕ) → Option Summary → ℕ
tally f none = 0
tally f (some s) = f s

-- What a record does to the summary of a key.
abbrev stepped : Text → LocalExecution → Option Summary → Option Summary
stepped key rec o = if has_key key rec then some (add_record rec (summary_or_new rec o)) else o

collect : Text → Option Summary → List LocalExecution → Option Summary
collect key o [] = o
collect key o (rec ∷ records) = collect key (stepped key rec o) records

lookup-group :
    (key : Text) (grouped : Assoc Text Summary) (records : List LocalExecution)
    → lookup key (group grouped records) ≡ collect key (lookup key grouped) records
unfolding group collect
lookup-group key grouped [] = refl
lookup-group key grouped (rec ∷ records) =
    let item = add_record rec (summary_or_new rec (lookup (key_of rec) grouped)) in
    let later = lookup-group key (insert (key_of rec) item grouped) records in
    elim (Bool-cases (has_key key rec)) [
      | inl same ↦
          let p = (text_beq_iff (key_of rec) key).0 same in
          rw same (
            later
            ∙ ap (λ o. collect key o records)
                (lookup-insert (key_of rec) key item grouped ∙ rw (same, p) refl))
      | inr other ↦ rw other (
          later
          ∙ ap (λ o. collect key o records)
              (lookup-insert (key_of rec) key item grouped ∙ rw other refl))
    ]

tally-stepped :
    (f : Summary → ℕ) (test : LocalExecution → Bool) (key : Text) (rec : LocalExecution)
    (o : Option Summary)
    → ((s : Summary) → f (add_record rec s) ≡ f s + (if test rec then 1 else 0))
    → f (new_summary rec) ≡ 0
    → tally f (stepped key rec o) ≡ tally f o + (if of_key key test rec then 1 else 0)
tally-stepped f test key rec none step new = ground (arith, step (new_summary rec), new)
tally-stepped f test key rec (some s) step new = ground (arith, step s)

tally-collect :
    (f : Summary → ℕ) (test : LocalExecution → Bool) (key : Text) (o : Option Summary)
    (records : List LocalExecution)
    → ((rec : LocalExecution) (s : Summary)
        → f (add_record rec s) ≡ f s + (if test rec then 1 else 0))
    → ((rec : LocalExecution) → f (new_summary rec) ≡ 0)
    → tally f (collect key o records) ≡ tally f o + count_if (of_key key test) records
unfolding collect
tally-collect f test key o [] step new = omega arith
tally-collect f test key o (rec ∷ records) step new =
    tally-collect f test key (stepped key rec o) records step new
    ∙ omega (arith, tally-stepped f test key rec o (step rec) (new rec))

latest-stepped :
    (key : Text) (rec : LocalExecution) (o : Option Summary)
    → tally (λ s. s.last_run) (stepped key rec o) ≡ (
        if has_key key rec && ltb (tally (λ s. s.last_run) o) rec.started_at
        then rec.started_at
        else tally (λ s. s.last_run) o)
unfolding add_record
latest-stepped key rec none = ground arith
latest-stepped key rec (some s) = ground arith

latest-collect :
    (key : Text) (o : Option Summary) (records : List LocalExecution)
    → tally (λ s. s.last_run) (collect key o records)
      ≡ latest (has_key key) (tally (λ s. s.last_run) o) records
unfolding collect
latest-collect key o [] = refl
latest-collect key o (rec ∷ records) =
    latest-collect key (stepped key rec o) records
    ∙ ap (λ t. latest (has_key key) t records) (latest-stepped key rec o)

found-collect :
    (key : Text) (o : Option Summary) (records : List LocalExecution)
    → is_some (collect key o records) ≡ (is_some o || exists_row (has_key key) records)
unfolding collect exists_row
found-collect key none [] = refl
found-collect key (some s) [] = refl
found-collect key none (rec ∷ records) = ground (
  arith,
  found-collect key (some (add_record rec (new_summary rec))) records,
  found-collect key none records,
)
found-collect key (some s) (rec ∷ records) =
    ground (
      arith,
      found-collect key (some (add_record rec s)) records,
      found-collect key (some s) records,
    )

tally-collect-none :
    (f : Summary → ℕ) (test : LocalExecution → Bool) (key : Text) (records : List LocalExecution)
    → ((rec : LocalExecution) (s : Summary)
        → f (add_record rec s) ≡ f s + (if test rec then 1 else 0))
    → ((rec : LocalExecution) → f (new_summary rec) ≡ 0)
    → tally f (collect key none records) ≡ count_if (of_key key test) records
tally-collect-none f test key records step new =
    omega (arith, tally-collect f test key none records step new)

module _ (rec : LocalExecution) (s : Summary) where
  success-step : (add_record rec s).success ≡ s.success + (if is_success rec then 1 else 0)
  unfolding add_record
  success-step = ground arith

  failed-step : (add_record rec s).failed ≡ s.failed + (if is_failed rec then 1 else 0)
  unfolding add_record text_beq
  failed-step = ground (arith, text_beq_iff rec.status (codes "success"))

  running-step : (add_record rec s).running ≡ s.running + (if is_running rec then 1 else 0)
  unfolding add_record text_beq
  running-step =
      ground
        (arith, text_beq_iff rec.status (codes "success"), text_beq_iff rec.status (codes "failed"))

  partial-step : (add_record rec s).partial ≡ s.partial + (if is_partial rec then 1 else 0)
  unfolding add_record
  partial-step = ground arith

-- The jobs of the local status are the keys of the records; the counts of a job are those of its
-- records that succeeded, failed, are running or have another status, and its last run is the latest
-- start of its records.
pub summary_counts :
    (key : Text) (records : List LocalExecution)
    → let o = lookup key (group [] records) in
      (is_some o ≡ exists_row (has_key key) records)
      × (tally (λ s. s.success) o ≡ count_if (of_key key is_success) records)
      × (tally (λ s. s.failed) o ≡ count_if (of_key key is_failed) records)
      × (tally (λ s. s.running) o ≡ count_if (of_key key is_running) records)
      × (tally (λ s. s.partial) o ≡ count_if (of_key key is_partial) records)
      × (tally (λ s. s.last_run) o ≡ latest (has_key key) 0 records)
unfolding lookup
summary_counts key records = rw (lookup-group key [] records) (
  found-collect key none records,
  tally-collect-none (λ s. s.success) is_success key records success-step (λ rec. refl),
  tally-collect-none (λ s. s.failed) is_failed key records failed-step (λ rec. refl),
  tally-collect-none (λ s. s.running) is_running key records running-step (λ rec. refl),
  tally-collect-none (λ s. s.partial) is_partial key records partial-step (λ rec. refl),
  latest-collect key none records,
)
