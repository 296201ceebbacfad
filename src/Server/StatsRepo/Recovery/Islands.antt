-- ===== src/Server/StatsRepo/Recovery/Islands.antt =====
-- The gaps-and-islands query of apps/server/internal/repository/stats.go finds the runs of bad
-- executions.
use dysonsphere.Common.{
  ℕ, suc, ◌-◌, ◌≤◌, ◌<◌, ◌≡◌, refl, ap, ◌∙◌, Bool, false, Bool-cases, inl, inr, List, [], ◌∷◌, map,
  nat_eq, ◌==◌, if◌then◌else◌, All, arith,
}
use dysonsphere.Common.Tables.{select, exists_row}
use dysonsphere.Server.Domain.{Execution}
use dysonsphere.Server.StatsRepo.{distinct}
use dysonsphere.Server.StatsRepo.Recovery.{is_bad, bad_islands, rows_of, islands}

abbrev pub starts_bad : List Execution → Bool
starts_bad [] = false
starts_bad (e ∷ es) = is_bad e.status

abbrev pub extend : Execution → List (List Execution) → List (List Execution)
extend e [] = (e ∷ []) ∷ []
extend e (r ∷ rs) = (e ∷ r) ∷ rs

-- The maximal runs of neighbouring bad executions.
unfoldable pub bad_runs : List Execution → List (List Execution)
bad_runs [] = []
bad_runs (e ∷ es) =
    let rest = bad_runs es in
    if is_bad e.status then (if starts_bad es then extend e rest else (e ∷ []) ∷ rest) else rest

-- The islands are numbered by the executions before them that are not bad.
unfoldable tags : ℕ → List Execution → List (ℕ × Execution)
tags d [] = []
tags d (e ∷ es) =
    let after_bad = tags d es in
    let after_other = tags (suc d) es in if is_bad e.status then (d, e) ∷ after_bad else after_other

tags_lem :
    (es : List Execution) (seen bad : ℕ)
    → bad ≤ seen
    → bad_islands seen bad es ≡ tags (seen - bad) es
unfolding bad_islands tags
tags_lem [] seen bad h = refl
tags_lem (e ∷ es) seen bad h =
    ground (arith, tags_lem es (suc seen) (suc bad), tags_lem es (suc seen) bad, h)

abbrev ids : List (ℕ × Execution) → List ℕ
ids = map (λ r. r.0)

abbrev grouped : List (ℕ × Execution) → List (List Execution)
grouped rows = map (λ id. rows_of id rows) (distinct (ids rows))

All-weaken : {P Q : ℕ → Type 0} → ((n : ℕ) → P n → Q n) → (ns : List ℕ) → All P ns → All Q ns
All-weaken f [] h = tt
All-weaken f (n ∷ ns) h = (f n h.0, All-weaken f ns h.1)

tags_above : (es : List Execution) (d : ℕ) → All (λ n. d ≤ n) (ids (tags d es))
unfolding tags
tags_above [] d = tt
tags_above (e ∷ es) d = elim (Bool-cases (is_bad e.status)) [
  | inl bad ↦ rw bad (omega arith, tags_above es d)
  | inr other ↦
      rw other (All-weaken (λ n h. omega arith) (ids (tags (suc d) es)) (tags_above es (suc d)))
]

absent : (d : ℕ) (ns : List ℕ) → All (λ n. d < n) ns → exists_row (λ j. d == j) ns ≡ false
unfolding exists_row
absent d [] h = refl
absent d (n ∷ ns) h = ground (arith, absent d ns h.1, h.0)

distinct-All : (d : ℕ) (ns : List ℕ) → All (λ n. d < n) ns → All (λ n. d < n) (distinct ns)
unfolding distinct
distinct-All d [] h = tt
distinct-All d (n ∷ ns) h = elim (Bool-cases (exists_row (λ j. n == j) ns)) [
  | inl again ↦ rw again (distinct-All d ns h.1)
  | inr new ↦ rw new (h.0, distinct-All d ns h.1)
]

distinct_again : (d : ℕ) (ns : List ℕ) → distinct (d ∷ d ∷ ns) ≡ distinct (d ∷ ns)
unfolding distinct exists_row
distinct_again d ns = ground arith

distinct_new : (d : ℕ) (ns : List ℕ) → All (λ n. d < n) ns → distinct (d ∷ ns) ≡ d ∷ distinct ns
unfolding distinct
distinct_new d ns h = ground (arith, absent d ns h)

-- The smallest number comes first among the distinct ones.
distinct_head :
    (es : List Execution) (d : ℕ)
    → (rest : List ℕ) × ((distinct (d ∷ ids (tags d es)) ≡ d ∷ rest) × All (λ n. d < n) rest)
unfolding tags
distinct_head [] d = (distinct [], (distinct_new d [] tt, distinct-All d [] tt))
distinct_head (e ∷ es) d = elim (Bool-cases (is_bad e.status)) [
  | inl bad ↦
      let (rest, (same, above)) = distinct_head es d in
      (rest, (rw (bad, distinct_again d (ids (tags d es))) same, above))
  | inr other ↦ (
    distinct (ids (tags (suc d) es)),
    (
      rw other (distinct_new d _ (tags_above es (suc d))),
      distinct-All d (ids (tags (suc d) es)) (tags_above es (suc d)),
    ),
  )
]

-- A row with a smaller number is in no group of the others.
skip_group :
    (d : ℕ) (e : Execution) (rows : List (ℕ × Execution)) (ns : List ℕ)
    → All (λ n. d < n) ns
    → map (λ id. rows_of id ((d, e) ∷ rows)) ns ≡ map (λ id. rows_of id rows) ns
unfolding select
skip_group d e rows [] h = refl
skip_group d e rows (n ∷ ns) h = ground (arith, skip_group d e rows ns h.1, h.0)

no_rows : (d : ℕ) (rows : List (ℕ × Execution)) → All (λ n. d < n) (ids rows) → rows_of d rows ≡ []
unfolding select
no_rows d [] h = refl
no_rows d (r ∷ rows) h = ground (arith, no_rows d rows h.1, h.0)

group_first :
    (d : ℕ) (e : Execution) (rows : List (ℕ × Execution))
    → rows_of d ((d, e) ∷ rows) ≡ e ∷ rows_of d rows
unfolding select
group_first d e rows = ground arith

-- A bad row that is put in front of the rows of its number joins their group.
grouped_more :
    (d : ℕ) (e f : Execution) (fs : List Execution)
    → grouped ((d, e) ∷ (d, f) ∷ tags d fs) ≡ extend e (grouped ((d, f) ∷ tags d fs))
grouped_more d e f fs =
    let (rest, (same, above)) = distinct_head fs d in
    rw
      (
        distinct_again d (ids (tags d fs)),
        same,
        skip_group d e ((d, f) ∷ tags d fs) rest above,
        group_first d e ((d, f) ∷ tags d fs),
      )
      refl

-- A bad row of a smaller number is a group.
grouped_new :
    (d : ℕ) (e : Execution) (rows : List (ℕ × Execution))
    → All (λ n. d < n) (ids rows)
    → grouped ((d, e) ∷ rows) ≡ (e ∷ []) ∷ grouped rows
grouped_new d e rows h =
    rw
      (
        distinct_new d (ids rows) h,
        skip_group d e rows (distinct (ids rows)) (distinct-All d (ids rows) h),
        group_first d e rows,
        no_rows d rows h,
      )
      refl

nothing_grouped : grouped [] ≡ []
unfolding distinct
nothing_grouped = refl

-- One more execution in front.
tags_runs_cons :
    (e : Execution) (es : List Execution) (d : ℕ)
    → ((n : ℕ) → grouped (tags n es) ≡ bad_runs es)
    → grouped (tags d (e ∷ es)) ≡ bad_runs (e ∷ es)
unfolding tags bad_runs
tags_runs_cons e [] d h = elim (Bool-cases (is_bad e.status)) [
  | inl bad ↦ rw bad (grouped_new d e [] tt ∙ ap (λ r. (e ∷ []) ∷ r) nothing_grouped)
  | inr other ↦ rw other nothing_grouped
]
tags_runs_cons e (f ∷ fs) d h = elim (Bool-cases (is_bad e.status)) [
  | inr other ↦ rw other (h (suc d))
  | inl bad ↦ elim (Bool-cases (is_bad f.status)) [
    | inl again ↦ rw (bad, again) (grouped_more d e f fs ∙ ap (extend e) (rw again at h d))
    | inr new ↦
        rw (bad, new)
          (grouped_new d e (tags (suc d) fs) (tags_above fs (suc d))
            ∙ ap (λ r. (e ∷ []) ∷ r) (rw new at h d))
  ]
]

tags_runs : (es : List Execution) (d : ℕ) → grouped (tags d es) ≡ bad_runs es
unfolding tags bad_runs
tags_runs [] d = nothing_grouped
tags_runs (e ∷ es) d = tags_runs_cons e es d (tags_runs es)

-- The islands that the query forms from the executions of a job, in the order of their times, are the
-- maximal runs of neighbouring executions that failed, are missed or are unknown.
pub islands_are_runs : (rows : List Execution) → islands rows ≡ bad_runs rows
unfolding islands
islands_are_runs rows = rw (tags_lem rows 0 0 (omega arith)) (tags_runs rows 0)
