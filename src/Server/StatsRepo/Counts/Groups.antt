-- ===== src/Server/StatsRepo/Counts/Groups.antt =====
-- The groups of a GROUP BY and their sums, for the queries of
-- apps/server/internal/repository/stats.go.
use dysonsphere.Common.{
  ℕ, ◌+◌, ◌*◌, ◌≡◌, refl, sym, ap, ◌∙◌, Bool, true, false, Bool-cases, inl, inr, List, [], ◌∷◌, map,
  text_eq, nat_eq, Eq, ◌==◌, count_if, if◌then◌else◌, arith,
}
use dysonsphere.Common.Tables.{select, exists_row, order_by, place}
use dysonsphere.Server.StatsRepo.{distinct, group, group_by}

-- The sum of a number that each item has.
unfoldable pub sum_of {ℓ} : {A : Type ℓ} → (A → ℕ) → List A → ℕ
sum_of f [] = 0
sum_of f (x ∷ xs) = f x + sum_of f xs

module _ {ℓ} {A : Type ℓ} where
  sum_of-place :
      (f : A → ℕ) (before : A → A → Bool) (x : A) (xs : List A)
      → sum_of f (place before x xs) ≡ f x + sum_of f xs
  unfolding sum_of place
  sum_of-place f before x [] = refl
  sum_of-place f before x (y ∷ ys) = ground (arith, sum_of-place f before x ys)

  pub sum_of-order_by :
      (f : A → ℕ) (before : A → A → Bool) (xs : List A)
      → sum_of f (order_by before xs) ≡ sum_of f xs
  unfolding sum_of order_by
  sum_of-order_by f before [] = refl
  sum_of-order_by f before (x ∷ xs) =
      omega (arith, sum_of-place f before x (order_by before xs), sum_of-order_by f before xs)

  sum_of-map {κ} :
      {B : Type κ} (f : B → ℕ) (g : A → B) (xs : List A)
      → sum_of f (map g xs) ≡ sum_of (λ x. f (g x)) xs
  unfolding sum_of
  sum_of-map f g [] = refl
  sum_of-map f g (x ∷ xs) = ap (λ n. f (g x) + n) (sum_of-map f g xs)

module _ {ℓ} {K : Type ℓ} ⦃eq : Eq K⦄ where
  occurrences : K → List K → ℕ
  occurrences j = count_if (λ k. j == k)

  absent : (j : K) (ks : List K) → exists_row (λ k. j == k) ks ≡ false → occurrences j ks ≡ 0
  unfolding occurrences exists_row
  absent j [] h = refl
  absent j (k ∷ ks) h = ground (arith, absent j ks, h)

  -- Each key is listed once.
  distinct_once :
      (j : K) (ks : List K)
      → occurrences j (distinct ks) ≡ (if exists_row (λ k. j == k) ks then 1 else 0)
  unfolding occurrences distinct exists_row
  distinct_once j [] = refl
  distinct_once j (k ∷ ks) = elim (Bool-cases (j == k)) [
    | inl here ↦
        let p : j ≡ k = (eq.same_iff j k).0 here in
        let here' : (j == j) ≡ true = (eq.same_iff j j).1 refl in
        rw (← p) (ground (arith, distinct_once j ks, here'))
    | inr there ↦ ground (arith, distinct_once j ks, there)
  ]

  same_sym : (j k : K) → (j == k) ≡ (k == j)
  same_sym j k = elim (Bool-cases (j == k)) [
    | inl e ↦ e ∙ sym ((eq.same_iff k j).1 (sym ((eq.same_iff j k).0 e)))
    | inr n ↦ elim (Bool-cases (k == j)) [
      | inl e ↦ (eq.same_iff j k).1 (sym ((eq.same_iff k j).0 e)) ∙ sym e
      | inr m ↦ n ∙ sym m
    ]
  ]

  once : (j : K) (ks : List K) → occurrences j (distinct (j ∷ ks)) ≡ 1
  unfolding exists_row
  once j ks =
      let h : (j == j) ≡ true = (eq.same_iff j j).1 refl in rw (distinct_once j (j ∷ ks), h) refl

  sum_split :
      (c : K → ℕ) (n : ℕ) (j : K) (ks : List K)
      → sum_of (λ k. (if j == k then n else 0) + c k) ks ≡ n * occurrences j ks + sum_of c ks
  unfolding sum_of occurrences
  sum_split c n j [] = omega arith
  sum_split c n j (k ∷ ks) = ground (arith, sum_split c n j ks)

  new_row :
      (c : K → ℕ) (n : ℕ) (j : K) (ks : List K)
      → sum_of (λ k. (if j == k then n else 0) + c k) (distinct (j ∷ ks))
        ≡ n + sum_of c (distinct (j ∷ ks))
  new_row c n j ks = sum_split c n j (distinct (j ∷ ks)) ∙ rw (once j ks) (omega arith)

module _ {ℓ κ} {A : Type ℓ} {K : Type κ} ⦃eq : Eq K⦄ (key : A → K) (p : A → Bool) where
  abbrev group_count : List A → K → ℕ
  group_count rows k = count_if p (group key rows k)

  group_count-cons :
      (x : A) (xs : List A) (k : K)
      → group_count (x ∷ xs) k
        ≡ (if key x == k then (if p x then 1 else 0) else 0) + group_count xs k
  unfolding select
  group_count-cons x xs k = ground arith

  no_group :
      (rows : List A) (k : K)
      → exists_row (λ j. k == j) (map key rows) ≡ false
      → group_count rows k ≡ 0
  unfolding select exists_row
  no_group [] k h = refl
  no_group (x ∷ xs) k h = ground (arith, no_group xs k, same_sym (key x) k, h)

  sum_of-cong : (f g : K → ℕ) (ks : List K) → ((k : K) → f k ≡ g k) → sum_of f ks ≡ sum_of g ks
  unfolding sum_of
  sum_of-cong f g [] h = refl
  sum_of-cong f g (k ∷ ks) h = omega (arith, h k, sum_of-cong f g ks h)

  more_groups :
      (x : A) (xs : List A)
      → sum_of (group_count xs) (distinct (key x ∷ map key xs))
        ≡ sum_of (group_count xs) (distinct (map key xs))
  unfolding sum_of distinct
  more_groups x xs = elim (Bool-cases (exists_row (λ j. key x == j) (map key xs))) [
    | inl again ↦ rw again refl
    | inr new ↦ rw new (omega (arith, no_group xs (key x) new))
  ]

  -- The groups of a GROUP BY share the rows out among them.
  pub groups_share :
      (rows : List A) → sum_of (group_count rows) (distinct (map key rows)) ≡ count_if p rows
  unfolding sum_of distinct
  groups_share [] = refl
  groups_share (x ∷ xs) =
      let keys = distinct (key x ∷ map key xs) in
      omega (
        arith,
        sum_of-cong (group_count (x ∷ xs))
            (λ k. (if key x == k then (if p x then 1 else 0) else 0) + group_count xs k) keys
            (group_count-cons x xs),
        new_row (group_count xs) (if p x then 1 else 0) (key x) (map key xs),
        more_groups x xs,
        groups_share xs,
      )

  -- The same, for what a GROUP BY makes of the groups.
  pub group_by-share {μ} :
      {B : Type μ} (f : K → List A → B) (n : B → ℕ) (rows : List A)
      → ((k : K) (xs : List A) → n (f k xs) ≡ count_if p xs)
      → sum_of n (group_by key f rows) ≡ count_if p rows
  group_by-share f n rows h =
      sum_of-map n (λ k. f k (group key rows k)) (distinct (map key rows))
      ∙ (sum_of-cong (λ k. n (f k (group key rows k))) (group_count rows) (distinct (map key rows))
            (λ k. h k (group key rows k))
          ∙ groups_share rows)
