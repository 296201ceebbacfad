-- ===== src/Common/Assoc.antt =====
-- Go's `map` as an association list. An iteration visits the entries in the order of the list,
-- which stands for the arbitrary order that Go promises.
use mathlib.Core.Path.{◌≡◌, refl}
use mathlib.Core.Bool.{Bool, true}
use mathlib.Core.Option.{Option, none, some}
use mathlib.Core.Logic.{inl, inr}
use mathlib.Core.List.{List, [], ◌∷◌}
use native.Mathlib.Omega.{arith}
use dysonsphere.Common.Tests.{if◌then◌else◌, Bool-cases}
use dysonsphere.Common.Classes.{Eq, ◌==◌}

abbrev pub Assoc {ℓ κ} : Type ℓ → Type κ → Type (ℓ ⊔ κ)
Assoc K V = List (K × V)

module _ {ℓ κ} {K : Type ℓ} ⦃e : Eq K⦄ {V : Type κ} where
  unfoldable pub lookup : K → Assoc K V → Option V
  lookup sought [] = none
  lookup sought ((key, value) ∷ entries) =
      if key == sought then some value else lookup sought entries

  -- delete(m, k)
  unfoldable pub remove : K → Assoc K V → Assoc K V
  remove k [] = []
  remove k ((j, v) ∷ m) = let rest = remove k m in if j == k then rest else (j, v) ∷ rest

  -- for k, v := range m { if p(k, v) { delete(m, k) } }
  unfoldable pub sweep : (K → V → Bool) → Assoc K V → Assoc K V
  sweep p [] = []
  sweep p ((j, v) ∷ m) = let rest = sweep p m in if p j v then remove j rest else (j, v) ∷ rest

  -- m[k] = v
  unfoldable pub insert : K → V → Assoc K V → Assoc K V
  insert key value ((j, old) ∷ m) =
      if j == key then (key, value) ∷ m else (j, old) ∷ insert key value m
  insert key value [] = (key, value) ∷ []

  pub lookup-insert :
      (key sought : K) (value : V) (entries : Assoc K V)
      → lookup sought (insert key value entries)
        ≡ (if key == sought then some value else lookup sought entries)
  unfolding lookup insert
  lookup-insert key sought value [] = refl
  lookup-insert key sought value ((i, old) ∷ entries) = ground (
    arith,
    e.same_iff key sought,
    e.same_iff i key,
    e.same_iff i sought,
    lookup-insert key sought value entries,
  )

  pub lookup-remove :
      (k j : K) (m : Assoc K V) → lookup j (remove k m) ≡ (if k == j then none else lookup j m)
  unfolding lookup remove
  lookup-remove k j [] = ground arith
  lookup-remove k j ((i, v) ∷ m) =
      ground (arith, e.same_iff k j, e.same_iff i k, e.same_iff i j, lookup-remove k j m)

  -- What a sweep leaves of an entry.
  abbrev pub spared : (K → V → Bool) → K → Option V → Option V
  spared p k none = none
  spared p k (some v) = if p k v then none else some v

  pub lookup-sweep :
      (p : K → V → Bool) (k : K) (m : Assoc K V) → lookup k (sweep p m) ≡ spared p k (lookup k m)
  unfolding lookup sweep
  lookup-sweep p k [] = refl
  lookup-sweep p k ((i, v) ∷ m) = elim (Bool-cases (i == k)) [
    | inl same ↦
        rw (← (e.same_iff i k).0 same)
          (ground (arith, e.same_iff i i, lookup-remove i i (sweep p m), lookup-sweep p i m))
    | inr other ↦ ground (arith, lookup-remove i k (sweep p m), lookup-sweep p k m)
  ]

pub beq_refl {ℓ} : {K : Type ℓ} ⦃e : Eq K⦄ (k : K) → (k == k) ≡ true
beq_refl ⦃e⦄ k = (e.same_iff k k).1 refl
