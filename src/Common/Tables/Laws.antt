-- ===== src/Common/Tables/Laws.antt =====
-- Laws of the operations on tables.
use Prim.Native.Nat.{ℕ, zero, suc, ◌≤◌}
use mathlib.Core.Path.{◌≡◌, refl}
use mathlib.Core.Bool.{Bool, true, false, ◌||◌}
use mathlib.Core.Option.{none, some}
use mathlib.Core.List.{List, [], ◌∷◌, ◌++◌}
use native.Mathlib.Omega.{arith}
use dysonsphere.Common.Lists.{count_if, take}
use dysonsphere.Common.Tables.{find, select, update_where, exists_row, place, order_by}

module _ {ℓ} {A : Type ℓ} (p : A → Bool) where
  pub count_if_unfound : (xs : List A) → find p xs ≡ none → count_if p xs ≡ 0
  unfolding find
  count_if_unfound [] h = refl
  count_if_unfound (x ∷ xs) h = ground (arith, count_if_unfound xs)

  pub find-exists : (xs : List A) → exists_row p xs ≡ false → find p xs ≡ none
  unfolding find exists_row
  find-exists [] h = refl
  find-exists (x ∷ xs) h = ground (arith, find-exists xs)

  pub exists-find : (xs : List A) → find p xs ≡ none → exists_row p xs ≡ false
  unfolding find exists_row
  exists-find [] h = refl
  exists-find (x ∷ xs) h = ground (arith, exists-find xs)

  pub find_holds : (xs : List A) (x : A) → find p xs ≡ some x → p x ≡ true
  unfolding find
  find_holds [] x h = ground arith
  find_holds (y ∷ ys) x h = ground (arith, find_holds ys x)

  pub exists_row-append :
      (xs ys : List A) → exists_row p (xs ++ ys) ≡ (exists_row p xs || exists_row p ys)
  unfolding exists_row
  exists_row-append [] ys = refl
  exists_row-append (x ∷ xs) ys = ground (arith, exists_row-append xs ys)

  -- An update that makes no row pass a test leaves at most as many that do.
  pub count_if-update :
      (q : A → Bool) (f : A → A)
      → ((x : A) → q x ≡ true → p (f x) ≡ true → p x ≡ true)
      → (xs : List A) → count_if p (update_where q f xs) ≤ count_if p xs
  unfolding update_where
  count_if-update q f keep [] = omega arith
  count_if-update q f keep (x ∷ xs) = ground (arith, keep x, count_if-update q f keep xs)

  pub exists_row-update :
      (q : A → Bool) (f : A → A)
      → ((x : A) → q x ≡ true → p (f x) ≡ true → p x ≡ true)
      → (xs : List A) → exists_row p xs ≡ false
      → exists_row p (update_where q f xs) ≡ false
  unfolding update_where exists_row
  exists_row-update q f keep [] h = refl
  exists_row-update q f keep (x ∷ xs) h = ground (arith, keep x, exists_row-update q f keep xs)

  pub exists_row-select :
      (q : A → Bool) (xs : List A) → exists_row p xs ≡ false → exists_row p (select q xs) ≡ false
  unfolding select exists_row
  exists_row-select q [] h = refl
  exists_row-select q (x ∷ xs) h = ground (arith, exists_row-select q xs)

  exists_row-place :
      (before : A → A → Bool) (x : A) (ys : List A)
      → exists_row p (place before x ys) ≡ (p x || exists_row p ys)
  unfolding place exists_row
  exists_row-place before x [] = refl
  exists_row-place before x (y ∷ ys) = ground (arith, exists_row-place before x ys)

  pub exists_row-order_by :
      (before : A → A → Bool) (xs : List A) → exists_row p (order_by before xs) ≡ exists_row p xs
  unfolding order_by exists_row
  exists_row-order_by before [] = refl
  exists_row-order_by before (x ∷ xs) =
      rw (exists_row-place before x (order_by before xs), exists_row-order_by before xs) refl

  pub exists_row-take :
      (n : ℕ) (xs : List A) → exists_row p xs ≡ false → exists_row p (take n xs) ≡ false
  unfolding exists_row
  exists_row-take zero xs h = refl
  exists_row-take (suc n) [] h = refl
  exists_row-take (suc n) (x ∷ xs) h = ground (arith, exists_row-take n xs)
