-- ===== src/Agent/Bolt.antt =====
-- What apps/agent/internal/state/store.go relies on of bbolt: a bucket maps keys to values, a `Put`
-- replaces the value of a key, and `ForEach` visits every entry. The values are given decoded.
pub mod Memory
use dysonsphere.Common.{◌≡◌, Option, none, some, List, Text, text_eq, ◌==◌, if◌then◌else◌}
use mathlib.Core.List.{Mem}

pub record Bolt : Type 1 where
  pub Bucket : Type 0 → Type 0
  pub empty : {V : Type 0} → Bucket V
  pub get : {V : Type 0} → Bucket V → Text → Option V
  pub put : {V : Type 0} → Bucket V → Text → V → Bucket V
  pub delete : {V : Type 0} → Bucket V → Text → Bucket V
  pub entries : {V : Type 0} → Bucket V → List (Text × V)
  pub get-empty : {V : Type 0} (k : Text) → get (empty {V = V}) k ≡ none
  pub get-put :
      {V : Type 0} (b : Bucket V) (k : Text) (v : V) (j : Text)
      → get (put b k v) j ≡ (if k == j then some v else get b j)
  pub get-delete :
      {V : Type 0} (b : Bucket V) (k j : Text)
      → get (delete b k) j ≡ (if k == j then none else get b j)
  pub entry_of_get :
      {V : Type 0} (b : Bucket V) (k : Text) (v : V) → get b k ≡ some v → Mem (k, v) (entries b)
