-- ===== src/Server/Store/Ran.antt =====
-- What a `do` block that ends without an error has run.
use dysonsphere.Common.{◌≡◌, refl, arith}
use dysonsphere.Server.Store.{Db, Result, ok, err, Action, continue, ◌>>=◌}

-- The first part gave a value, and the second ended on what the first left.
pub record Ran {A B : Type 0} (m : Action A) (f : A → Action B) (db : Db) (b : B) : Type 0 where
  pub value : A
  pub first : (m db).0 ≡ ok value
  pub second : (f value (m db).1).0 ≡ ok b
  pub left : ((m >>= f) db).1 ≡ (f value (m db).1).1

module _ {A B : Type 0} where
  continue_ran :
      (r : Result A) (f : A → Action B) (db : Db) (b : B)
      → (continue r f db).0 ≡ ok b
      → (a : A) × (r ≡ ok a) × ((f a db).0 ≡ ok b) × ((continue r f db).1 ≡ (f a db).1)
  continue_ran (ok a) f db b e = (a, refl, e, refl)
  continue_ran (err x) f db b e = ground arith

  pub ran :
      (m : Action A) (f : A → Action B) (db : Db) (b : B) → ((m >>= f) db).0 ≡ ok b → Ran m f db b
  ran m f db b e =
      let (a, p, q, r) = continue_ran (m db).0 f (m db).1 b e in
      record { value = a; first = p; second = q; left = r }
