-- ===== src/Server/Store/Keeps.antt =====
-- Invariants of the tables: rules for actions built by `do` blocks, for errors that are dropped, and
-- for statements.
use dysonsphere.Common.{
  ℕ, Bool, true, false, Option, none, some, Text, if◌then◌else◌, Bool-cases, inl, inr,
}
use dysonsphere.Server.Store.{
  Env, Db, Error, Result, ok, err, Action, pure, raise, attempt, lift, continue, ◌>>=◌,
}
use dysonsphere.Server.Store.Query.{statement, tick}

-- An action keeps `P`, whether it succeeds or fails.
pub record Keeps {ℓ} {A : Type ℓ} (P : Db → Type ℓ) (m : Action A) : Type ℓ where
  pub after : (db : Db) → P db → P (m db).1

module _ {ℓ} {A : Type ℓ} {P : Db → Type ℓ} where
  pub Keeps-pure : (a : A) → Keeps P (pure a)
  Keeps-pure a = record { after = λ db h. h }

  pub Keeps-raise : (e : Error) → Keeps P (raise {A = A} e)
  Keeps-raise e = record { after = λ db h. h }

  pub Keeps-lift : (e : Error) (o : Option A) → Keeps P (lift e o)
  Keeps-lift e none = Keeps-raise e
  Keeps-lift e (some a) = Keeps-pure a

  pub Keeps-attempt : (m : Action A) → Keeps P m → Keeps P (attempt m)
  Keeps-attempt m k = record { after = k.after }

  pub Keeps-if : (b : Bool) (m n : Action A) → Keeps P m → Keeps P n → Keeps P (if b then m else n)
  Keeps-if true m n k l = k
  Keeps-if false m n k l = l

  -- A statement keeps what its counter and its effect keep, at the times and ids it may draw.
  pub Keeps-statement_at :
      (env : Env) (run : ℕ → Text → Action A)
      → ((db : Db) → P db → P (tick db))
      → ((n : ℕ) → Keeps P (run (env.now n) (env.fresh n)))
      → Keeps P (statement env run)
  unfolding statement
  Keeps-statement_at env run t k = record {
    after = λ db h. elim (Bool-cases (env.fails db.steps)) [
      | inl down ↦ rw down (t db h)
      | inr up ↦ rw up ((k db.steps).after (tick db) (t db h))
    ];
  }

  pub Keeps-statement :
      (env : Env) (run : ℕ → Text → Action A)
      → ((db : Db) → P db → P (tick db))
      → ((now : ℕ) (fresh : Text) → Keeps P (run now fresh))
      → Keeps P (statement env run)
  Keeps-statement env run t k = Keeps-statement_at env run t (λ n. k (env.now n) (env.fresh n))

module _ {ℓ} {A B : Type ℓ} {P : Db → Type ℓ} where
  -- What follows a result keeps what the result left.
  pub continue-keeps :
      (r : Result A) (f : A → Action B) (db : Db)
      → ((a : A) → Keeps P (f a))
      → P db
      → P (continue r f db).1
  continue-keeps (ok a) f db k h = (k a).after db h
  continue-keeps (err e) f db k h = h

  pub Keeps-bind :
      (m : Action A) (f : A → Action B) → Keeps P m → ((a : A) → Keeps P (f a)) → Keeps P (m >>= f)
  Keeps-bind m f k l = record {
    after = λ db h. continue-keeps (m db).0 f (m db).1 l (k.after db h);
  }
