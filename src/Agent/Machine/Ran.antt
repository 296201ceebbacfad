-- ===== src/Agent/Machine/Ran.antt =====
-- What a `do` block that ends without an error has run, and what a file that was written holds.
use dysonsphere.Common.{◌≡◌, refl, [], Text, text_eq, arith}
use dysonsphere.Common.Assoc.{Assoc, insert}
use dysonsphere.Agent.World.{AgentEnv}
use dysonsphere.Agent.Machine.{
  MachineEnv, Machine, Fault, Result, ok, err, Action, continue, ◌>>=◌, write_file, sys,
}

-- The first part gave a value, and the second ended on what the first left.
pub record Ran {agent : AgentEnv} {A B : Type 0} (p : Action agent A) (f : A → Action agent B)
    (m : Machine agent) (b : B) : Type 0 where
  pub value : A
  pub first : (p m).0 ≡ ok value
  pub second : (f value (p m).1).0 ≡ ok b
  pub left : ((p >>= f) m).1 ≡ (f value (p m).1).1

module _ {agent : AgentEnv} {A B : Type 0} where
  continue_ran :
      (r : Result A) (f : A → Action agent B) (m : Machine agent) (b : B)
      → (continue r f m).0 ≡ ok b
      → (a : A) × (r ≡ ok a) × ((f a m).0 ≡ ok b) × ((continue r f m).1 ≡ (f a m).1)
  continue_ran (ok a) f m b e = (a, refl, e, refl)
  continue_ran (err x) f m b e = ground arith

  pub ran :
      (p : Action agent A) (f : A → Action agent B) (m : Machine agent) (b : B)
      → ((p >>= f) m).0 ≡ ok b
      → Ran p f m b
  ran p f m b e =
      let (a, x, y, z) = continue_ran (p m).0 f (p m).1 b e in
      record { value = a; first = x; second = y; left = z }

-- The files, after a file was written.
abbrev pub written : Text → Text → Assoc Text Text → Assoc Text Text
written path s files = insert path s (insert path [] files)

pub write_file-written :
    {agent : AgentEnv} (env : MachineEnv) (e : Fault) (path s : Text) (m : Machine agent)
    → (write_file env e path s m).0 ≡ ok tt
    → ((write_file env e path s m).1.files ≡ written path s m.files)
unfolding write_file
write_file-written env e path s m h = ground arith

pub sys-files :
    {agent : AgentEnv} (env : MachineEnv) (e : Fault) (m : Machine agent)
    → (sys env e m).1.files ≡ m.files
unfolding sys
sys-files env e m = ground arith
