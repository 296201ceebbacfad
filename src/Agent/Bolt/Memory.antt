-- ===== src/Agent/Bolt/Memory.antt =====
-- A store that holds its buckets in memory: it keeps the laws of the interface.
use dysonsphere.Common.{
  ◌≡◌, refl, none, some, [], ◌∷◌, Text, text_eq, text_beq_iff, ◌==◌, arith, Bool-cases, inl, inr,
}
use dysonsphere.Common.Assoc.{Assoc, lookup, insert, remove, lookup-insert, lookup-remove}
use mathlib.Core.List.{Mem, mem-cons_self, mem-cons_of_mem}
use dysonsphere.Agent.Bolt.{Bolt}

pub found-Mem :
    {V : Type 0} (m : Assoc Text V) (k : Text) (v : V) → lookup k m ≡ some v → Mem (k, v) m
unfolding lookup
found-Mem [] k v h = ground arith
found-Mem ((j, w) ∷ m) k v h = elim (Bool-cases (j == k)) [
  | inl here ↦
      let p : j ≡ k = (text_beq_iff j k).0 here in
      let q : w ≡ v = ground (arith, h, here) in rw (← p, ← q) mem-cons_self
  | inr there ↦ mem-cons_of_mem (j, w) (found-Mem m k v (rw there at h))
]

pub lookup_nothing : {V : Type 0} (k : Text) → lookup {V = V} k [] ≡ none
unfolding lookup
lookup_nothing k = refl

abbrev pub memory : Bolt
memory = record {
  Bucket = Assoc Text;
  empty = [];
  get = λ m k. lookup k m;
  put = λ m k v. insert k v m;
  delete = λ m k. remove k m;
  entries = λ m. m;
  get-empty = lookup_nothing;
  get-put = λ m k v j. lookup-insert k j v m;
  get-delete = λ m k j. lookup-remove k j m;
  entry_of_get = found-Mem;
}
