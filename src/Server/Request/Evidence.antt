-- ===== src/Server/Request/Evidence.antt =====
-- The command hash in the evidence of an execution: apps/server/internal/api/request.go writes it, and
-- apps/server/internal/service/execution.go reads it.
use dysonsphere.Common.{
  ◌≡◌, refl, ◌↔◌, ◌⊎◌, inl, inr, false, Option, none, some, Text, text_eq, text_beq, text_beq_refl,
  arith,
}
use dysonsphere.Common.Strings.{codes, is_empty}
use dysonsphere.Server.Domain.{
  Execution, Json, null, invalid, bool, number, text, array, object, Fields, no_field, field,
}
use dysonsphere.Server.Service.ExecutionService.{get_field, command_hash_from_evidence}
use dysonsphere.Server.Request.{ExecutionEvent, set_field, merge_json, execution_of}

get-set_field : (k : Text) (v : Json) (fs : Fields) → get_field k (set_field k v fs) ≡ some v
unfolding get_field set_field
get-set_field k v no_field = ground (arith, text_beq_refl k)
get-set_field k v (field j w fs) = ground (arith, get-set_field k v fs)

merge_panics : (o : Option Json) (k : Text) (v : Json) → (merge_json o k v ≡ none) ↔ (o ≡ some null)
unfolding merge_json
merge_panics none k v = ground arith
merge_panics (some null) k v = ground arith
merge_panics (some invalid) k v = ground arith
merge_panics (some (bool b)) k v = ground arith
merge_panics (some (number n)) k v = ground arith
merge_panics (some (text t)) k v = ground arith
merge_panics (some (array xs)) k v = ground arith
merge_panics (some (object fs)) k v = ground arith

merged_hash :
    (o : Option Json) (hash : Text)
    → (merge_json o (codes "command_hash") (text hash) ≡ none)
      ⊎ (command_hash_from_evidence (merge_json o (codes "command_hash") (text hash)) ≡ hash)
unfolding merge_json command_hash_from_evidence get_field text_beq
merged_hash none hash = inr refl
merged_hash (some null) hash = inl refl
merged_hash (some (object fs)) hash =
    inr (rw (get-set_field (codes "command_hash") (text hash) fs) refl)
merged_hash (some invalid) hash = inr refl
merged_hash (some (bool b)) hash = inr refl
merged_hash (some (number n)) hash = inr refl
merged_hash (some (text t)) hash = inr refl
merged_hash (some (array xs)) hash = inr refl

-- An event with a command hash is converted unless its evidence is null, and the hash is found in the
-- evidence of the execution.
pub evidence_hash :
    (e : ExecutionEvent)
    → is_empty e.command_hash ≡ false
    → ((execution_of e ≡ none) ↔ (e.evidence ≡ some null))
      × ((x : Execution)
          → execution_of e ≡ some x
          → command_hash_from_evidence x.evidence ≡ e.command_hash)
unfolding execution_of
evidence_hash e h = ground (
  arith,
  merge_panics e.evidence (codes "command_hash") (text e.command_hash),
  merged_hash e.evidence e.command_hash,
)
