-- ===== src/Server/Delivery/Picked.antt =====
-- The rows that a claim picks: apps/server/internal/repository/command.go.
use dysonsphere.Common.{
  ℕ, ◌≡◌, refl, Bool, true, false, ◌&&◌, List, [], ◌∷◌, map, Text, text_eq, text_beq, text_beq_iff,
  arith,
}
use dysonsphere.Common.Tables.{select, update_where, exists_row, order_by}
use dysonsphere.Common.Tables.Laws.{exists_row-order_by, exists_row-take}
use dysonsphere.Server.Domain.{AgentCommand}
use dysonsphere.Server.Store.{Db}
use dysonsphere.Server.Repository.CommandRepo.{
  is_pending, waits_for, picked, has_id, dispatch, requested_before,
}

abbrev pub named : Text → AgentCommand → Bool
named i r = text_beq r.id i

abbrev pub awaits : Text → AgentCommand → Bool
awaits i r = named i r && is_pending r.status

-- No pending command has the id.
abbrev pub Gone : Text → Db → Type 0
Gone i db = exists_row (awaits i) db.commands ≡ false

pub has_id-named :
    (i : Text) (rows : List AgentCommand) (r : AgentCommand)
    → named i r ≡ true
    → has_id rows r ≡ exists_row (named i) rows
has_id-named i rows r h = rw ((text_beq_iff r.id i).0 h) refl

-- What is not pending is not picked.
pub waiting_named :
    (i host : Text) (rows : List AgentCommand)
    → exists_row (awaits i) rows ≡ false
    → exists_row (named i) (select (waits_for host) rows) ≡ false
unfolding select exists_row
waiting_named i host [] h = refl
waiting_named i host (r ∷ rows) h = ground (arith, waiting_named i host rows)

pub picked-named :
    (i host : Text) (limit : ℕ) (rows : List AgentCommand)
    → exists_row (awaits i) rows ≡ false
    → exists_row (named i) (picked host limit rows) ≡ false
unfolding picked
picked-named i host limit rows h =
    exists_row-take (named i) limit (order_by requested_before (select (waits_for host) rows)) (
      rw (exists_row-order_by (named i) requested_before (select (waits_for host) rows))
        (waiting_named i host rows h))

-- The rows that a claim returns have the ids of the picked rows.
pub claimed_named :
    (i : Text) (now : ℕ) (p rows : List AgentCommand)
    → exists_row (named i) p ≡ false
    → exists_row (named i) (map (dispatch now) (select (has_id p) rows)) ≡ false
unfolding select exists_row
claimed_named i now p [] h = refl
claimed_named i now p (r ∷ rows) h = ground (arith, has_id-named i p r, claimed_named i now p rows)

-- A row whose id was picked waits no more.
pub dispatched_awaits :
    (i : Text) (now : ℕ) (p rows : List AgentCommand)
    → exists_row (named i) p ≡ true
    → exists_row (awaits i) (update_where (has_id p) (dispatch now) rows) ≡ false
unfolding update_where exists_row
dispatched_awaits i now p [] h = refl
dispatched_awaits i now p (r ∷ rows) h =
    ground (arith, has_id-named i p r, dispatched_awaits i now p rows)
