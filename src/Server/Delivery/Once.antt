-- ===== src/Server/Delivery/Once.antt =====
-- A command is handed out once: apps/server/internal/repository/command.go under
-- apps/server/internal/service/command.go.
use dysonsphere.Common.{
  ℕ, ◌≡◌, refl, true, false, Option, List, [], ◌∷◌, Text, text_eq, text_beq, ◌==◌, arith,
  Bool-cases, Option-cases, inl, inr,
}
use dysonsphere.Common.Tables.{exists_row}
use dysonsphere.Common.Tables.Laws.{exists_row-append, exists_row-update}
use dysonsphere.Server.Domain.{AgentCommand, AgentCommandStatus}
use dysonsphere.Server.Store.{
  Env, Db, Result, ok, err, pure, continue, bad_uuid, query_failed, wrong_host, bad_status,
}
use dysonsphere.Server.Store.Query.{statement, parse_uuid, column_uuid}
use dysonsphere.Server.Store.Keeps.{
  Keeps, Keeps-pure, Keeps-raise, Keeps-lift, Keeps-if, Keeps-statement, Keeps-statement_at,
  Keeps-bind,
}
use dysonsphere.Server.Repository.JobRepo.{get_by_id}
use dysonsphere.Server.Repository.CommandRepo
use dysonsphere.Server.Repository.CommandRepo.{
  is_pending, waits_for, picked, has_id, dispatch, requested_before, new_command, limit_or_ten,
}
use dysonsphere.Server.Service.CommandService.{
  enqueue_run, enqueue_runs, claim_pending, complete, status_of, is_final, queued,
}
use dysonsphere.Server.Delivery.{CommandOp, enqueue, claim, finish, perform, handed, serve}
use dysonsphere.Server.Delivery.Picked.{
  named, awaits, Gone, picked-named, claimed_named, dispatched_awaits,
}

nothing_handed :
    {A : Type 0} (r : Result A) (db : Db) → handed (continue r (λ a. pure []) db).0 ≡ []
nothing_handed (ok a) db = refl
nothing_handed (err e) db = refl

module _ (env : Env) (i : Text) where
  -- A claim hands out no command that is gone.
  claim_of_Gone :
      (host : Text) (limit : ℕ) (db : Db)
      → Gone i db
      → exists_row (named i) (handed (claim_pending env host limit db).0) ≡ false
  unfolding claim_pending CommandRepo.claim_pending statement column_uuid exists_row
  claim_of_Gone host limit db h = elim (Option-cases (env.pg_uuid host)) [
    | inl bad ↦ rw bad refl
    | inr (uuid, good) ↦ elim (Bool-cases (env.fails db.steps)) [
      | inl down ↦ rw (good, down) refl
      | inr up ↦
          rw (good, up)
            (claimed_named i (env.now db.steps) (picked uuid (limit_or_ten limit) db.commands)
              db.commands (picked-named i uuid (limit_or_ten limit) db.commands h))
    ]
  ]

  -- A command that a claim hands out is gone.
  claim-Gone :
      (host : Text) (limit : ℕ) (db : Db)
      → exists_row (named i) (handed (claim_pending env host limit db).0) ≡ true
      → Gone i (claim_pending env host limit db).1
  unfolding claim_pending CommandRepo.claim_pending statement column_uuid exists_row
  claim-Gone host limit db h = elim (Option-cases (env.pg_uuid host)) [
    | inl bad ↦ ground arith
    | inr (uuid, good) ↦ elim (Bool-cases (env.fails db.steps)) [
      | inl down ↦ ground arith
      | inr up ↦
          let p = picked uuid (limit_or_ten limit) db.commands in
          rw (good, up)
            (elim (Bool-cases (exists_row (named i) p)) [
              | inl there ↦ dispatched_awaits i (env.now db.steps) p db.commands there
              | inr absent ↦ ground (arith, claimed_named i (env.now db.steps) p db.commands absent)
            ])
    ]
  ]

  claim_pending-Keeps : (host : Text) (limit : ℕ) → Keeps (Gone i) (claim_pending env host limit)
  unfolding claim_pending CommandRepo.claim_pending
  claim_pending-Keeps host limit =
      Keeps-bind (column_uuid env host) _
        (unfold column_uuid in Keeps-lift query_failed (env.pg_uuid host))
        λ uuid.
          Keeps-statement env _ (λ db h. h)
            λ now fresh. record {
              after = λ db h.
                  exists_row-update (awaits i)
                    (has_id (picked uuid (limit_or_ten limit) db.commands)) (dispatch now)
                    (λ x chosen still. ground arith) db.commands h;
            }

  close-Keeps :
      (id : Text) (status : AgentCommandStatus) (message : Text) (started finished code : Option ℕ)
      → is_final status ≡ true
      → Keeps (Gone i) (CommandRepo.complete env id status message started finished code)
  unfolding CommandRepo.complete
  close-Keeps id status message started finished code final =
      Keeps-bind (column_uuid env id) _
        (unfold column_uuid in Keeps-lift query_failed (env.pg_uuid id))
        λ uuid.
          Keeps-statement env _ (λ db h. h)
            λ now fresh. record {
              after = λ db h. ground (
                arith,
                exists_row-update (awaits i) (λ r. r.id == uuid)
                    (CommandRepo.finish status message started finished code)
                    (λ x chosen still. ground arith) db.commands h,
              );
            }

  complete-Keeps :
      (id status message : Text) (started finished code : Option ℕ)
      → Keeps (Gone i) (complete env id status message started finished code)
  unfolding complete
  complete-Keeps id status message started finished code =
      elim (Bool-cases (is_final (status_of status))) [
        | inl final ↦
            rw final (close-Keeps id (status_of status) message started finished code final)
        | inr other ↦ rw other (Keeps-raise bad_status)
      ]

  module _ (undrawn : (n : ℕ) → text_beq (env.fresh n) i ≡ false) where
    insert-Keeps : (cmd : AgentCommand) → Keeps (Gone i) (CommandRepo.insert env cmd)
    unfolding CommandRepo.insert
    insert-Keeps cmd =
        Keeps-bind (column_uuid env cmd.host_id) _
          (unfold column_uuid in Keeps-lift query_failed (env.pg_uuid cmd.host_id))
          λ host.
            Keeps-bind (column_uuid env cmd.job_id) _
              (unfold column_uuid in Keeps-lift query_failed (env.pg_uuid cmd.job_id))
              λ job.
                Keeps-statement_at env _ (λ db h. h)
                  λ n. record {
                    after = λ db h.
                        unfold exists_row in
                        ground (
                          arith,
                          undrawn n,
                          exists_row-append (awaits i) db.commands
                              (new_command (env.now n) (env.fresh n) host job cmd ∷ []),
                        );
                  }

    get_by_id-Keeps : (id : Text) → Keeps (Gone i) (get_by_id env id)
    unfolding get_by_id
    get_by_id-Keeps id =
        Keeps-bind (parse_uuid env id) _
          (unfold parse_uuid in Keeps-lift bad_uuid (env.uuid_parse id))
          λ uuid.
            Keeps-statement env _ (λ db h. h) λ now fresh. record { after = λ db h. ground arith }

    enqueue_runs-Keeps :
        (host : Text) (ids : List Text) → Keeps (Gone i) (enqueue_runs env host ids)
    unfolding enqueue_runs enqueue_run
    enqueue_runs-Keeps host [] = Keeps-pure []
    enqueue_runs-Keeps host (id ∷ ids) =
        Keeps-bind (enqueue_run env host id) _
          (Keeps-bind (get_by_id env id) _ (get_by_id-Keeps id) λ job.
            Keeps-if (job.host_id == host) _ _ (insert-Keeps (queued host job))
              (Keeps-raise wrong_host))
          λ cmd.
            Keeps-bind (enqueue_runs env host ids) _ (enqueue_runs-Keeps host ids)
              λ cmds. Keeps-pure (cmd ∷ cmds)

    perform-Keeps : (op : CommandOp) → Keeps (Gone i) (perform env op)
    perform-Keeps (enqueue host ids) =
        Keeps-bind (enqueue_runs env host ids) _ (enqueue_runs-Keeps host ids) λ r. Keeps-pure []
    perform-Keeps (claim host limit) = claim_pending-Keeps host limit
    perform-Keeps (finish id status message started finished code) =
        Keeps-bind (complete env id status message started finished code) _
          (complete-Keeps id status message started finished code) λ r. Keeps-pure []

    handed-Gone :
        (op : CommandOp) (db : Db)
        → Gone i db
        → exists_row (named i) (handed (perform env op db).0) ≡ false
    handed-Gone (enqueue host ids) db h =
        unfold exists_row in
        rw (nothing_handed (enqueue_runs env host ids db).0 (enqueue_runs env host ids db).1) refl
    handed-Gone (claim host limit) db h = claim_of_Gone host limit db h
    handed-Gone (finish id status message started finished code) db h =
        unfold exists_row in
        rw
          (nothing_handed (complete env id status message started finished code db).0
            (complete env id status message started finished code db).1)
          refl

    serve-Gone :
        (ops : List CommandOp) (db : Db)
        → Gone i db
        → exists_row (named i) (serve env ops db).0 ≡ false
    unfolding serve exists_row
    serve-Gone [] db h = refl
    serve-Gone (op ∷ ops) db h =
        rw
          (
            exists_row-append (named i) (handed (perform env op db).0)
                (serve env ops (perform env op db).1).0,
            handed-Gone op db h,
          )
          (serve-Gone ops (perform env op db).1 ((perform-Keeps op).after db h))

-- A command that a claim hands out is handed out by none of the operations that follow, whichever
-- statements fail, unless the database draws its id again.
pub delivered_once :
    (env : Env) (i host : Text) (limit : ℕ) (db : Db) (ops : List CommandOp)
    → ((n : ℕ) → text_beq (env.fresh n) i ≡ false)
    → exists_row (λ r. text_beq r.id i) (handed (claim_pending env host limit db).0) ≡ true
    → exists_row (λ r. text_beq r.id i) (serve env ops (claim_pending env host limit db).1).0
      ≡ false
delivered_once env i host limit db ops undrawn h =
    serve-Gone env i undrawn ops (claim_pending env host limit db).1
      (claim-Gone env i host limit db h)
