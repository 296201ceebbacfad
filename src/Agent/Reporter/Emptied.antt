-- ===== src/Agent/Reporter/Emptied.antt =====
-- A flush that nothing hinders uploads every buffered execution and leaves none:
-- apps/agent/internal/reporter/reporter.go over apps/agent/internal/state/store.go.
use mathlib.Core.Logic.Or
use mathlib.Core.List.{Mem, mem-cons, not-mem-nil, append-nil, mem-map_of_mem}
use dysonsphere.Common.{
  ℕ, suc, ◌≤◌, ◌≡◌, refl, ◌∙◌, Bool, true, false, Option, none, some, List, [], ◌∷◌, ◌++◌, Text,
  text_eq, ◌==◌, if◌then◌else◌, text_beq_refl, arith, ap, sym,
}
use dysonsphere.Common.Strings.{is_some}
use dysonsphere.Agent.World.{AgentEnv, PendingEvent, World, update, view}
use dysonsphere.Agent.Store.{values, pending_executions, delete_execution}
use dysonsphere.Agent.Reporter.{
  payloads, delete_executions, upload_executions, upload_found_executions, flush_executions,
}
use dysonsphere.Agent.Reporter.Keyed.{Keyed, run-Keyed}
use dysonsphere.Agent.Reporter.Delivery.{StoreOp, run}

module _ (env : AgentEnv) where
  abbrev pub is_buffered : World env → Text → Bool
  is_buffered w k = is_some (env.bolt.get w.buckets.executions k)

  Bool-eq_prop : (a b : Bool) → IsProp (a ≡ b)
  Bool-eq_prop a b = hlevel

  -- From here on no operation of bbolt fails.
  abbrev Up : World env → Type 0
  Up w = (n : ℕ) → w.steps ≤ n → env.store_fails n ≡ false

  delete_execution-get :
      (id k : Text) (w : World env)
      → env.store_fails w.steps ≡ false
      → is_buffered (delete_execution env id w).1 k ≡ (if id == k then false else is_buffered w k)
  unfolding delete_execution update
  delete_execution-get id k w up =
      rw up (ground (arith, env.bolt.get-delete w.buckets.executions id k))

  delete_execution-Up : (id : Text) (w : World env) → Up w → Up (delete_execution env id w).1
  unfolding delete_execution update
  delete_execution-Up id w up n h = up n (ground (arith, h))

  deleted_stays :
      (ps : List PendingEvent) (k : Text) (w : World env)
      → Up w
      → is_buffered w k ≡ false
      → is_buffered (delete_executions env ps w).1 k ≡ false
  unfolding delete_executions
  deleted_stays [] k w up h = h
  deleted_stays (p ∷ ps) k w up h =
      deleted_stays ps k (delete_execution env p.id w).1 (delete_execution-Up p.id w up)
        (delete_execution-get p.id k w (up w.steps (omega arith)) ∙ ground arith)

  deleted_gone :
      (ps : List PendingEvent) (e : PendingEvent) (w : World env)
      → Up w
      → Mem e ps
      → is_buffered (delete_executions env ps w).1 e.id ≡ false
  unfolding delete_executions
  deleted_gone [] e w up m = absurd (not-mem-nil m)
  deleted_gone (p ∷ ps) e w up m =
      Or.elim (Bool-eq_prop _ _) (mem-cons.0 m)
        (λ same.
          deleted_stays ps e.id (delete_execution env p.id w).1 (delete_execution-Up p.id w up) (
            delete_execution-get p.id e.id w (up w.steps (omega arith))
            ∙ rw (← same) (rw (text_beq_refl e.id) refl)))
        (deleted_gone ps e (delete_execution env p.id w).1 (delete_execution-Up p.id w up))

  deleted-sent :
      (ps : List PendingEvent) (w : World env)
      → (delete_executions env ps w).1.sent_executions ≡ w.sent_executions
  unfolding delete_executions delete_execution update
  deleted-sent [] w = refl
  deleted-sent (p ∷ ps) w = deleted-sent ps (delete_execution env p.id w).1 ∙ ground arith

  -- An upload that succeeds.
  uploaded :
      (ps : List PendingEvent) (w : World env)
      → env.accepts w.steps ≡ true
      → (upload_executions env ps w).1
        ≡ (delete_executions env ps (record w {
          steps = suc w.steps;
          sent_executions = w.sent_executions ++ payloads ps;
        })).1
  unfolding upload_executions
  uploaded ps w ok = rw ok refl

  -- What a flush finds, and has uploaded and deleted.
  flushed :
      (w : World env)
      → env.store_fails w.steps ≡ false
      → env.accepts (suc w.steps) ≡ true
      → let found = values env.bolt w.buckets.executions in
        ((flush_executions env w).1.sent_executions ≡ w.sent_executions ++ payloads found)
        × ((k : Text)
            → is_buffered (flush_executions env w).1 k
              ≡ is_buffered
                  (delete_executions env found (record w {
                    steps = suc (suc w.steps);
                    sent_executions = w.sent_executions ++ payloads found;
                  })).1
                  k)
  unfolding flush_executions pending_executions view delete_executions
  flushed w up ok = rw up (flushed_found (values env.bolt w.buckets.executions))
    where
      flushed_found :
          (found : List PendingEvent)
          → ((upload_found_executions env
                (some found)
                (record w { steps = suc w.steps })).1.sent_executions
              ≡ w.sent_executions ++ payloads found)
            × ((k : Text)
                → is_buffered
                    (upload_found_executions env (some found) (record w { steps = suc w.steps })).1
                    k
                  ≡ is_buffered
                      (delete_executions env found (record w {
                        steps = suc (suc w.steps);
                        sent_executions = w.sent_executions ++ payloads found;
                      })).1
                      k)
      flushed_found [] = (sym (append-nil w.sent_executions), λ k. refl)
      flushed_found (p ∷ ps) =
          let up = uploaded (p ∷ ps) (record w { steps = suc w.steps }) ok in
          (
            ap (λ (v : World env). v.sent_executions) up ∙ deleted-sent (p ∷ ps) _,
            λ k. ap (λ (v : World env). is_buffered v k) up,
          )

  emptied :
      (w : World env)
      → Keyed env w
      → Up w
      → env.accepts (suc w.steps) ≡ true
      → (k : Text) → is_buffered (flush_executions env w).1 k ≡ false
  emptied w keyed up ok k =
      (flushed w (up w.steps (omega arith)) ok).1 k
      ∙ emptied_at (env.bolt.get w.buckets.executions k) refl
    where
      emptied_at :
          (o : Option PendingEvent)
          → env.bolt.get w.buckets.executions k ≡ o
          → is_buffered
              (delete_executions env (values env.bolt w.buckets.executions) (record w {
                steps = suc (suc w.steps);
                sent_executions =
                    w.sent_executions ++ payloads (values env.bolt w.buckets.executions);
              })).1
              k
            ≡ false
      emptied_at none p = deleted_stays _ k _ (λ n h. up n (omega arith)) (rw p refl)
      emptied_at (some e) p = rw (← keyed k e p) (
          deleted_gone (values env.bolt w.buckets.executions) e _ (λ n h. up n (omega arith))
            (mem-map_of_mem (λ (q : Text × PendingEvent). q.1)
              (env.bolt.entry_of_get w.buckets.executions k e p)))

-- After any operations on the state file, whichever of them and of the uploads fail, a flush in which
-- no operation of bbolt fails and whose upload the server accepts uploads every execution that is
-- buffered and leaves none, if those that were buffered at first stand under their ids.
pub flush_empties :
    (env : AgentEnv) (ops : List StoreOp) (w : World env)
    → Keyed env w
    → let now = run env ops w in
      ((n : ℕ) → now.steps ≤ n → env.store_fails n ≡ false)
      → env.accepts (suc now.steps) ≡ true
      → let after = (flush_executions env now).1 in
        (after.sent_executions
          ≡ now.sent_executions ++ payloads (values env.bolt now.buckets.executions))
        × ((k : Text) → is_buffered env after k ≡ false)
flush_empties env ops w keyed up ok =
    let now = run env ops w in
    (
      (flushed env now (up now.steps (omega arith)) ok).0,
      emptied env now (run-Keyed env ops w keyed) up ok,
    )
