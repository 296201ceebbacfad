-- ===== src/Agent/Reporter/Delivery.antt =====
-- Buffered events are delivered at least once: apps/agent/internal/reporter/reporter.go over
-- apps/agent/internal/state/store.go.
use dysonsphere.Common.{
  ℕ, suc, ◌≡◌, refl, true, false, Option, none, some, List, [], ◌∷◌, Text, text_eq, text_beq,
  text_beq_refl, arith, Bool-cases, ◌⊎◌, inl, inr, All,
}
use mathlib.Core.List.{Mem, mem-append_left, mem-append_right, mem-map_of_mem}
use dysonsphere.Server.Domain.{Json}
use dysonsphere.Agent.Bolt.{Bolt}
use dysonsphere.Agent.World.{
  AgentEnv, PendingEvent, StoredJob, LocalExecution, Buckets, World, Action, pure, ◌>>=◌, ◌>>◌,
  update, view, request, clock,
}
use dysonsphere.Agent.World.Keeps.{Keeps, Keeps-pure, Keeps-if, Keeps-update, Keeps-bind}
use dysonsphere.Agent.Store.{
  values, save_execution, save_metric, pending_executions, pending_metrics, delete_execution,
  delete_metric, set_meta, save_job, save_local_execution,
}
use dysonsphere.Agent.Reporter.{
  payloads, deliver_executions, deliver_metrics, delete_executions, delete_metrics,
  upload_executions, upload_found_executions, upload_found_metrics, flush_executions,
  upload_metrics, flush_metrics, buffer_execution, buffer_metric,
}

-- What the agent does with its state file, between buffering an event and a later time.
pub data StoreOp : Type 0 where
  buffer : Text → Json → StoreOp
  flush : StoreOp
  measure : Text → Json → StoreOp
  flush_measures : StoreOp
  note : Text → Text → StoreOp
  learn : StoredJob → StoreOp
  record_run : LocalExecution → StoreOp

module _ (env : AgentEnv) where
  abbrev pub perform : StoreOp → Action env (Unit {0})
  perform (buffer id event) = buffer_execution env id event
  perform flush = flush_executions env
  perform (measure id metric) = buffer_metric env id metric
  perform flush_measures = flush_metrics env
  perform (note key value) = set_meta env key value >> pure tt
  perform (learn job) = save_job env job >> pure tt
  perform (record_run exec) = save_local_execution env exec >> pure tt

  unfoldable pub run : List StoreOp → World env → World env
  run [] w = w
  run (op ∷ ops) w = run ops (perform op w).1

abbrev pub event : Text → Json → ℕ → PendingEvent
event id payload now = record { id = id; created_at = now; payload = payload }

-- What the operations put in the buckets.
module _ (bolt : Bolt) where
  abbrev pub put_event : Text → Json → ℕ → Buckets bolt → Buckets bolt
  put_event id payload now b = record b {
    executions = bolt.put b.executions id (event id payload now);
  }

  abbrev pub put_metric : Text → Json → ℕ → Buckets bolt → Buckets bolt
  put_metric id payload now b = record b { metrics = bolt.put b.metrics id (event id payload now) }

  abbrev pub put_job : StoredJob → ℕ → Buckets bolt → Buckets bolt
  put_job job now b = record b {
    jobs = bolt.put b.jobs job.command_hash (record job { updated_at = now });
  }

  abbrev pub put_run : LocalExecution → ℕ → Buckets bolt → Buckets bolt
  put_run exec now b = record b {
    local_runs = bolt.put b.local_runs exec.id (record exec { last_updated_at = now });
  }

-- Another event is never buffered under the id.
abbrev pub Spares : Text → StoreOp → Type 0
Spares k (buffer id event) = text_beq id k ≡ false
Spares k _ = Unit

module _ (env : AgentEnv) (k : Text) (p : Json) where
  abbrev Waiting : World env → Type 0
  Waiting w =
      (e : PendingEvent) × ((env.bolt.get w.buckets.executions k ≡ some e) × (e.payload ≡ p))

  -- The event is in the state file, or the server has accepted it.
  abbrev pub Safe : World env → Type 0
  Safe w = Waiting w ⊎ Mem p w.sent_executions

  saved-Waiting :
      (w : World env) → (save_execution env k p w).0 ≡ true → Waiting (save_execution env k p w).1
  unfolding save_execution update
  saved-Waiting w saved = elim (Bool-cases (env.store_fails (suc w.steps))) [
    | inl down ↦ ground (arith, down)
    | inr up ↦ rw up (
      record { id = k; created_at = env.now w.steps; payload = p },
      ((rw (env.bolt.get-put w.buckets.executions k _ k, text_beq_refl k) refl), refl),
    )
  ]

  put-Waiting :
      (w : World env) (id : Text) (e : PendingEvent)
      → text_beq id k ≡ false
      → Waiting w
      → Waiting (record w {
        buckets = record w.buckets { executions = env.bolt.put w.buckets.executions id e };
      })
  put-Waiting w id e other h =
      (h.0, (rw (env.bolt.get-put w.buckets.executions id e k, other) h.1.0, h.1.1))

  -- What is found in the bucket is among the values of its entries.
  Waiting-payloads :
      (w : World env) → Waiting w → Mem p (payloads (values env.bolt w.buckets.executions))
  Waiting-payloads w h = rw (← h.1.1) (
      mem-map_of_mem (λ (q : PendingEvent). q.payload)
        (mem-map_of_mem (λ (q : Text × PendingEvent). q.1)
          (env.bolt.entry_of_get w.buckets.executions k h.0 h.1.0)))

  abbrev Delivered : World env → Type 0
  Delivered w = Mem p w.sent_executions

  delete_execution-Keeps : (id : Text) → Keeps Delivered (delete_execution env id)
  unfolding delete_execution
  delete_execution-Keeps id = Keeps-update env Delivered _ (λ w h. h) (λ w h. h)

  delete_executions-Keeps : (ps : List PendingEvent) → Keeps Delivered (delete_executions env ps)
  unfolding delete_executions
  delete_executions-Keeps [] = Keeps-pure tt
  delete_executions-Keeps (q ∷ ps) =
      Keeps-bind (delete_execution env q.id) _ (delete_execution-Keeps q.id)
        λ b. delete_executions-Keeps ps

  upload-Delivered : (ps : List PendingEvent) → Keeps Delivered (upload_executions env ps)
  unfolding upload_executions
  upload-Delivered ps =
      Keeps-bind (request env) _ (record { after = λ w h. h })
        λ ok.
          Keeps-if ok _ _
            (Keeps-bind (deliver_executions env (payloads ps)) _
              (record { after = λ w h. mem-append_left (payloads ps) h })
              λ u. delete_executions-Keeps ps)
            (Keeps-pure tt)

  -- An upload of the event that fails leaves it waiting.
  upload-Safe :
      (w : World env) (ps : List PendingEvent)
      → Waiting w
      → Mem p (payloads ps)
      → Safe (upload_executions env ps w).1
  unfolding upload_executions
  upload-Safe w ps h m = elim (Bool-cases (env.accepts w.steps)) [
    | inr refused ↦ rw refused (inl h)
    | inl ok ↦
        rw ok (inr ((delete_executions-Keeps ps).after _ (mem-append_right w.sent_executions m)))
  ]

  found-Delivered :
      (o : Option (List PendingEvent)) → Keeps Delivered (upload_found_executions env o)
  found-Delivered none = Keeps-pure tt
  found-Delivered (some []) = Keeps-pure tt
  found-Delivered (some (q ∷ ps)) = upload-Delivered (q ∷ ps)

  found-Safe :
      (w : World env) (o : Option (List PendingEvent))
      → Waiting w
      → ((ps : List PendingEvent) → o ≡ some ps → Mem p (payloads ps))
      → Safe (upload_found_executions env o w).1
  found-Safe w none h m = inl h
  found-Safe w (some []) h m = inl h
  found-Safe w (some (q ∷ ps)) h m = upload-Safe w (q ∷ ps) h (m (q ∷ ps) refl)

  flush-Safe : Keeps Safe (flush_executions env)
  unfolding flush_executions pending_executions view
  flush-Safe = record {
    after = λ w s. elim s [
      | inr h ↦ inr ((found-Delivered _).after (record w { steps = suc w.steps }) h)
      | inl h ↦
          found-Safe (record w { steps = suc w.steps }) _ h
            λ ps e. elim (Bool-cases (env.store_fails w.steps)) [
              | inl down ↦ ground arith
              | inr up ↦
                  let same : values env.bolt w.buckets.executions ≡ ps = ground arith in
                  rw (← same) (Waiting-payloads w h)
            ]
    ];
  }

  -- A change of the state file that leaves the executions alone.
  update-Safe :
      (f : Buckets env.bolt → Buckets env.bolt)
      → ((b : Buckets env.bolt) → (f b).executions ≡ b.executions)
      → Keeps Safe (update env f)
  update-Safe f same =
      Keeps-update env Safe f (λ w s. s)
        λ w s. elim s [ inl h ↦ inl (h.0, (rw (same w.buckets) h.1.0, h.1.1)) | inr h ↦ inr h ]

  delete_metrics-Safe : (ps : List PendingEvent) → Keeps Safe (delete_metrics env ps)
  unfolding delete_metrics delete_metric
  delete_metrics-Safe [] = Keeps-pure tt
  delete_metrics-Safe (q ∷ ps) =
      Keeps-bind (delete_metric env q.id) _ (update-Safe _ (λ b. refl)) λ b. delete_metrics-Safe ps

  found_metrics-Safe : (o : Option (List PendingEvent)) → Keeps Safe (upload_found_metrics env o)
  unfolding upload_metrics
  found_metrics-Safe none = Keeps-pure tt
  found_metrics-Safe (some []) = Keeps-pure tt
  found_metrics-Safe (some (q ∷ ps)) =
      Keeps-bind (request env) _ (record { after = λ w s. s })
        λ ok.
          Keeps-if ok _ _
            (Keeps-bind (deliver_metrics env (payloads (q ∷ ps))) _ (record { after = λ w s. s })
              λ u. delete_metrics-Safe (q ∷ ps))
            (Keeps-pure tt)

  flush_metrics-Safe : Keeps Safe (flush_metrics env)
  unfolding flush_metrics pending_metrics view
  flush_metrics-Safe = record {
    after = λ w s. (found_metrics-Safe _).after (record w { steps = suc w.steps }) s;
  }

  buffer-Safe :
      (id : Text) (payload : Json)
      → text_beq id k ≡ false
      → Keeps Safe (buffer_execution env id payload)
  unfolding buffer_execution save_execution
  buffer-Safe id payload other =
      Keeps-bind (save_execution env id payload) _
        (Keeps-bind (clock env) _ (record { after = λ w s. s })
          λ now.
            Keeps-update env Safe (put_event env.bolt id payload now) (λ w s. s)
              λ w s. elim s [
                | inl h ↦ inl (put-Waiting w id (event id payload now) other h)
                | inr h ↦ inr h
              ])
        λ r. Keeps-pure tt

  clocked-Safe :
      (f : ℕ → Buckets env.bolt → Buckets env.bolt)
      → ((n : ℕ) (b : Buckets env.bolt) → (f n b).executions ≡ b.executions)
      → Keeps Safe (clock env >>= λ now. update env (f now))
  clocked-Safe f same =
      Keeps-bind (clock env) _ (record { after = λ w s. s }) λ now. update-Safe (f now) (same now)

  perform-Safe : (op : StoreOp) → Spares k op → Keeps Safe (perform env op)
  unfolding buffer_metric save_metric set_meta save_job save_local_execution
  perform-Safe (buffer id event) s = buffer-Safe id event s
  perform-Safe flush s = flush-Safe
  perform-Safe (measure id metric) s =
      Keeps-bind (save_metric env id metric) _
        (clocked-Safe (put_metric env.bolt id metric) (λ n b. refl)) λ r. Keeps-pure tt
  perform-Safe flush_measures s = flush_metrics-Safe
  perform-Safe (note key value) s =
      Keeps-bind (set_meta env key value) _ (update-Safe _ (λ b. refl)) λ r. Keeps-pure tt
  perform-Safe (learn job) s =
      Keeps-bind (save_job env job) _ (clocked-Safe (put_job env.bolt job) (λ n b. refl))
        λ r. Keeps-pure tt
  perform-Safe (record_run exec) s =
      Keeps-bind (save_local_execution env exec) _
        (clocked-Safe (put_run env.bolt exec) (λ n b. refl)) λ r. Keeps-pure tt

  run-Safe :
      (ops : List StoreOp) (w : World env) → All (Spares k) ops → Safe w → Safe (run env ops w)
  unfolding run
  run-Safe [] w s h = h
  run-Safe (op ∷ ops) w s h =
      run-Safe ops (perform env op w).1 s.1 ((perform-Safe op s.0).after w h)

-- An execution that was saved is, after any operations on the state file of which none buffers
-- another one under its id, and whichever of them and of the uploads fail, still buffered with its
-- payload, or its payload was in an upload that the server accepted.
pub delivered_at_least_once :
    (env : AgentEnv) (k : Text) (p : Json) (w : World env) (ops : List StoreOp)
    → (save_execution env k p w).0 ≡ true
    → All (Spares k) ops
    → Safe env k p (run env ops (save_execution env k p w).1)
delivered_at_least_once env k p w ops saved s =
    run-Safe env k p ops (save_execution env k p w).1 s (inl (saved-Waiting env k p w saved))
