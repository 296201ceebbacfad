-- ===== src/Agent/Reporter/Keyed.antt =====
-- A buffered execution stands under its id: apps/agent/internal/reporter/reporter.go over
-- apps/agent/internal/state/store.go.
use dysonsphere.Common.{
  ℕ, suc, ◌≡◌, refl, Option, none, some, List, [], ◌∷◌, Text, text_eq, text_beq_iff, arith,
}
use dysonsphere.Server.Domain.{Json}
use dysonsphere.Agent.World.{
  AgentEnv, PendingEvent, Buckets, World, ◌>>=◌, update, view, request, clock,
}
use dysonsphere.Agent.World.Keeps.{Keeps, Keeps-pure, Keeps-if, Keeps-update, Keeps-bind}
use dysonsphere.Agent.Store.{
  save_execution, save_metric, pending_executions, pending_metrics, delete_execution, delete_metric,
  set_meta, save_job, save_local_execution,
}
use dysonsphere.Agent.Reporter.{
  payloads, deliver_executions, deliver_metrics, delete_executions, delete_metrics,
  upload_executions, upload_found_executions, upload_found_metrics, flush_executions,
  upload_metrics, flush_metrics, buffer_execution, buffer_metric,
}
use dysonsphere.Agent.Reporter.Delivery.{
  StoreOp, buffer, flush, measure, flush_measures, note, learn, record_run, perform, run, event,
  put_event, put_metric, put_job, put_run,
}

module _ (env : AgentEnv) where
  -- An execution that is buffered stands under its id.
  abbrev pub Keyed : World env → Type 0
  Keyed w = (k : Text) (e : PendingEvent) → env.bolt.get w.buckets.executions k ≡ some e → e.id ≡ k

  update-Keyed :
      (f : Buckets env.bolt → Buckets env.bolt)
      → ((b : Buckets env.bolt) → (f b).executions ≡ b.executions)
      → Keeps Keyed (update env f)
  update-Keyed f same =
      Keeps-update env Keyed f (λ w h. h) λ w h k e g. h k e (rw (same w.buckets) at g)

  clocked-Keyed :
      (f : ℕ → Buckets env.bolt → Buckets env.bolt)
      → ((n : ℕ) (b : Buckets env.bolt) → (f n b).executions ≡ b.executions)
      → Keeps Keyed (clock env >>= λ now. update env (f now))
  clocked-Keyed f same =
      Keeps-bind (clock env) _ (record { after = λ w h. h }) λ now. update-Keyed (f now) (same now)

  save-Keyed : (id : Text) (payload : Json) → Keeps Keyed (save_execution env id payload)
  unfolding save_execution
  save-Keyed id payload =
      Keeps-bind (clock env) _ (record { after = λ w h. h })
        λ now.
          Keeps-update env Keyed (put_event env.bolt id payload now) (λ w h. h)
            λ w h k e g. ground (
              arith,
              env.bolt.get-put w.buckets.executions id (event id payload now) k,
              text_beq_iff id k,
              h k e,
              g,
            )

  delete-Keyed : (id : Text) → Keeps Keyed (delete_execution env id)
  unfolding delete_execution
  delete-Keyed id =
      Keeps-update env Keyed (λ b. record b { executions = env.bolt.delete b.executions id })
        (λ w h. h)
        λ w h k e g. ground (arith, env.bolt.get-delete w.buckets.executions id k, h k e, g)

  deletes-Keyed : (ps : List PendingEvent) → Keeps Keyed (delete_executions env ps)
  unfolding delete_executions
  deletes-Keyed [] = Keeps-pure tt
  deletes-Keyed (p ∷ ps) =
      Keeps-bind (delete_execution env p.id) _ (delete-Keyed p.id) λ b. deletes-Keyed ps

  upload-Keyed : (ps : List PendingEvent) → Keeps Keyed (upload_executions env ps)
  unfolding upload_executions
  upload-Keyed ps =
      Keeps-bind (request env) _ (record { after = λ w h. h })
        λ ok.
          Keeps-if ok _ _
            (Keeps-bind (deliver_executions env (payloads ps)) _ (record { after = λ w h. h })
              λ u. deletes-Keyed ps)
            (Keeps-pure tt)

  found-Keyed : (o : Option (List PendingEvent)) → Keeps Keyed (upload_found_executions env o)
  found-Keyed none = Keeps-pure tt
  found-Keyed (some []) = Keeps-pure tt
  found-Keyed (some (p ∷ ps)) = upload-Keyed (p ∷ ps)

  metrics-Keyed : (ps : List PendingEvent) → Keeps Keyed (delete_metrics env ps)
  unfolding delete_metrics delete_metric
  metrics-Keyed [] = Keeps-pure tt
  metrics-Keyed (p ∷ ps) =
      Keeps-bind (delete_metric env p.id) _ (update-Keyed _ (λ b. refl)) λ b. metrics-Keyed ps

  found_metrics-Keyed : (o : Option (List PendingEvent)) → Keeps Keyed (upload_found_metrics env o)
  unfolding upload_metrics
  found_metrics-Keyed none = Keeps-pure tt
  found_metrics-Keyed (some []) = Keeps-pure tt
  found_metrics-Keyed (some (p ∷ ps)) =
      Keeps-bind (request env) _ (record { after = λ w h. h })
        λ ok.
          Keeps-if ok _ _
            (Keeps-bind (deliver_metrics env (payloads (p ∷ ps))) _ (record { after = λ w h. h })
              λ u. metrics-Keyed (p ∷ ps))
            (Keeps-pure tt)

  perform-Keyed : (op : StoreOp) → Keeps Keyed (perform env op)
  unfolding buffer_execution flush_executions pending_executions view flush_metrics pending_metrics
      buffer_metric save_metric set_meta save_job save_local_execution
  perform-Keyed (buffer id event) =
      Keeps-bind (save_execution env id event) _ (save-Keyed id event) λ r. Keeps-pure tt
  perform-Keyed flush = record {
    after = λ w h. (found-Keyed _).after (record w { steps = suc w.steps }) h;
  }
  perform-Keyed (measure id metric) =
      Keeps-bind (save_metric env id metric) _
        (clocked-Keyed (put_metric env.bolt id metric) (λ n b. refl)) λ r. Keeps-pure tt
  perform-Keyed flush_measures = record {
    after = λ w h. (found_metrics-Keyed _).after (record w { steps = suc w.steps }) h;
  }
  perform-Keyed (note key value) =
      Keeps-bind (set_meta env key value) _ (update-Keyed _ (λ b. refl)) λ r. Keeps-pure tt
  perform-Keyed (learn job) =
      Keeps-bind (save_job env job) _ (clocked-Keyed (put_job env.bolt job) (λ n b. refl))
        λ r. Keeps-pure tt
  perform-Keyed (record_run exec) =
      Keeps-bind (save_local_execution env exec) _
        (clocked-Keyed (put_run env.bolt exec) (λ n b. refl)) λ r. Keeps-pure tt

  pub run-Keyed : (ops : List StoreOp) (w : World env) → Keyed w → Keyed (run env ops w)
  unfolding run
  run-Keyed [] w h = h
  run-Keyed (op ∷ ops) w h = run-Keyed ops (perform env op w).1 ((perform-Keyed op).after w h)
