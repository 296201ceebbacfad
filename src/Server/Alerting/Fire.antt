-- ===== src/Server/Alerting/Fire.antt =====
-- At most one alert of a rule is active for a target: apps/server/internal/alerting/evaluator.go over
-- apps/server/internal/repository/alert.go.
use dysonsphere.Common.{
  ℕ, ◌≤◌, ◌≡◌, Bool, true, none, some, List, [], ◌∷◌, ◌++◌, Text, text_eq, arith, count_if,
  count_if-append, Bool-cases, Option-cases, inl, inr, leb, text_beq, text_beq_iff, ◌⊎◌, suc,
}
use dysonsphere.Common.Tables.{update_where, find}
use dysonsphere.Common.Tables.Laws.{count_if_unfound, count_if-update}
use dysonsphere.Server.Domain.{
  Alert, TargetType, RuleName, Host, Job, job_target, repeated_failures,
}
use dysonsphere.Server.Store.{Env, Db, Result, ok, err, Action, bad_uuid, ◌>>◌, attempt, pure}
use dysonsphere.Server.Store.Keeps.{
  Keeps, Keeps-pure, Keeps-lift, Keeps-attempt, Keeps-if, Keeps-statement, Keeps-bind,
}
use dysonsphere.Server.Store.Query.{statement, parse_uuid, read_clock}
use dysonsphere.Server.Repository.HostRepo
use dysonsphere.Server.Repository.JobRepo
use dysonsphere.Server.Repository.ExecutionRepo
use dysonsphere.Server.Repository.AlertRepo
use dysonsphere.Server.Repository.AlertRepo.{
  is_active_for, new_alert, close, same_target, same_rule,
}
use dysonsphere.Server.Alerting.{
  alert_for, fire_or_update, judge, check_hosts, check_stale_heartbeats, check_jobs,
  check_repeated_failures, run_all, is_stale, fail_threshold, threshold,
}

-- For every target and rule at most one alert is active.
pub record OneActive (alerts : List Alert) : Type 0 where
  pub at_most_one :
      (target : TargetType) (id : Text) (rule : RuleName)
      → count_if (is_active_for target id rule) alerts ≤ 1

-- Resolving adds no active alert.
update-OneActive :
    (now : ℕ) (target : TargetType) (id : Text) (rule : RuleName) (alerts : List Alert)
    → OneActive alerts
    → OneActive (update_where (is_active_for target id rule) (close now) alerts)
update-OneActive now target id rule alerts v = record {
  at_most_one = λ t i r. omega (
    arith,
    v.at_most_one t i r,
    count_if-update (is_active_for t i r) (is_active_for target id rule) (close now)
        (λ x chosen still. ground arith) alerts,
  );
}

same_target_eq : (s t : TargetType) → same_target s t ≡ true → s ≡ t
same_target_eq s t h = ground arith

same_rule_eq : (s t : RuleName) → same_rule s t ≡ true → s ≡ t
same_rule_eq s t h = ground arith

parts :
    (t : TargetType) (i : Text) (r : RuleName) (a : Alert)
    → is_active_for t i r a ≡ true
    → (same_target a.target_type t ≡ true)
      × (text_beq a.target_id i ≡ true)
      × (same_rule a.rule_name r ≡ true)
parts t i r a h = (ground arith, ground arith, ground arith)

-- A new alert of a target and rule without an active one is the only active one.
insert-OneActive :
    (now : ℕ) (fresh target : Text) (a : Alert) (alerts : List Alert)
    → count_if (is_active_for a.target_type target a.rule_name) alerts ≡ 0
    → OneActive alerts
    → OneActive (alerts ++ new_alert now fresh target a ∷ [])
insert-OneActive now fresh target a alerts h v = record {
  at_most_one = λ t i r.
      let fits = is_active_for t i r (new_alert now fresh target a) in
      elim (Bool-cases fits) [
        | inl same ↦
            let (p, q, s) = parts t i r (new_alert now fresh target a) same in
            let e : count_if (is_active_for t i r) alerts ≡ 0 =
              (rw (same_target_eq _ _ p, (text_beq_iff _ _).0 q, same_rule_eq _ _ s) at h) in
            rw (count_if-append (is_active_for t i r) alerts (new_alert now fresh target a ∷ []))
              (rw e (ground arith))
        | inr other ↦
            rw (count_if-append (is_active_for t i r) alerts (new_alert now fresh target a ∷ []))
              (ground (arith, v.at_most_one t i r))
      ];
}

module _ (env : Env) (a : Alert) (db : Db) where
  fire_bad_uuid : env.uuid_parse a.target_id ≡ none → (fire_or_update env a db).1.alerts ≡ db.alerts
  unfolding fire_or_update AlertRepo.get_active_by_target statement parse_uuid
  fire_bad_uuid h = ground arith

  -- Firing adds an alert only where none is active.
  fire_alerts :
      (target : Text)
      → env.uuid_parse a.target_id ≡ some target
      → ((fire_or_update env a db).1.alerts ≡ db.alerts)
        ⊎ ((find (is_active_for a.target_type target a.rule_name) db.alerts ≡ none)
            × ((fire_or_update env a db).1.alerts
                ≡ db.alerts
                  ++ new_alert (env.now (suc db.steps)) (env.fresh (suc db.steps)) target a ∷ []))
  unfolding fire_or_update AlertRepo.get_active_by_target AlertRepo.insert statement parse_uuid
  fire_alerts target h = ground arith

abbrev pub AlertsOk : Db → Type 0
AlertsOk db = OneActive db.alerts

fire_or_update-Keeps : (env : Env) (a : Alert) → Keeps AlertsOk (fire_or_update env a)
fire_or_update-Keeps env a = record {
  after = λ db h. elim (Option-cases (env.uuid_parse a.target_id)) [
    | inl bad ↦ rw (fire_bad_uuid env a db bad) h
    | inr (target, good) ↦ elim (fire_alerts env a db target good) [
      | inl same ↦ rw same h
      | inr (free, added) ↦ rw added (
          insert-OneActive (env.now (suc db.steps)) (env.fresh (suc db.steps)) target a db.alerts
            (count_if_unfound (is_active_for a.target_type target a.rule_name) db.alerts free) h)
    ]
  ];
}

resolve-Keeps :
    (env : Env) (target : TargetType) (id : Text) (rule : RuleName)
    → Keeps AlertsOk (AlertRepo.resolve env target id rule)
unfolding AlertRepo.resolve
resolve-Keeps env target id rule =
    Keeps-bind (parse_uuid env id) _ (unfold parse_uuid in Keeps-lift bad_uuid (env.uuid_parse id))
      λ uuid.
        Keeps-statement env _ (λ db h. h)
          λ now fresh. record { after = λ db h. update-OneActive now target uuid rule db.alerts h }

drop_result : {A : Type 0} (m : Action A) → Keeps AlertsOk m → Keeps AlertsOk (attempt m >> pure tt)
drop_result m k = Keeps-bind (attempt m) _ (Keeps-attempt m k) (λ r. Keeps-pure tt)

judge-Keeps :
    (env : Env) (target : TargetType) (id : Text) (rule : RuleName) (broken : Bool)
    → Keeps AlertsOk (judge env target id rule broken)
unfolding judge
judge-Keeps env target id rule broken =
    Keeps-if broken _ _ (fire_or_update-Keeps env (alert_for target id rule))
      (drop_result (AlertRepo.resolve env target id rule) (resolve-Keeps env target id rule))

-- The other statements of the evaluator leave the alerts alone.
read_clock-Keeps : (env : Env) → Keeps AlertsOk (read_clock env)
unfolding read_clock
read_clock-Keeps env = record { after = λ db h. h }

mark_stale_hosts-Keeps : (env : Env) (t : ℕ) → Keeps AlertsOk (HostRepo.mark_stale_hosts env t)
unfolding HostRepo.mark_stale_hosts
mark_stale_hosts-Keeps env t =
    Keeps-statement env _ (λ db h. h) λ now fresh. record { after = λ db h. h }

list_hosts-Keeps : (env : Env) → Keeps AlertsOk (HostRepo.list_hosts env)
unfolding HostRepo.list_hosts
list_hosts-Keeps env = Keeps-statement env _ (λ db h. h) λ now fresh. record { after = λ db h. h }

list_jobs-Keeps : (env : Env) → Keeps AlertsOk (JobRepo.list_jobs env)
unfolding JobRepo.list_jobs
list_jobs-Keeps env = Keeps-statement env _ (λ db h. h) λ now fresh. record { after = λ db h. h }

count-Keeps : (env : Env) (id : Text) → Keeps AlertsOk (ExecutionRepo.count_recent_failures env id)
unfolding ExecutionRepo.count_recent_failures
count-Keeps env id =
    Keeps-bind (parse_uuid env id) _ (unfold parse_uuid in Keeps-lift bad_uuid (env.uuid_parse id))
      λ job. Keeps-statement env _ (λ db h. h) λ now fresh. record { after = λ db h. h }

check_hosts-Keeps : (env : Env) (hosts : List Host) → Keeps AlertsOk (check_hosts env hosts)
unfolding check_hosts
check_hosts-Keeps env [] = Keeps-pure tt
check_hosts-Keeps env (h ∷ hs) = Keeps-bind (read_clock env) _ (read_clock-Keeps env) λ now.
    Keeps-bind (judge env _ h.id _ (is_stale now h)) _ (judge-Keeps env _ h.id _ (is_stale now h))
      (λ r. check_hosts-Keeps env hs)

judge_count-Keeps :
    (env : Env) (j : Job) (r : Result ℕ)
    → Keeps AlertsOk (elim r [
      | err e ↦ pure tt
      | ok n ↦ judge env job_target j.id repeated_failures (leb fail_threshold n)
    ])
judge_count-Keeps env j (err e) = Keeps-pure tt
judge_count-Keeps env j (ok n) = judge-Keeps env _ j.id _ (leb fail_threshold n)

check_jobs-Keeps : (env : Env) (jobs : List Job) → Keeps AlertsOk (check_jobs env jobs)
unfolding check_jobs
check_jobs-Keeps env [] = Keeps-pure tt
check_jobs-Keeps env (j ∷ js) =
    Keeps-bind (attempt (ExecutionRepo.count_recent_failures env j.id)) _
      (Keeps-attempt (ExecutionRepo.count_recent_failures env j.id) (count-Keeps env j.id))
      λ n. Keeps-bind _ _ (judge_count-Keeps env j n) (λ r. check_jobs-Keeps env js)

-- Whatever statements fail in a run of all rules, at most one alert of a rule is active for a target
-- after it, if that was so before it.
pub run_all-OneActive :
    (env : Env) (db : Db) → OneActive db.alerts → OneActive (run_all env db).1.alerts
unfolding run_all check_stale_heartbeats check_repeated_failures
run_all-OneActive env db h =
    let hosts =
      Keeps-bind (HostRepo.mark_stale_hosts env threshold) _ (mark_stale_hosts-Keeps env threshold)
        λ n.
          Keeps-bind (HostRepo.list_hosts env) _ (list_hosts-Keeps env) (check_hosts-Keeps env) in
    let jobs = Keeps-bind (JobRepo.list_jobs env) _ (list_jobs-Keeps env) (check_jobs-Keeps env) in
    (jobs.after _ (hosts.after db h))
