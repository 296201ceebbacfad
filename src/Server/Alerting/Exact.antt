-- ===== src/Server/Alerting/Exact.antt =====
-- An alert is active as long as its rule is broken: apps/server/internal/alerting/evaluator.go.
use dysonsphere.Common.{
  ℕ, suc, ◌≡◌, refl, Bool, true, false, some, List, [], ◌∷◌, ◌++◌, Text, text_eq, text_beq_refl,
  arith, Option-cases, inl, inr,
}
use dysonsphere.Common.Tables.{find, update_where, exists_row}
use dysonsphere.Common.Tables.Laws.{exists_row-append, find-exists}
use dysonsphere.Server.Domain.{Alert, TargetType, RuleName}
use dysonsphere.Server.Store.{Env, Db}
use dysonsphere.Server.Store.Query.{statement, parse_uuid}
use dysonsphere.Server.Repository.AlertRepo
use dysonsphere.Server.Repository.AlertRepo.{
  is_active_for, new_alert, close, same_target, same_rule,
}
use dysonsphere.Server.Alerting.{alert_for, fire_or_update, judge}

closed :
    (now : ℕ) (target : TargetType) (id : Text) (rule : RuleName) (alerts : List Alert)
    → exists_row
        (is_active_for target id rule)
        (update_where (is_active_for target id rule) (close now) alerts)
      ≡ false
unfolding exists_row update_where
closed now target id rule [] = refl
closed now target id rule (a ∷ alerts) = ground (arith, closed now target id rule alerts)

same_target_refl : (t : TargetType) → same_target t t ≡ true
same_target_refl t = ground arith

same_rule_refl : (r : RuleName) → same_rule r r ≡ true
same_rule_refl r = ground arith

added :
    (now : ℕ) (fresh : Text) (target : TargetType) (uuid id : Text) (rule : RuleName)
    (alerts : List Alert)
    → exists_row
        (is_active_for target uuid rule)
        (alerts ++ new_alert now fresh uuid (alert_for target id rule) ∷ [])
      ≡ true
unfolding exists_row
added now fresh target uuid id rule alerts =
    rw
      (exists_row-append (is_active_for target uuid rule) alerts
        (new_alert now fresh uuid (alert_for target id rule) ∷ []))
      (ground (arith, same_target_refl target, same_rule_refl rule, text_beq_refl uuid))

-- Where no statement fails and the target has a UUID, the rule's alert for the target is active
-- after a judgement just when the rule is broken.
pub judge_exact :
    (env : Env) (target : TargetType) (id uuid : Text) (rule : RuleName) (broken : Bool) (db : Db)
    → ((n : ℕ) → env.fails n ≡ false)
    → env.uuid_parse id ≡ some uuid
    → exists_row (is_active_for target uuid rule) (judge env target id rule broken db).1.alerts
      ≡ broken
unfolding judge fire_or_update AlertRepo.get_active_by_target AlertRepo.insert AlertRepo.resolve
    statement parse_uuid
judge_exact env target id uuid rule false db up good =
    rw (good, up db.steps) (closed (env.now db.steps) target uuid rule db.alerts)
judge_exact env target id uuid rule true db up good =
    elim (Option-cases (find (is_active_for target uuid rule) db.alerts)) [
      | inl free ↦
          rw (good, up db.steps, free, good, up (suc db.steps))
            (added (env.now (suc db.steps)) (env.fresh (suc db.steps)) target uuid id rule
              db.alerts)
      | inr (r, there) ↦
          rw (good, up db.steps, there)
            (ground (arith, find-exists (is_active_for target uuid rule) db.alerts))
    ]
