-- ===== src/Server/Repository/AlertRepo.antt =====
-- apps/server/internal/repository/alert.go
use dysonsphere.Common.{
  ℕ, Bool, true, false, ◌&&◌, Option, none, some, List, [], ◌∷◌, ◌++◌, Text, text_eq, nat_eq, ◌==◌,
  ltb, take, drop, count_if, if◌then◌else◌,
}
use dysonsphere.Common.Tables.{find, select, update_where, order_by}
use dysonsphere.Server.Domain.{
  Alert, AlertStatus, active, resolved, TargetType, host_target, job_target, metric_target,
  RuleName, stale_heartbeat, repeated_failures,
}
use dysonsphere.Server.Store.{Env, ok, Action, ◌>>=◌}
use dysonsphere.Server.Store.Query.{statement, parse_uuid}

abbrev pub same_target : TargetType → TargetType → Bool
same_target host_target host_target = true
same_target job_target job_target = true
same_target metric_target metric_target = true
same_target _ _ = false

abbrev pub same_rule : RuleName → RuleName → Bool
same_rule stale_heartbeat stale_heartbeat = true
same_rule repeated_failures repeated_failures = true
same_rule _ _ = false

abbrev pub is_active : AlertStatus → Bool
is_active active = true
is_active resolved = false

abbrev pub new_alert : ℕ → Text → Text → Alert → Alert
new_alert now id target a = record a {
  id = id;
  target_id = target;
  status = active;
  triggered_at = now;
  resolved_at = none;
}

unfoldable pub insert : Env → Alert → Action Alert
insert env a = do
  target ← parse_uuid env a.target_id
  statement env λ now id db. (
    ok (new_alert now id target a),
    record db { alerts = db.alerts ++ new_alert now id target a ∷ [] },
  )

-- target_type = $1 AND target_id = $2 AND rule_name = $3 AND status = 'active'
abbrev pub is_active_for : TargetType → Text → RuleName → Alert → Bool
is_active_for target id rule r =
    same_target r.target_type target
    && (r.target_id == id && (same_rule r.rule_name rule && is_active r.status))

unfoldable pub get_active_by_target : Env → TargetType → Text → RuleName → Action (Option Alert)
get_active_by_target env target target_id rule = do
  id ← parse_uuid env target_id
  statement env λ now fresh db. (ok (find (is_active_for target id rule) db.alerts), db)

abbrev pub close : ℕ → Alert → Alert
close now r = record r { status = resolved; resolved_at = some now }

unfoldable pub resolve : Env → TargetType → Text → RuleName → Action (Unit {0})
resolve env target target_id rule = do
  id ← parse_uuid env target_id
  statement env λ now fresh db. (
    ok tt,
    record db { alerts = update_where (is_active_for target id rule) (close now) db.alerts },
  )

abbrev triggered_later : Alert → Alert → Bool
triggered_later a b = ltb b.triggered_at a.triggered_at

unfoldable pub list_active : Env → Action (List Alert)
list_active env =
    statement env λ now fresh db.
      (ok (order_by triggered_later (select (λ r. is_active r.status) db.alerts)), db)

-- ORDER BY triggered_at DESC LIMIT … OFFSET …, with 50 for a limit that is not positive
unfoldable pub list_alerts : Env → ℕ → ℕ → Action (List Alert)
list_alerts env limit offset = statement env λ now fresh db. (
  ok (take (if limit == 0 then 50 else limit) (drop offset (order_by triggered_later db.alerts))),
  db,
)

unfoldable pub count_active : Env → Action ℕ
count_active env =
    statement env λ now fresh db. (ok (count_if (λ r. is_active r.status) db.alerts), db)
