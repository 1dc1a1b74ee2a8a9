-- ===== src/Repo/Plans.antt =====
-- crates/db/src/repo/plan.rs: the reads and updates of `plans` that the other parts use.
pub mod Writes
use sdi_plugin.Prelude.{
  ℕ, Bool, not, ◌&&◌, Option, none, some, [], ◌∷◌, ◌==◌, or_else, any, find, update, count,
}
use sdi_plugin.Domain.Error.{not_found, Result, ok, err, ◌>>=◌, ◌>>◌, refuse_if}
use sdi_plugin.Domain.Ids.{EntityId, Timestamp}
use sdi_plugin.Domain.Plan.{Plan, PlanStatus, plan_status_eq}
use sdi_plugin.Domain.Scenario.{ScenarioStatus, scenario_status_eq}
use sdi_plugin.Repo.Db.{Db, not_like_chore, unique_violation}

unfoldable pub get : Db → EntityId → Result Plan
get db id = elim (find (λ p. p.id == id) db.plans) [ none ↦ err (not_found id) | some p ↦ ok p ]

abbrev pub has_plan : Db → EntityId → Bool
has_plan db id = any (λ p. p.id == id) db.plans

-- `count_confirmed_scenarios`: retired scenarios are counted too.
unfoldable pub count_confirmed_scenarios : Db → EntityId → ℕ
count_confirmed_scenarios db plan_id =
    count (λ s. s.plan_id == plan_id && scenario_status_eq s.status ScenarioStatus.confirmed)
      db.scenarios

abbrev pub is_other_active : Plan → Plan → Bool
is_other_active p q =
    not (q.id == p.id)
    && q.project_id == p.project_id
    && plan_status_eq q.status PlanStatus.active
    && not_like_chore q.short_code

-- The predicate of `uniq_one_active_plan_per_project` after the update of `p`.
abbrev pub breaks_one_active : Db → Plan → PlanStatus → Bool
breaks_one_active db p status =
    plan_status_eq status PlanStatus.active
    && not_like_chore p.short_code
    && any (is_other_active p) db.plans

abbrev pub with_status : PlanStatus → Option Timestamp → Option Timestamp → Timestamp → Plan → Plan
with_status status approved_at completed_at now p = record p {
  status = status;
  approved_at = or_else approved_at p.approved_at;
  completed_at = or_else completed_at p.completed_at;
  updated_at = now;
}

unfoldable pub set_status :
    EntityId → PlanStatus → Option Timestamp → Option Timestamp → Timestamp → Db → Result Db
unfolding get
set_status id status approved_at completed_at now db = do
  p ← get db id
  refuse_if (breaks_one_active db p status) (unique_violation "plans" ("project_id" ∷ []))
  ok (record db {
    plans = update (λ q. q.id == id) (with_status status approved_at completed_at now) db.plans;
  })
