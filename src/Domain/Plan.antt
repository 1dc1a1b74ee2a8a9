-- ===== src/Domain/Plan.antt =====
-- crates/core/src/plan.rs: plans and the checks of draft → active → completed.
use sdi_plugin.Prelude.{ℕ, String, Bool, true, false, not, Option, ◌==◌, if◌then◌else◌}
use sdi_plugin.Prelude.Text.{◌⧺◌}
use sdi_plugin.Domain.Error.{
  invalid_transition, validation, scenarios_required, Result, ok, err, ◌>>◌, refuse_if,
}
use sdi_plugin.Domain.Ids.{EntityId, Timestamp}

-- `PlanStatus`.
pub data PlanStatus : Type 0 where
  draft active completed : PlanStatus

unfoldable pub show_plan_status : PlanStatus → String
show_plan_status PlanStatus.draft = "draft"
show_plan_status PlanStatus.active = "active"
show_plan_status PlanStatus.completed = "completed"

unfoldable pub parse_plan_status : String → Result PlanStatus
parse_plan_status s =
    if s == "draft"
    then ok PlanStatus.draft
    else if s == "active"
    then ok PlanStatus.active
    else if s == "completed"
    then ok PlanStatus.completed
    else err (validation ("unknown plan status: " ⧺ s))

abbrev pub plan_status_eq : PlanStatus → PlanStatus → Bool
plan_status_eq PlanStatus.draft PlanStatus.draft = true
plan_status_eq PlanStatus.active PlanStatus.active = true
plan_status_eq PlanStatus.completed PlanStatus.completed = true
plan_status_eq _ _ = false

pub record Plan : Type 0 where
  pub id : EntityId
  pub project_id : EntityId
  pub short_code : String
  pub title : String
  pub body : String
  pub status : PlanStatus
  pub version : ℕ
  pub produced_via_pattern_id : Option String
  pub created_at : Timestamp
  pub updated_at : Timestamp
  pub approved_at : Option Timestamp
  pub completed_at : Option Timestamp

-- D8: the caller says whether the plan has a confirmed scenario.
unfoldable pub check_can_approve : Plan → Bool → Result (Unit {0})
unfolding show_plan_status
check_can_approve p has_confirmed_scenarios = do
  refuse_if (not (plan_status_eq p.status PlanStatus.draft))
      (invalid_transition "plan" (show_plan_status p.status) "active")
  refuse_if (not has_confirmed_scenarios) scenarios_required

unfoldable pub check_can_complete : Plan → Result (Unit {0})
unfolding show_plan_status
check_can_complete p =
    refuse_if (not (plan_status_eq p.status PlanStatus.active))
      (invalid_transition "plan" (show_plan_status p.status) "completed")
