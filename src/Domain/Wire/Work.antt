-- ===== src/Domain/Wire/Work.antt =====
-- crates/core/src: the reading and printing of the enums of rounds, plans, scenarios, tasks and runs.
use sdi_plugin.Prelude.{String, ◌≡◌, refl, sym, ap, arith, eq_iff}
use sdi_plugin.Domain.Error.{ok}
use sdi_plugin.Domain.Wire.Law.{Wire}
use sdi_plugin.Prelude.{◌∙◌}
use sdi_plugin.Domain.Round.{
  RoundStatus, show_round_status, parse_round_status, InFlightPolicy, show_in_flight_policy,
  parse_in_flight_policy, DisruptionPolicy, show_disruption_policy, parse_disruption_policy,
}
use sdi_plugin.Domain.Plan.{PlanStatus, show_plan_status, parse_plan_status}
use sdi_plugin.Domain.Scenario.{
  ScenarioStatus, show_scenario_status, parse_scenario_status, ScenarioResult, show_scenario_result,
  parse_scenario_result,
}
use sdi_plugin.Domain.Task.{TaskStatus, show_task_status, parse_task_status}
use sdi_plugin.Domain.Run.{
  RunResult, show_run_result, parse_run_result, RelationKind, show_relation_kind,
  parse_relation_kind,
}

parse-show_round_status : (x : RoundStatus) → parse_round_status (show_round_status x) ≡ ok x
unfolding parse_round_status show_round_status
parse-show_round_status RoundStatus.planning = refl
parse-show_round_status RoundStatus.active = refl
parse-show_round_status RoundStatus.completed = refl

show-parse_round_status :
    (s : String) (x : RoundStatus) → parse_round_status s ≡ ok x → show_round_status x ≡ s
unfolding parse_round_status show_round_status
show-parse_round_status s x h =
    ground (arith, eq_iff s "planning", eq_iff s "active", eq_iff s "completed")

pub round_status-Wire : Wire show_round_status parse_round_status
round_status-Wire s x = (
  λ h. sym (show-parse_round_status s x h),
  λ h. ap parse_round_status h ∙ parse-show_round_status x,
)

parse-show_in_flight_policy :
    (x : InFlightPolicy) → parse_in_flight_policy (show_in_flight_policy x) ≡ ok x
unfolding parse_in_flight_policy show_in_flight_policy
parse-show_in_flight_policy InFlightPolicy.pause = refl
parse-show_in_flight_policy InFlightPolicy.abort = refl
parse-show_in_flight_policy InFlightPolicy.continue_on_noimpact = refl

show-parse_in_flight_policy :
    (s : String) (x : InFlightPolicy)
    → parse_in_flight_policy s ≡ ok x
    → show_in_flight_policy x ≡ s
unfolding parse_in_flight_policy show_in_flight_policy
show-parse_in_flight_policy s x h =
    ground (arith, eq_iff s "pause", eq_iff s "abort", eq_iff s "continue-on-noimpact")

pub in_flight_policy-Wire : Wire show_in_flight_policy parse_in_flight_policy
in_flight_policy-Wire s x = (
  λ h. sym (show-parse_in_flight_policy s x h),
  λ h. ap parse_in_flight_policy h ∙ parse-show_in_flight_policy x,
)

parse-show_disruption_policy :
    (x : DisruptionPolicy) → parse_disruption_policy (show_disruption_policy x) ≡ ok x
unfolding parse_disruption_policy show_disruption_policy
parse-show_disruption_policy DisruptionPolicy.needs_review = refl
parse-show_disruption_policy DisruptionPolicy.auto = refl

show-parse_disruption_policy :
    (s : String) (x : DisruptionPolicy)
    → parse_disruption_policy s ≡ ok x
    → show_disruption_policy x ≡ s
unfolding parse_disruption_policy show_disruption_policy
show-parse_disruption_policy s x h = ground (arith, eq_iff s "needs-review", eq_iff s "auto")

pub disruption_policy-Wire : Wire show_disruption_policy parse_disruption_policy
disruption_policy-Wire s x = (
  λ h. sym (show-parse_disruption_policy s x h),
  λ h. ap parse_disruption_policy h ∙ parse-show_disruption_policy x,
)

parse-show_plan_status : (x : PlanStatus) → parse_plan_status (show_plan_status x) ≡ ok x
unfolding parse_plan_status show_plan_status
parse-show_plan_status PlanStatus.draft = refl
parse-show_plan_status PlanStatus.active = refl
parse-show_plan_status PlanStatus.completed = refl

show-parse_plan_status :
    (s : String) (x : PlanStatus) → parse_plan_status s ≡ ok x → show_plan_status x ≡ s
unfolding parse_plan_status show_plan_status
show-parse_plan_status s x h =
    ground (arith, eq_iff s "draft", eq_iff s "active", eq_iff s "completed")

pub plan_status-Wire : Wire show_plan_status parse_plan_status
plan_status-Wire s x = (
  λ h. sym (show-parse_plan_status s x h),
  λ h. ap parse_plan_status h ∙ parse-show_plan_status x,
)

parse-show_scenario_status :
    (x : ScenarioStatus) → parse_scenario_status (show_scenario_status x) ≡ ok x
unfolding parse_scenario_status show_scenario_status
parse-show_scenario_status ScenarioStatus.draft = refl
parse-show_scenario_status ScenarioStatus.confirmed = refl

show-parse_scenario_status :
    (s : String) (x : ScenarioStatus) → parse_scenario_status s ≡ ok x → show_scenario_status x ≡ s
unfolding parse_scenario_status show_scenario_status
show-parse_scenario_status s x h = ground (arith, eq_iff s "draft", eq_iff s "confirmed")

pub scenario_status-Wire : Wire show_scenario_status parse_scenario_status
scenario_status-Wire s x = (
  λ h. sym (show-parse_scenario_status s x h),
  λ h. ap parse_scenario_status h ∙ parse-show_scenario_status x,
)

parse-show_scenario_result :
    (x : ScenarioResult) → parse_scenario_result (show_scenario_result x) ≡ ok x
unfolding parse_scenario_result show_scenario_result
parse-show_scenario_result ScenarioResult.passing = refl
parse-show_scenario_result ScenarioResult.failing = refl
parse-show_scenario_result ScenarioResult.impacted = refl
parse-show_scenario_result ScenarioResult.retired = refl
parse-show_scenario_result ScenarioResult.needs_verification = refl

show-parse_scenario_result :
    (s : String) (x : ScenarioResult) → parse_scenario_result s ≡ ok x → show_scenario_result x ≡ s
unfolding parse_scenario_result show_scenario_result
show-parse_scenario_result s x h = ground (
  arith,
  eq_iff s "passing",
  eq_iff s "failing",
  eq_iff s "impacted",
  eq_iff s "retired",
  eq_iff s "needs_verification",
)

pub scenario_result-Wire : Wire show_scenario_result parse_scenario_result
scenario_result-Wire s x = (
  λ h. sym (show-parse_scenario_result s x h),
  λ h. ap parse_scenario_result h ∙ parse-show_scenario_result x,
)

parse-show_task_status : (x : TaskStatus) → parse_task_status (show_task_status x) ≡ ok x
unfolding parse_task_status show_task_status
parse-show_task_status TaskStatus.todo = refl
parse-show_task_status TaskStatus.in_progress = refl
parse-show_task_status TaskStatus.done = refl
parse-show_task_status TaskStatus.cancelled = refl
parse-show_task_status TaskStatus.blocked = refl

show-parse_task_status :
    (s : String) (x : TaskStatus) → parse_task_status s ≡ ok x → show_task_status x ≡ s
unfolding parse_task_status show_task_status
show-parse_task_status s x h = ground (
  arith,
  eq_iff s "todo",
  eq_iff s "in_progress",
  eq_iff s "done",
  eq_iff s "cancelled",
  eq_iff s "blocked",
)

pub task_status-Wire : Wire show_task_status parse_task_status
task_status-Wire s x = (
  λ h. sym (show-parse_task_status s x h),
  λ h. ap parse_task_status h ∙ parse-show_task_status x,
)

parse-show_run_result : (x : RunResult) → parse_run_result (show_run_result x) ≡ ok x
unfolding parse_run_result show_run_result
parse-show_run_result RunResult.success = refl
parse-show_run_result RunResult.failure = refl
parse-show_run_result RunResult.aborted = refl

show-parse_run_result :
    (s : String) (x : RunResult) → parse_run_result s ≡ ok x → show_run_result x ≡ s
unfolding parse_run_result show_run_result
show-parse_run_result s x h =
    ground (arith, eq_iff s "success", eq_iff s "failure", eq_iff s "aborted")

pub run_result-Wire : Wire show_run_result parse_run_result
run_result-Wire s x =
    (λ h. sym (show-parse_run_result s x h), λ h. ap parse_run_result h ∙ parse-show_run_result x)

parse-show_relation_kind : (x : RelationKind) → parse_relation_kind (show_relation_kind x) ≡ ok x
unfolding parse_relation_kind show_relation_kind
parse-show_relation_kind RelationKind.parent = refl
parse-show_relation_kind RelationKind.blocks = refl
parse-show_relation_kind RelationKind.depends_on = refl
parse-show_relation_kind RelationKind.duplicates = refl
parse-show_relation_kind RelationKind.related = refl

show-parse_relation_kind :
    (s : String) (x : RelationKind) → parse_relation_kind s ≡ ok x → show_relation_kind x ≡ s
unfolding parse_relation_kind show_relation_kind
show-parse_relation_kind s x h = ground (
  arith,
  eq_iff s "parent",
  eq_iff s "blocks",
  eq_iff s "depends-on",
  eq_iff s "duplicates",
  eq_iff s "related",
)

pub relation_kind-Wire : Wire show_relation_kind parse_relation_kind
relation_kind-Wire s x = (
  λ h. sym (show-parse_relation_kind s x h),
  λ h. ap parse_relation_kind h ∙ parse-show_relation_kind x,
)
