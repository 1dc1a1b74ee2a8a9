-- ===== src/Domain/Wire.antt =====
-- crates/core/src: the texts of the wire and of the columns.
mod Law
mod Work
mod Judgement
use sdi_plugin.Prelude.{
  ◌-◌, String, ◌≡◌, refl, sym, ap, ◌↔◌, ◌⊎◌, inl, inr, arith, ◌==◌, eq_iff, Bool-cases,
}
use sdi_plugin.Domain.Error.{ok}
use mathlib.Core.Path.{subst}
use sdi_plugin.Domain.Round.{RoundMode, show_round_mode, parse_round_mode}
use sdi_plugin.Domain.Wire.Law.{Wire}
use sdi_plugin.Domain.Round.{
  show_round_status, parse_round_status, show_in_flight_policy, parse_in_flight_policy,
  show_disruption_policy, parse_disruption_policy,
}
use sdi_plugin.Domain.Plan.{show_plan_status, parse_plan_status}
use sdi_plugin.Domain.Scenario.{
  show_scenario_status, parse_scenario_status, show_scenario_result, parse_scenario_result,
}
use sdi_plugin.Domain.Task.{show_task_status, parse_task_status}
use sdi_plugin.Domain.Run.{
  show_run_result, parse_run_result, show_relation_kind, parse_relation_kind,
}
use sdi_plugin.Domain.Wire.Work.{
  round_status-Wire, in_flight_policy-Wire, disruption_policy-Wire, plan_status-Wire,
  scenario_status-Wire, scenario_result-Wire, task_status-Wire, run_result-Wire, relation_kind-Wire,
}
use sdi_plugin.Domain.Pattern.{
  show_pattern_kind, parse_pattern_kind, show_applies_to, parse_applies_to, show_pattern_lifecycle,
  parse_pattern_lifecycle, show_stance, parse_stance, show_claim_status, parse_claim_status,
}
use sdi_plugin.Domain.Decision.{
  show_decision_status, parse_decision_status, show_decision_kind, parse_decision_kind,
}
use sdi_plugin.Domain.Autonomy.{
  show_autonomy_scope_kind, parse_autonomy_scope_kind, show_autonomy_mode, parse_autonomy_mode,
}
use sdi_plugin.Domain.Verification.{
  show_failure_class, parse_failure_class, show_spawn_error, parse_spawn_error,
}
use sdi_plugin.Domain.Disruption.{
  show_disruption_source, parse_disruption_source, show_disruption_review_status,
  parse_disruption_review_status, show_disruption_resolution, parse_disruption_resolution,
}
use sdi_plugin.Domain.Wire.Judgement.{
  pattern_kind-Wire, applies_to-Wire, pattern_lifecycle-Wire, stance-Wire, claim_status-Wire,
  decision_status-Wire, decision_kind-Wire, autonomy_scope_kind-Wire, autonomy_mode-Wire,
  failure_class-Wire, spawn_error-Wire, disruption_source-Wire, disruption_review_status-Wire,
  disruption_resolution-Wire,
}

mode-to :
    (s : String) (m : RoundMode)
    → parse_round_mode s ≡ ok m
    → (s ≡ show_round_mode m) ⊎ ((s ≡ "additive") × (m ≡ RoundMode.forward_only))
unfolding parse_round_mode show_round_mode
mode-to s RoundMode.strict_regression h = inl (
    ground (
      arith,
      eq_iff s "strict-regression",
      Bool-cases (s == "strict-regression"),
      Bool-cases (s == "forward-only"),
      Bool-cases (s == "additive"),
    ))
mode-to s RoundMode.forward_only h = elim (Bool-cases (s == "forward-only")) [
  | inl e ↦ inl ((eq_iff s "forward-only").0 e)
  | inr e ↦ inr (
    ground (
      arith,
      e,
      eq_iff s "additive",
      Bool-cases (s == "strict-regression"),
      Bool-cases (s == "additive"),
    ),
    refl,
  )
]

mode-from :
    (s : String) (m : RoundMode)
    → (s ≡ show_round_mode m) ⊎ ((s ≡ "additive") × (m ≡ RoundMode.forward_only))
    → parse_round_mode s ≡ ok m
unfolding parse_round_mode show_round_mode
mode-from s RoundMode.strict_regression (inl e) =
    subst (λ t. parse_round_mode t ≡ ok RoundMode.strict_regression) (sym e) refl
mode-from s RoundMode.forward_only (inl e) =
    subst (λ t. parse_round_mode t ≡ ok RoundMode.forward_only) (sym e) refl
mode-from s m (inr (e, f)) = subst (λ t. parse_round_mode t ≡ ok m) (sym e) (ap ok (sym f))

-- For each enum of the wire, the mode of a round aside, a text is read as a value exactly if it is
-- the text that the value prints: the rounds, plans, scenarios, tasks and runs, the patterns,
-- decisions, autonomy policies, failure classes, spawn errors and disruption reviews. A text is read
-- as the mode of a round exactly if the mode prints it, or if it is `additive` and the mode is
-- forward-only.
pub enums-Wire :
    Wire show_round_status parse_round_status
    × Wire show_in_flight_policy parse_in_flight_policy
    × Wire show_disruption_policy parse_disruption_policy
    × Wire show_plan_status parse_plan_status
    × Wire show_scenario_status parse_scenario_status
    × Wire show_scenario_result parse_scenario_result
    × Wire show_task_status parse_task_status
    × Wire show_run_result parse_run_result
    × Wire show_relation_kind parse_relation_kind
    × Wire show_pattern_kind parse_pattern_kind
    × Wire show_applies_to parse_applies_to
    × Wire show_pattern_lifecycle parse_pattern_lifecycle
    × Wire show_stance parse_stance
    × Wire show_claim_status parse_claim_status
    × Wire show_decision_status parse_decision_status
    × Wire show_decision_kind parse_decision_kind
    × Wire show_autonomy_scope_kind parse_autonomy_scope_kind
    × Wire show_autonomy_mode parse_autonomy_mode
    × Wire show_failure_class parse_failure_class
    × Wire show_spawn_error parse_spawn_error
    × Wire show_disruption_source parse_disruption_source
    × Wire show_disruption_review_status parse_disruption_review_status
    × Wire show_disruption_resolution parse_disruption_resolution
    × ((s : String) (m : RoundMode)
        → (parse_round_mode s ≡ ok m)
          ↔ ((s ≡ show_round_mode m) ⊎ ((s ≡ "additive") × (m ≡ RoundMode.forward_only))))
enums-Wire = (
  round_status-Wire,
  in_flight_policy-Wire,
  disruption_policy-Wire,
  plan_status-Wire,
  scenario_status-Wire,
  scenario_result-Wire,
  task_status-Wire,
  run_result-Wire,
  relation_kind-Wire,
  pattern_kind-Wire,
  applies_to-Wire,
  pattern_lifecycle-Wire,
  stance-Wire,
  claim_status-Wire,
  decision_status-Wire,
  decision_kind-Wire,
  autonomy_scope_kind-Wire,
  autonomy_mode-Wire,
  failure_class-Wire,
  spawn_error-Wire,
  disruption_source-Wire,
  disruption_review_status-Wire,
  disruption_resolution-Wire,
  λ s m. (mode-to s m, mode-from s m),
)
