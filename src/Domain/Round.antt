-- ===== src/Domain/Round.antt =====
-- crates/core/src/round.rs: rounds, their policies and the checks of the lifecycle
-- planning → active → completed.
use sdi_plugin.Prelude.{ℕ, String, Bool, true, false, not, ◌||◌, Option, ◌==◌, if◌then◌else◌}
use sdi_plugin.Prelude.Text.{◌⧺◌}
use sdi_plugin.Domain.Error.{
  invalid_transition, validation, invalid_round_mode, Result, ok, err, refuse_if,
}
use sdi_plugin.Domain.Ids.{EntityId, Timestamp}

-- `RoundStatus`, its column text and the reading of it.
pub data RoundStatus : Type 0 where
  planning active completed : RoundStatus

unfoldable pub show_round_status : RoundStatus → String
show_round_status RoundStatus.planning = "planning"
show_round_status RoundStatus.active = "active"
show_round_status RoundStatus.completed = "completed"

unfoldable pub parse_round_status : String → Result RoundStatus
parse_round_status s =
    if s == "planning"
    then ok RoundStatus.planning
    else if s == "active"
    then ok RoundStatus.active
    else if s == "completed"
    then ok RoundStatus.completed
    else err (validation ("unknown round status: " ⧺ s))

abbrev pub round_status_eq : RoundStatus → RoundStatus → Bool
round_status_eq RoundStatus.planning RoundStatus.planning = true
round_status_eq RoundStatus.active RoundStatus.active = true
round_status_eq RoundStatus.completed RoundStatus.completed = true
round_status_eq _ _ = false

-- D6. `additive` is read as `forward-only` and never written.
pub data RoundMode : Type 0 where
  strict_regression forward_only : RoundMode

unfoldable pub show_round_mode : RoundMode → String
show_round_mode RoundMode.strict_regression = "strict-regression"
show_round_mode RoundMode.forward_only = "forward-only"

unfoldable pub parse_round_mode : String → Result RoundMode
parse_round_mode s =
    if s == "strict-regression"
    then ok RoundMode.strict_regression
    else if s == "forward-only" || s == "additive"
    then ok RoundMode.forward_only
    else err (invalid_round_mode s)

-- D10.
pub data InFlightPolicy : Type 0 where
  pause abort continue_on_noimpact : InFlightPolicy

unfoldable pub show_in_flight_policy : InFlightPolicy → String
show_in_flight_policy InFlightPolicy.pause = "pause"
show_in_flight_policy InFlightPolicy.abort = "abort"
show_in_flight_policy InFlightPolicy.continue_on_noimpact = "continue-on-noimpact"

unfoldable pub parse_in_flight_policy : String → Result InFlightPolicy
parse_in_flight_policy s =
    if s == "pause"
    then ok InFlightPolicy.pause
    else if s == "abort"
    then ok InFlightPolicy.abort
    else if s == "continue-on-noimpact"
    then ok InFlightPolicy.continue_on_noimpact
    else err (validation ("unknown in-flight policy: " ⧺ s))

-- D9.
pub data DisruptionPolicy : Type 0 where
  needs_review auto : DisruptionPolicy

unfoldable pub show_disruption_policy : DisruptionPolicy → String
show_disruption_policy DisruptionPolicy.needs_review = "needs-review"
show_disruption_policy DisruptionPolicy.auto = "auto"

unfoldable pub parse_disruption_policy : String → Result DisruptionPolicy
parse_disruption_policy s =
    if s == "needs-review"
    then ok DisruptionPolicy.needs_review
    else if s == "auto"
    then ok DisruptionPolicy.auto
    else err (validation ("unknown disruption policy: " ⧺ s))

-- The `Default` implementations.
abbrev pub default_mode : RoundMode
default_mode = RoundMode.strict_regression

abbrev pub default_in_flight_policy : InFlightPolicy
default_in_flight_policy = InFlightPolicy.pause

abbrev pub default_disruption_policy : DisruptionPolicy
default_disruption_policy = DisruptionPolicy.needs_review

pub record Round : Type 0 where
  pub id : EntityId
  pub plan_id : EntityId
  pub short_code : String
  pub round_number : ℕ
  pub mode : RoundMode
  pub in_flight_policy : InFlightPolicy
  pub disruption_policy : DisruptionPolicy
  pub status : RoundStatus
  pub produced_via_pattern_id : Option String
  pub created_at : Timestamp
  pub updated_at : Timestamp
  pub activated_at : Option Timestamp
  pub completed_at : Option Timestamp

unfoldable pub check_can_activate : Round → Result (Unit {0})
unfolding show_round_status
check_can_activate r =
    refuse_if (not (round_status_eq r.status RoundStatus.planning))
      (invalid_transition "round" (show_round_status r.status) "active")

unfoldable pub check_can_complete : Round → Result (Unit {0})
unfolding show_round_status
check_can_complete r =
    refuse_if (not (round_status_eq r.status RoundStatus.active))
      (invalid_transition "round" (show_round_status r.status) "completed")
