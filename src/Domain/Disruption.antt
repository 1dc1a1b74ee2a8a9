-- ===== src/Domain/Disruption.antt =====
-- crates/core/src/disruption.rs: the reviews that hold a round back while one is pending.
use sdi_plugin.Prelude.{String, Bool, true, false, Option, List, ◌==◌, if◌then◌else◌}
use sdi_plugin.Prelude.Text.{◌⧺◌}
use sdi_plugin.Domain.Error.{validation, Result, ok, err}
use sdi_plugin.Domain.Ids.{EntityId, Timestamp}

-- What triggered the review.
pub data DisruptionSource : Type 0 where
  scenario requirement decision : DisruptionSource

unfoldable pub show_disruption_source : DisruptionSource → String
show_disruption_source DisruptionSource.scenario = "scenario"
show_disruption_source DisruptionSource.requirement = "requirement"
show_disruption_source DisruptionSource.decision = "decision"

unfoldable pub parse_disruption_source : String → Result DisruptionSource
parse_disruption_source s =
    if s == "scenario"
    then ok DisruptionSource.scenario
    else if s == "requirement"
    then ok DisruptionSource.requirement
    else if s == "decision"
    then ok DisruptionSource.decision
    else err (validation ("unknown disruption source: " ⧺ s))

-- Open or settled.
pub data DisruptionReviewStatus : Type 0 where
  pending resolved : DisruptionReviewStatus

unfoldable pub show_disruption_review_status : DisruptionReviewStatus → String
show_disruption_review_status DisruptionReviewStatus.pending = "pending"
show_disruption_review_status DisruptionReviewStatus.resolved = "resolved"

unfoldable pub parse_disruption_review_status : String → Result DisruptionReviewStatus
parse_disruption_review_status s =
    if s == "pending"
    then ok DisruptionReviewStatus.pending
    else if s == "resolved"
    then ok DisruptionReviewStatus.resolved
    else err (validation ("unknown disruption review status: " ⧺ s))

abbrev pub disruption_review_status_eq : DisruptionReviewStatus → DisruptionReviewStatus → Bool
disruption_review_status_eq DisruptionReviewStatus.pending DisruptionReviewStatus.pending = true
disruption_review_status_eq DisruptionReviewStatus.resolved DisruptionReviewStatus.resolved = true
disruption_review_status_eq _ _ = false

-- The human verdict.
pub data DisruptionResolution : Type 0 where
  retire edit keep : DisruptionResolution

unfoldable pub show_disruption_resolution : DisruptionResolution → String
show_disruption_resolution DisruptionResolution.retire = "retire"
show_disruption_resolution DisruptionResolution.edit = "edit"
show_disruption_resolution DisruptionResolution.keep = "keep"

unfoldable pub parse_disruption_resolution : String → Result DisruptionResolution
parse_disruption_resolution s =
    if s == "retire"
    then ok DisruptionResolution.retire
    else if s == "edit"
    then ok DisruptionResolution.edit
    else if s == "keep"
    then ok DisruptionResolution.keep
    else err (validation ("unknown disruption resolution: " ⧺ s))

pub record DisruptionReview : Type 0 where
  pub id : EntityId
  pub plan_id : EntityId
  pub source_kind : DisruptionSource
  pub source_id : EntityId
  pub impacted_scenario_ids : List EntityId
  pub status : DisruptionReviewStatus
  pub resolution : Option DisruptionResolution
  pub note : Option String
  pub created_at : Timestamp
  pub resolved_at : Option Timestamp
