-- ===== src/Domain/Decision.antt =====
-- crates/core/src/decision.rs: the append-only decisions and the order of the negotiation
-- proposal → critique → consensus | dissensus.
use sdi_plugin.Prelude.{
  String, Bool, true, false, not, ◌&&◌, Option, none, some, List, ◌==◌, if◌then◌else◌, is_some, any,
}
use sdi_plugin.Prelude.Text.{◌⧺◌, show_ℤ}
use sdi_plugin.Domain.Error.{validation, consensus_missing_critique, Result, ok, err, refuse_if}
use sdi_plugin.Domain.Ids.{EntityId, Timestamp}
use sdi_plugin.Prelude.Int.{ℤ, pos, int_le}

-- `DecisionStatus`.
pub data DecisionStatus : Type 0 where
  proposed accepted superseded : DecisionStatus

unfoldable pub show_decision_status : DecisionStatus → String
show_decision_status DecisionStatus.proposed = "proposed"
show_decision_status DecisionStatus.accepted = "accepted"
show_decision_status DecisionStatus.superseded = "superseded"

unfoldable pub parse_decision_status : String → Result DecisionStatus
parse_decision_status s =
    if s == "proposed"
    then ok DecisionStatus.proposed
    else if s == "accepted"
    then ok DecisionStatus.accepted
    else if s == "superseded"
    then ok DecisionStatus.superseded
    else err (validation ("unknown decision status: " ⧺ s))

abbrev pub decision_status_eq : DecisionStatus → DecisionStatus → Bool
decision_status_eq DecisionStatus.proposed DecisionStatus.proposed = true
decision_status_eq DecisionStatus.accepted DecisionStatus.accepted = true
decision_status_eq DecisionStatus.superseded DecisionStatus.superseded = true
decision_status_eq _ _ = false

-- D20: the stages.
pub data DecisionKind : Type 0 where
  proposal critique consensus dissensus : DecisionKind

unfoldable pub show_decision_kind : DecisionKind → String
show_decision_kind DecisionKind.proposal = "proposal"
show_decision_kind DecisionKind.critique = "critique"
show_decision_kind DecisionKind.consensus = "consensus"
show_decision_kind DecisionKind.dissensus = "dissensus"

unfoldable pub parse_decision_kind : String → Result DecisionKind
parse_decision_kind s =
    if s == "proposal"
    then ok DecisionKind.proposal
    else if s == "critique"
    then ok DecisionKind.critique
    else if s == "consensus"
    then ok DecisionKind.consensus
    else if s == "dissensus"
    then ok DecisionKind.dissensus
    else err (validation ("unknown decision kind: " ⧺ s))

abbrev pub decision_kind_eq : DecisionKind → DecisionKind → Bool
decision_kind_eq DecisionKind.proposal DecisionKind.proposal = true
decision_kind_eq DecisionKind.critique DecisionKind.critique = true
decision_kind_eq DecisionKind.consensus DecisionKind.consensus = true
decision_kind_eq DecisionKind.dissensus DecisionKind.dissensus = true
decision_kind_eq _ _ = false

pub record Decision : Type 0 where
  pub id : EntityId
  pub plan_id : EntityId
  pub short_code : String
  pub title : String
  pub body : String
  pub status : DecisionStatus
  pub supersedes_id : Option EntityId
  pub kind : DecisionKind
  pub proposal_id : Option EntityId
  pub agent_name : Option String
  pub escalated_at : Option Timestamp
  pub produced_via_pattern_id : Option String
  pub reversal_plan : Option String
  pub blast_radius_score : ℤ
  pub reversal_of : Option EntityId
  pub supersede_when : Option String
  pub created_at : Timestamp

-- D28: the score is in 0..=10.
unfoldable pub validate_blast_radius_score : ℤ → Result (Unit {0})
validate_blast_radius_score score =
    refuse_if (not (int_le (pos 0) score && int_le score (pos 10)))
      (validation ("blast_radius_score " ⧺ (show_ℤ score ⧺ " out of range 0..=10")))

-- The stages that answer a proposal.
abbrev pub check_reply : DecisionKind → List DecisionKind → Option EntityId → Result (Unit {0})
check_reply next existing_kinds none =
    err (validation (show_decision_kind next ⧺ " decision requires proposal_id"))
check_reply next existing_kinds (some proposal_id) =
    refuse_if
      (decision_kind_eq next DecisionKind.consensus
        && not (any (λ k. decision_kind_eq k DecisionKind.critique) existing_kinds))
      (consensus_missing_critique proposal_id)

unfoldable pub validate_stage_transition :
    DecisionKind → List DecisionKind → Option EntityId → Result (Unit {0})
validate_stage_transition DecisionKind.proposal existing_kinds proposal_id =
    refuse_if (is_some proposal_id) (validation "proposal decision must not carry proposal_id")
validate_stage_transition next existing_kinds proposal_id =
    check_reply next existing_kinds proposal_id
