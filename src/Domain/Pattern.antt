-- ===== src/Domain/Pattern.antt =====
-- crates/core/src/pattern.rs: the enumerations of collaboration patterns. The shape gate and the
-- reversal plans are the child modules.
pub mod Shape
pub mod Reversal
use sdi_plugin.Prelude.{if◌then◌else◌, ◌-◌, String, Bool, true, false, none, ◌==◌}
use sdi_plugin.Prelude.Text.{◌⧺◌}
use sdi_plugin.Domain.Error.{validation, Result, ok, err}

-- D22.
pub data PatternKind : Type 0 where
  workflow graph swarm agents_as_tools direct : PatternKind

unfoldable pub show_pattern_kind : PatternKind → String
show_pattern_kind PatternKind.workflow = "workflow"
show_pattern_kind PatternKind.graph = "graph"
show_pattern_kind PatternKind.swarm = "swarm"
show_pattern_kind PatternKind.agents_as_tools = "agents-as-tools"
show_pattern_kind PatternKind.direct = "direct"

unfoldable pub parse_pattern_kind : String → Result PatternKind
parse_pattern_kind s =
    if s == "workflow"
    then ok PatternKind.workflow
    else if s == "graph"
    then ok PatternKind.graph
    else if s == "swarm"
    then ok PatternKind.swarm
    else if s == "agents-as-tools"
    then ok PatternKind.agents_as_tools
    else if s == "direct"
    then ok PatternKind.direct
    else err (validation ("unknown pattern kind: " ⧺ s))

-- The entity that a pattern produces.
pub data AppliesTo : Type 0 where
  plan requirement scenario task decision round : AppliesTo

unfoldable pub show_applies_to : AppliesTo → String
show_applies_to AppliesTo.plan = "plan"
show_applies_to AppliesTo.requirement = "requirement"
show_applies_to AppliesTo.scenario = "scenario"
show_applies_to AppliesTo.task = "task"
show_applies_to AppliesTo.decision = "decision"
show_applies_to AppliesTo.round = "round"

unfoldable pub parse_applies_to : String → Result AppliesTo
parse_applies_to s =
    if s == "plan"
    then ok AppliesTo.plan
    else if s == "requirement"
    then ok AppliesTo.requirement
    else if s == "scenario"
    then ok AppliesTo.scenario
    else if s == "task"
    then ok AppliesTo.task
    else if s == "decision"
    then ok AppliesTo.decision
    else if s == "round"
    then ok AppliesTo.round
    else err (validation ("unknown applies_to: " ⧺ s))

-- The life of a pattern.
pub data PatternLifecycle : Type 0 where
  pending active converged dissensus aborted : PatternLifecycle

unfoldable pub show_pattern_lifecycle : PatternLifecycle → String
show_pattern_lifecycle PatternLifecycle.pending = "pending"
show_pattern_lifecycle PatternLifecycle.active = "active"
show_pattern_lifecycle PatternLifecycle.converged = "converged"
show_pattern_lifecycle PatternLifecycle.dissensus = "dissensus"
show_pattern_lifecycle PatternLifecycle.aborted = "aborted"

unfoldable pub parse_pattern_lifecycle : String → Result PatternLifecycle
parse_pattern_lifecycle s =
    if s == "pending"
    then ok PatternLifecycle.pending
    else if s == "active"
    then ok PatternLifecycle.active
    else if s == "converged"
    then ok PatternLifecycle.converged
    else if s == "dissensus"
    then ok PatternLifecycle.dissensus
    else if s == "aborted"
    then ok PatternLifecycle.aborted
    else err (validation ("unknown pattern lifecycle: " ⧺ s))

unfoldable pub is_terminal : PatternLifecycle → Bool
is_terminal PatternLifecycle.converged = true
is_terminal PatternLifecycle.dissensus = true
is_terminal PatternLifecycle.aborted = true
is_terminal _ = false

-- D26.
pub data Stance : Type 0 where
  proposer devil_advocate schema_guardian performance_reviewer security_reviewer neutral : Stance

unfoldable pub show_stance : Stance → String
show_stance Stance.proposer = "proposer"
show_stance Stance.devil_advocate = "devil_advocate"
show_stance Stance.schema_guardian = "schema_guardian"
show_stance Stance.performance_reviewer = "performance_reviewer"
show_stance Stance.security_reviewer = "security_reviewer"
show_stance Stance.neutral = "neutral"

unfoldable pub parse_stance : String → Result Stance
parse_stance s =
    if s == "proposer"
    then ok Stance.proposer
    else if s == "devil_advocate"
    then ok Stance.devil_advocate
    else if s == "schema_guardian"
    then ok Stance.schema_guardian
    else if s == "performance_reviewer"
    then ok Stance.performance_reviewer
    else if s == "security_reviewer"
    then ok Stance.security_reviewer
    else if s == "neutral"
    then ok Stance.neutral
    else err (validation ("unknown stance: " ⧺ s))

abbrev pub stance_eq : Stance → Stance → Bool
stance_eq Stance.proposer Stance.proposer = true
stance_eq Stance.devil_advocate Stance.devil_advocate = true
stance_eq Stance.schema_guardian Stance.schema_guardian = true
stance_eq Stance.performance_reviewer Stance.performance_reviewer = true
stance_eq Stance.security_reviewer Stance.security_reviewer = true
stance_eq Stance.neutral Stance.neutral = true
stance_eq _ _ = false

-- D29. `unclaimed` is the source's `ClaimStatus::None`.
pub data ClaimStatus : Type 0 where
  unclaimed requested active released : ClaimStatus

unfoldable pub show_claim_status : ClaimStatus → String
show_claim_status ClaimStatus.unclaimed = "none"
show_claim_status ClaimStatus.requested = "requested"
show_claim_status ClaimStatus.active = "active"
show_claim_status ClaimStatus.released = "released"

unfoldable pub parse_claim_status : String → Result ClaimStatus
parse_claim_status s =
    if s == "none"
    then ok ClaimStatus.unclaimed
    else if s == "requested"
    then ok ClaimStatus.requested
    else if s == "active"
    then ok ClaimStatus.active
    else if s == "released"
    then ok ClaimStatus.released
    else err (validation ("unknown claim_status: " ⧺ s))
