-- ===== src/Domain/Wire/Judgement.antt =====
-- crates/core/src: the reading and printing of the enums of patterns, decisions, autonomy, verification and disruption.
use sdi_plugin.Prelude.{String, ◌≡◌, refl, sym, ap, arith, eq_iff}
use sdi_plugin.Domain.Error.{ok}
use sdi_plugin.Domain.Wire.Law.{Wire}
use sdi_plugin.Prelude.{◌∙◌}
use sdi_plugin.Domain.Pattern.{
  PatternKind, show_pattern_kind, parse_pattern_kind, AppliesTo, show_applies_to, parse_applies_to,
  PatternLifecycle, show_pattern_lifecycle, parse_pattern_lifecycle, Stance, show_stance,
  parse_stance, ClaimStatus, show_claim_status, parse_claim_status,
}
use sdi_plugin.Domain.Decision.{
  DecisionStatus, show_decision_status, parse_decision_status, DecisionKind, show_decision_kind,
  parse_decision_kind,
}
use sdi_plugin.Domain.Autonomy.{
  AutonomyScopeKind, show_autonomy_scope_kind, parse_autonomy_scope_kind, AutonomyMode,
  show_autonomy_mode, parse_autonomy_mode,
}
use sdi_plugin.Domain.Verification.{
  FailureClass, show_failure_class, parse_failure_class, SpawnError, show_spawn_error,
  parse_spawn_error,
}
use sdi_plugin.Domain.Disruption.{
  DisruptionSource, show_disruption_source, parse_disruption_source, DisruptionReviewStatus,
  show_disruption_review_status, parse_disruption_review_status, DisruptionResolution,
  show_disruption_resolution, parse_disruption_resolution,
}

parse-show_pattern_kind : (x : PatternKind) → parse_pattern_kind (show_pattern_kind x) ≡ ok x
unfolding parse_pattern_kind show_pattern_kind
parse-show_pattern_kind PatternKind.workflow = refl
parse-show_pattern_kind PatternKind.graph = refl
parse-show_pattern_kind PatternKind.swarm = refl
parse-show_pattern_kind PatternKind.agents_as_tools = refl
parse-show_pattern_kind PatternKind.direct = refl

show-parse_pattern_kind :
    (s : String) (x : PatternKind) → parse_pattern_kind s ≡ ok x → show_pattern_kind x ≡ s
unfolding parse_pattern_kind show_pattern_kind
show-parse_pattern_kind s x h = ground (
  arith,
  eq_iff s "workflow",
  eq_iff s "graph",
  eq_iff s "swarm",
  eq_iff s "agents-as-tools",
  eq_iff s "direct",
)

pub pattern_kind-Wire : Wire show_pattern_kind parse_pattern_kind
pattern_kind-Wire s x = (
  λ h. sym (show-parse_pattern_kind s x h),
  λ h. ap parse_pattern_kind h ∙ parse-show_pattern_kind x,
)

parse-show_applies_to : (x : AppliesTo) → parse_applies_to (show_applies_to x) ≡ ok x
unfolding parse_applies_to show_applies_to
parse-show_applies_to AppliesTo.plan = refl
parse-show_applies_to AppliesTo.requirement = refl
parse-show_applies_to AppliesTo.scenario = refl
parse-show_applies_to AppliesTo.task = refl
parse-show_applies_to AppliesTo.decision = refl
parse-show_applies_to AppliesTo.round = refl

show-parse_applies_to :
    (s : String) (x : AppliesTo) → parse_applies_to s ≡ ok x → show_applies_to x ≡ s
unfolding parse_applies_to show_applies_to
show-parse_applies_to s x h = ground (
  arith,
  eq_iff s "plan",
  eq_iff s "requirement",
  eq_iff s "scenario",
  eq_iff s "task",
  eq_iff s "decision",
  eq_iff s "round",
)

pub applies_to-Wire : Wire show_applies_to parse_applies_to
applies_to-Wire s x =
    (λ h. sym (show-parse_applies_to s x h), λ h. ap parse_applies_to h ∙ parse-show_applies_to x)

parse-show_pattern_lifecycle :
    (x : PatternLifecycle) → parse_pattern_lifecycle (show_pattern_lifecycle x) ≡ ok x
unfolding parse_pattern_lifecycle show_pattern_lifecycle
parse-show_pattern_lifecycle PatternLifecycle.pending = refl
parse-show_pattern_lifecycle PatternLifecycle.active = refl
parse-show_pattern_lifecycle PatternLifecycle.converged = refl
parse-show_pattern_lifecycle PatternLifecycle.dissensus = refl
parse-show_pattern_lifecycle PatternLifecycle.aborted = refl

show-parse_pattern_lifecycle :
    (s : String) (x : PatternLifecycle)
    → parse_pattern_lifecycle s ≡ ok x
    → show_pattern_lifecycle x ≡ s
unfolding parse_pattern_lifecycle show_pattern_lifecycle
show-parse_pattern_lifecycle s x h = ground (
  arith,
  eq_iff s "pending",
  eq_iff s "active",
  eq_iff s "converged",
  eq_iff s "dissensus",
  eq_iff s "aborted",
)

pub pattern_lifecycle-Wire : Wire show_pattern_lifecycle parse_pattern_lifecycle
pattern_lifecycle-Wire s x = (
  λ h. sym (show-parse_pattern_lifecycle s x h),
  λ h. ap parse_pattern_lifecycle h ∙ parse-show_pattern_lifecycle x,
)

parse-show_stance : (x : Stance) → parse_stance (show_stance x) ≡ ok x
unfolding parse_stance show_stance
parse-show_stance Stance.proposer = refl
parse-show_stance Stance.devil_advocate = refl
parse-show_stance Stance.schema_guardian = refl
parse-show_stance Stance.performance_reviewer = refl
parse-show_stance Stance.security_reviewer = refl
parse-show_stance Stance.neutral = refl

show-parse_stance : (s : String) (x : Stance) → parse_stance s ≡ ok x → show_stance x ≡ s
unfolding parse_stance show_stance
show-parse_stance s x h = ground (
  arith,
  eq_iff s "proposer",
  eq_iff s "devil_advocate",
  eq_iff s "schema_guardian",
  eq_iff s "performance_reviewer",
  eq_iff s "security_reviewer",
  eq_iff s "neutral",
)

pub stance-Wire : Wire show_stance parse_stance
stance-Wire s x = (λ h. sym (show-parse_stance s x h), λ h. ap parse_stance h ∙ parse-show_stance x)

parse-show_claim_status : (x : ClaimStatus) → parse_claim_status (show_claim_status x) ≡ ok x
unfolding parse_claim_status show_claim_status
parse-show_claim_status ClaimStatus.unclaimed = refl
parse-show_claim_status ClaimStatus.requested = refl
parse-show_claim_status ClaimStatus.active = refl
parse-show_claim_status ClaimStatus.released = refl

show-parse_claim_status :
    (s : String) (x : ClaimStatus) → parse_claim_status s ≡ ok x → show_claim_status x ≡ s
unfolding parse_claim_status show_claim_status
show-parse_claim_status s x h =
    ground (arith, eq_iff s "none", eq_iff s "requested", eq_iff s "active", eq_iff s "released")

pub claim_status-Wire : Wire show_claim_status parse_claim_status
claim_status-Wire s x = (
  λ h. sym (show-parse_claim_status s x h),
  λ h. ap parse_claim_status h ∙ parse-show_claim_status x,
)

parse-show_decision_status :
    (x : DecisionStatus) → parse_decision_status (show_decision_status x) ≡ ok x
unfolding parse_decision_status show_decision_status
parse-show_decision_status DecisionStatus.proposed = refl
parse-show_decision_status DecisionStatus.accepted = refl
parse-show_decision_status DecisionStatus.superseded = refl

show-parse_decision_status :
    (s : String) (x : DecisionStatus) → parse_decision_status s ≡ ok x → show_decision_status x ≡ s
unfolding parse_decision_status show_decision_status
show-parse_decision_status s x h =
    ground (arith, eq_iff s "proposed", eq_iff s "accepted", eq_iff s "superseded")

pub decision_status-Wire : Wire show_decision_status parse_decision_status
decision_status-Wire s x = (
  λ h. sym (show-parse_decision_status s x h),
  λ h. ap parse_decision_status h ∙ parse-show_decision_status x,
)

parse-show_decision_kind : (x : DecisionKind) → parse_decision_kind (show_decision_kind x) ≡ ok x
unfolding parse_decision_kind show_decision_kind
parse-show_decision_kind DecisionKind.proposal = refl
parse-show_decision_kind DecisionKind.critique = refl
parse-show_decision_kind DecisionKind.consensus = refl
parse-show_decision_kind DecisionKind.dissensus = refl

show-parse_decision_kind :
    (s : String) (x : DecisionKind) → parse_decision_kind s ≡ ok x → show_decision_kind x ≡ s
unfolding parse_decision_kind show_decision_kind
show-parse_decision_kind s x h =
    ground
      (arith, eq_iff s "proposal", eq_iff s "critique", eq_iff s "consensus", eq_iff s "dissensus")

pub decision_kind-Wire : Wire show_decision_kind parse_decision_kind
decision_kind-Wire s x = (
  λ h. sym (show-parse_decision_kind s x h),
  λ h. ap parse_decision_kind h ∙ parse-show_decision_kind x,
)

parse-show_autonomy_scope_kind :
    (x : AutonomyScopeKind) → parse_autonomy_scope_kind (show_autonomy_scope_kind x) ≡ ok x
unfolding parse_autonomy_scope_kind show_autonomy_scope_kind
parse-show_autonomy_scope_kind AutonomyScopeKind.plan = refl
parse-show_autonomy_scope_kind AutonomyScopeKind.decision_kind = refl
parse-show_autonomy_scope_kind AutonomyScopeKind.pattern_kind = refl
parse-show_autonomy_scope_kind AutonomyScopeKind.global = refl

show-parse_autonomy_scope_kind :
    (s : String) (x : AutonomyScopeKind)
    → parse_autonomy_scope_kind s ≡ ok x
    → show_autonomy_scope_kind x ≡ s
unfolding parse_autonomy_scope_kind show_autonomy_scope_kind
show-parse_autonomy_scope_kind s x h =
    ground
      (arith, eq_iff s "plan", eq_iff s "decision_kind", eq_iff s "pattern_kind", eq_iff s "global")

pub autonomy_scope_kind-Wire : Wire show_autonomy_scope_kind parse_autonomy_scope_kind
autonomy_scope_kind-Wire s x = (
  λ h. sym (show-parse_autonomy_scope_kind s x h),
  λ h. ap parse_autonomy_scope_kind h ∙ parse-show_autonomy_scope_kind x,
)

parse-show_autonomy_mode : (x : AutonomyMode) → parse_autonomy_mode (show_autonomy_mode x) ≡ ok x
unfolding parse_autonomy_mode show_autonomy_mode
parse-show_autonomy_mode AutonomyMode.l3 = refl
parse-show_autonomy_mode AutonomyMode.l4 = refl
parse-show_autonomy_mode AutonomyMode.l5 = refl

show-parse_autonomy_mode :
    (s : String) (x : AutonomyMode) → parse_autonomy_mode s ≡ ok x → show_autonomy_mode x ≡ s
unfolding parse_autonomy_mode show_autonomy_mode
show-parse_autonomy_mode s x h = ground (arith, eq_iff s "L3", eq_iff s "L4", eq_iff s "L5")

pub autonomy_mode-Wire : Wire show_autonomy_mode parse_autonomy_mode
autonomy_mode-Wire s x = (
  λ h. sym (show-parse_autonomy_mode s x h),
  λ h. ap parse_autonomy_mode h ∙ parse-show_autonomy_mode x,
)

parse-show_failure_class : (x : FailureClass) → parse_failure_class (show_failure_class x) ≡ ok x
unfolding parse_failure_class show_failure_class
parse-show_failure_class FailureClass.product = refl
parse-show_failure_class FailureClass.harness = refl
parse-show_failure_class FailureClass.environment = refl
parse-show_failure_class FailureClass.spec = refl
parse-show_failure_class FailureClass.no_failure = refl

show-parse_failure_class :
    (s : String) (x : FailureClass) → parse_failure_class s ≡ ok x → show_failure_class x ≡ s
unfolding parse_failure_class show_failure_class
show-parse_failure_class s x h = ground (
  arith,
  eq_iff s "product",
  eq_iff s "harness",
  eq_iff s "environment",
  eq_iff s "spec",
  eq_iff s "none",
)

pub failure_class-Wire : Wire show_failure_class parse_failure_class
failure_class-Wire s x = (
  λ h. sym (show-parse_failure_class s x h),
  λ h. ap parse_failure_class h ∙ parse-show_failure_class x,
)

parse-show_spawn_error : (x : SpawnError) → parse_spawn_error (show_spawn_error x) ≡ ok x
unfolding parse_spawn_error show_spawn_error
parse-show_spawn_error SpawnError.absent = refl
parse-show_spawn_error SpawnError.permission_denied = refl
parse-show_spawn_error SpawnError.other = refl

show-parse_spawn_error :
    (s : String) (x : SpawnError) → parse_spawn_error s ≡ ok x → show_spawn_error x ≡ s
unfolding parse_spawn_error show_spawn_error
show-parse_spawn_error s x h =
    ground (arith, eq_iff s "not-found", eq_iff s "permission-denied", eq_iff s "other")

pub spawn_error-Wire : Wire show_spawn_error parse_spawn_error
spawn_error-Wire s x = (
  λ h. sym (show-parse_spawn_error s x h),
  λ h. ap parse_spawn_error h ∙ parse-show_spawn_error x,
)

parse-show_disruption_source :
    (x : DisruptionSource) → parse_disruption_source (show_disruption_source x) ≡ ok x
unfolding parse_disruption_source show_disruption_source
parse-show_disruption_source DisruptionSource.scenario = refl
parse-show_disruption_source DisruptionSource.requirement = refl
parse-show_disruption_source DisruptionSource.decision = refl

show-parse_disruption_source :
    (s : String) (x : DisruptionSource)
    → parse_disruption_source s ≡ ok x
    → show_disruption_source x ≡ s
unfolding parse_disruption_source show_disruption_source
show-parse_disruption_source s x h =
    ground (arith, eq_iff s "scenario", eq_iff s "requirement", eq_iff s "decision")

pub disruption_source-Wire : Wire show_disruption_source parse_disruption_source
disruption_source-Wire s x = (
  λ h. sym (show-parse_disruption_source s x h),
  λ h. ap parse_disruption_source h ∙ parse-show_disruption_source x,
)

parse-show_disruption_review_status :
    (x : DisruptionReviewStatus)
    → parse_disruption_review_status (show_disruption_review_status x) ≡ ok x
unfolding parse_disruption_review_status show_disruption_review_status
parse-show_disruption_review_status DisruptionReviewStatus.pending = refl
parse-show_disruption_review_status DisruptionReviewStatus.resolved = refl

show-parse_disruption_review_status :
    (s : String) (x : DisruptionReviewStatus)
    → parse_disruption_review_status s ≡ ok x
    → show_disruption_review_status x ≡ s
unfolding parse_disruption_review_status show_disruption_review_status
show-parse_disruption_review_status s x h = ground (arith, eq_iff s "pending", eq_iff s "resolved")

pub disruption_review_status-Wire :
    Wire show_disruption_review_status parse_disruption_review_status
disruption_review_status-Wire s x = (
  λ h. sym (show-parse_disruption_review_status s x h),
  λ h. ap parse_disruption_review_status h ∙ parse-show_disruption_review_status x,
)

parse-show_disruption_resolution :
    (x : DisruptionResolution) → parse_disruption_resolution (show_disruption_resolution x) ≡ ok x
unfolding parse_disruption_resolution show_disruption_resolution
parse-show_disruption_resolution DisruptionResolution.retire = refl
parse-show_disruption_resolution DisruptionResolution.edit = refl
parse-show_disruption_resolution DisruptionResolution.keep = refl

show-parse_disruption_resolution :
    (s : String) (x : DisruptionResolution)
    → parse_disruption_resolution s ≡ ok x
    → show_disruption_resolution x ≡ s
unfolding parse_disruption_resolution show_disruption_resolution
show-parse_disruption_resolution s x h =
    ground (arith, eq_iff s "retire", eq_iff s "edit", eq_iff s "keep")

pub disruption_resolution-Wire : Wire show_disruption_resolution parse_disruption_resolution
disruption_resolution-Wire s x = (
  λ h. sym (show-parse_disruption_resolution s x h),
  λ h. ap parse_disruption_resolution h ∙ parse-show_disruption_resolution x,
)
