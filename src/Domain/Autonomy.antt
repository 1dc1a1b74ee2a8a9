-- ===== src/Domain/Autonomy.antt =====
-- crates/core/src/autonomy_policy.rs: the modes L3, L4, L5, the policies that set them per scope,
-- and their validation.
pub mod Modes
use sdi_plugin.Prelude.{
  ℕ, String, Bool, true, false, not, ◌||◌, Option, none, some, ◌==◌, if◌then◌else◌, leb, is_some,
  is_none,
}
use sdi_plugin.Prelude.Text.{◌⧺◌}
use sdi_plugin.Domain.Error.{
  validation, autonomy_gate_blocked, Result, ok, err, ◌>>◌, accept, refuse_if,
}
use sdi_plugin.Domain.Ids.{EntityId, Timestamp}
use sdi_plugin.Prelude.Int.{ℤ}

-- Where a policy applies.
pub data AutonomyScopeKind : Type 0 where
  plan decision_kind pattern_kind global : AutonomyScopeKind

unfoldable pub show_autonomy_scope_kind : AutonomyScopeKind → String
show_autonomy_scope_kind AutonomyScopeKind.plan = "plan"
show_autonomy_scope_kind AutonomyScopeKind.decision_kind = "decision_kind"
show_autonomy_scope_kind AutonomyScopeKind.pattern_kind = "pattern_kind"
show_autonomy_scope_kind AutonomyScopeKind.global = "global"

unfoldable pub parse_autonomy_scope_kind : String → Result AutonomyScopeKind
parse_autonomy_scope_kind s =
    if s == "plan"
    then ok AutonomyScopeKind.plan
    else if s == "decision_kind"
    then ok AutonomyScopeKind.decision_kind
    else if s == "pattern_kind"
    then ok AutonomyScopeKind.pattern_kind
    else if s == "global"
    then ok AutonomyScopeKind.global
    else err (validation ("unknown autonomy scope_kind: " ⧺ s))

abbrev pub autonomy_scope_kind_eq : AutonomyScopeKind → AutonomyScopeKind → Bool
autonomy_scope_kind_eq AutonomyScopeKind.plan AutonomyScopeKind.plan = true
autonomy_scope_kind_eq AutonomyScopeKind.decision_kind AutonomyScopeKind.decision_kind = true
autonomy_scope_kind_eq AutonomyScopeKind.pattern_kind AutonomyScopeKind.pattern_kind = true
autonomy_scope_kind_eq AutonomyScopeKind.global AutonomyScopeKind.global = true
autonomy_scope_kind_eq _ _ = false

-- L3 asks, L4 acts with review, L5 acts and notifies.
pub data AutonomyMode : Type 0 where
  l3 l4 l5 : AutonomyMode

unfoldable pub show_autonomy_mode : AutonomyMode → String
show_autonomy_mode AutonomyMode.l3 = "L3"
show_autonomy_mode AutonomyMode.l4 = "L4"
show_autonomy_mode AutonomyMode.l5 = "L5"

unfoldable pub parse_autonomy_mode : String → Result AutonomyMode
parse_autonomy_mode s =
    if s == "L3"
    then ok AutonomyMode.l3
    else if s == "L4"
    then ok AutonomyMode.l4
    else if s == "L5"
    then ok AutonomyMode.l5
    else err (validation ("unknown autonomy mode: " ⧺ s))

abbrev pub autonomy_mode_eq : AutonomyMode → AutonomyMode → Bool
autonomy_mode_eq AutonomyMode.l3 AutonomyMode.l3 = true
autonomy_mode_eq AutonomyMode.l4 AutonomyMode.l4 = true
autonomy_mode_eq AutonomyMode.l5 AutonomyMode.l5 = true
autonomy_mode_eq _ _ = false

unfoldable pub is_forced_l4 : String → Bool
is_forced_l4 kind = kind == "architecture" || kind == "schema" || kind == "naming-canonical"

unfoldable pub floor_for_kind : String → AutonomyMode
unfolding is_forced_l4
floor_for_kind kind = if is_forced_l4 kind then AutonomyMode.l4 else AutonomyMode.l3

abbrev pub rank : AutonomyMode → ℕ
rank AutonomyMode.l3 = 0
rank AutonomyMode.l4 = 1
rank AutonomyMode.l5 = 2

unfoldable pub satisfies : AutonomyMode → AutonomyMode → Bool
satisfies mode floor = leb (rank mode) (rank floor)

abbrev pub demoted : AutonomyMode
demoted = AutonomyMode.l3

unfoldable pub default_pattern_kind_mode : String → AutonomyMode
default_pattern_kind_mode kind =
    if kind == "workflow"
    then AutonomyMode.l5
    else if kind == "graph"
    then AutonomyMode.l5
    else if kind == "swarm"
    then AutonomyMode.l4
    else if kind == "agents-as-tools"
    then AutonomyMode.l4
    else if kind == "direct"
    then AutonomyMode.l3
    else AutonomyMode.l3

unfoldable pub effective_mode : AutonomyMode → AutonomyMode → AutonomyMode
effective_mode plan_mode pattern_mode =
    if leb (rank plan_mode) (rank pattern_mode) then plan_mode else pattern_mode

pub record AutonomyPolicy : Type 0 where
  pub id : EntityId
  pub project_id : EntityId
  pub plan_id : Option EntityId
  pub scope_kind : AutonomyScopeKind
  pub decision_kind : Option String
  pub pattern_kind : Option String
  pub mode : AutonomyMode
  pub l5_threshold : ℤ
  pub pattern_depth_cap : ℤ
  pub retry_budget_cap : ℤ
  pub plan_single_session_lock : Bool
  pub external_surface : Bool
  pub timeout_ms : Option ℤ
  pub forced : Bool
  pub set_at : Timestamp
  pub set_by : String
  pub reason : Option String
  pub created_at : Timestamp
  pub updated_at : Timestamp

abbrev pub is_pattern_kind : String → Bool
is_pattern_kind pk =
    pk == "workflow" || pk == "graph" || pk == "swarm" || pk == "agents-as-tools" || pk == "direct"

abbrev pub check_pattern_kind : Option String → Result (Unit {0})
check_pattern_kind none = accept
check_pattern_kind (some pk) =
    refuse_if (not (is_pattern_kind pk)) (validation ("unknown pattern_kind: " ⧺ pk))

unfoldable pub validate_scope :
    AutonomyScopeKind → Option EntityId → Option String → Option String → Result (Unit {0})
validate_scope AutonomyScopeKind.plan for_plan for_decision for_pattern = do
  refuse_if (is_none for_plan) (validation "scope=plan requires plan_id")
  refuse_if (is_some for_decision) (validation "scope=plan forbids decision_kind")
  refuse_if (is_some for_pattern) (validation "scope=plan forbids pattern_kind")
validate_scope AutonomyScopeKind.decision_kind for_plan for_decision for_pattern = do
  refuse_if (is_none for_decision) (validation "scope=decision_kind requires decision_kind")
  refuse_if (is_some for_pattern) (validation "scope=decision_kind forbids pattern_kind")
validate_scope AutonomyScopeKind.pattern_kind for_plan for_decision for_pattern = do
  refuse_if (is_none for_pattern) (validation "scope=pattern_kind requires pattern_kind")
  refuse_if (is_some for_plan) (validation "scope=pattern_kind forbids plan_id")
  refuse_if (is_some for_decision) (validation "scope=pattern_kind forbids decision_kind")
  check_pattern_kind for_pattern
validate_scope AutonomyScopeKind.global for_plan for_decision for_pattern =
    refuse_if (is_some for_plan || is_some for_decision || is_some for_pattern)
      (validation "scope=global forbids plan_id / decision_kind / pattern_kind")

-- D17: a mode for a decision kind may not be weaker than the floor.
unfoldable pub validate_mode_against_kind :
    AutonomyScopeKind → Option String → AutonomyMode → Result (Unit {0})
unfolding satisfies floor_for_kind show_autonomy_mode
validate_mode_against_kind AutonomyScopeKind.decision_kind (some kind) mode =
    refuse_if (not (satisfies mode (floor_for_kind kind))) (
      autonomy_gate_blocked kind (show_autonomy_mode (floor_for_kind kind))
        (show_autonomy_mode mode))
validate_mode_against_kind _ _ _ = accept
