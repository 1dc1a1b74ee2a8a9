-- ===== src/Examples/Data.antt =====
-- A store with a plan, two scenarios, two rounds, a task and its runs.
use sdi_plugin.Prelude.{ℕ, String, false, Option, none, some, [], ◌∷◌}
use sdi_plugin.Domain.Error.{ok}
use sdi_plugin.Domain.Ids.{EntityId}
use sdi_plugin.Domain.Plan.{Plan, PlanStatus}
use sdi_plugin.Domain.Scenario.{Scenario, ScenarioStatus, ScenarioResult}
use sdi_plugin.Domain.Pattern.{ClaimStatus}
use sdi_plugin.Domain.Round.{Round, RoundStatus, RoundMode, InFlightPolicy, DisruptionPolicy}
use sdi_plugin.Domain.Task.{Task, TaskStatus, TaskEvidence}
use sdi_plugin.Domain.Run.{Run, RunResult}
use sdi_plugin.Domain.Verification.{FailureClass}
use sdi_plugin.Domain.Decision.{Decision, DecisionStatus, DecisionKind}
use sdi_plugin.Domain.Autonomy.{AutonomyPolicy, AutonomyScopeKind, AutonomyMode}
use sdi_plugin.Repo.Db.{Db, RoundRow, ResultRow, BudgetRow}
use sdi_plugin.Repo.Runs.{Workspace}
use sdi_plugin.Prelude.Int.{pos}

abbrev pub plan_1 : Plan
plan_1 = record {
  id = "PLAN-1";
  project_id = "PROJ-1";
  short_code = "P1";
  title = "t";
  body = "b";
  status = PlanStatus.active;
  version = 1;
  produced_via_pattern_id = none;
  created_at = 1;
  updated_at = 1;
  approved_at = some 1;
  completed_at = none;
}

abbrev pub scenario_of : EntityId → String → Scenario
scenario_of id code = record {
  id = id;
  plan_id = "PLAN-1";
  short_code = code;
  given = "g";
  when_clause = "w";
  then_clause = "t";
  tags = [];
  origin_round_id = none;
  status = ScenarioStatus.confirmed;
  depends_on = [];
  produced_by = none;
  verified_by = none;
  claimed_resources_json = "[]";
  claim_status = ClaimStatus.unclaimed;
  produced_via_pattern_id = none;
  retired_at = none;
  belongs_to_flow_id = none;
  covers_flow_step = none;
  created_at = 1;
  updated_at = 1;
}

abbrev pub round_of : EntityId → ℕ → RoundStatus → Round
round_of id n status = record {
  id = id;
  plan_id = "PLAN-1";
  short_code = id;
  round_number = n;
  mode = RoundMode.strict_regression;
  in_flight_policy = InFlightPolicy.pause;
  disruption_policy = DisruptionPolicy.needs_review;
  status = status;
  produced_via_pattern_id = none;
  created_at = 1;
  updated_at = 1;
  activated_at = none;
  completed_at = none;
}

abbrev pub row_of : Round → RoundRow
row_of r = record {
  round = r;
  baseline_json = none;
  baseline_commit = none;
  baseline_snapshot = some (("SCN-1", "S1", "passing") ∷ []);
  baseline_recorded_at = some 1;
  baseline_decision_id = none;
}

abbrev pub task_1 : Task
task_1 = record {
  id = "TASK-1";
  round_id = "ROUND-1";
  plan_id = "PLAN-1";
  short_code = "T1";
  description = "d";
  status = TaskStatus.in_progress;
  kind = "impl";
  parent_scenario_ids = "SCN-1" ∷ [];
  parent_requirement_ids = [];
  evidence = none;
  produced_via_pattern_id = none;
  created_at = 1;
  updated_at = 1;
  evidence_at = none;
  completed_at = none;
}

abbrev pub run_1 : Run
run_1 = record {
  id = "RUN-1";
  task_id = none;
  plan_id = some "PLAN-1";
  round_id = some "ROUND-1";
  scenario_id = some "SCN-1";
  actor = "a";
  session_id = none;
  started_at = 1;
  finished_at = some 2;
  result = some RunResult.success;
  notes = none;
  payload = "{}";
  command = some ("cargo" ∷ []);
  cwd = some "/w";
  input_globs = [];
  tool_versions = [];
  input_fingerprint = some "fp";
  exit_code = some (pos 0);
  signal = none;
  timed_out = false;
  spawn_error = none;
  report_path = none;
  report_sha256 = none;
  failure_class = none;
  failure_signature = none;
  failure_identity = none;
  error_class = none;
  failing_test = none;
  duration_ms = none;
}

abbrev pub budget_1 : BudgetRow
budget_1 = record {
  plan_id = "PLAN-1";
  scenario_id = "SCN-1";
  failure_class = FailureClass.product;
  failure_signature = "sig:1";
  count = 3;
  total_failures = 5;
  first_run_id = none;
  last_run_id = none;
  last_failed_at = 1;
  released_by_decision_id = none;
  released_at = none;
}

abbrev pub decision_of : EntityId → DecisionKind → Option EntityId → Decision
decision_of id kind proposal_id = record {
  id = id;
  plan_id = "PLAN-1";
  short_code = id;
  title = "t";
  body = "b";
  status = DecisionStatus.proposed;
  supersedes_id = none;
  kind = kind;
  proposal_id = proposal_id;
  agent_name = none;
  escalated_at = none;
  produced_via_pattern_id = none;
  reversal_plan = none;
  blast_radius_score = pos 2;
  reversal_of = none;
  supersede_when = none;
  created_at = 1;
}

abbrev pub policy_1 : AutonomyPolicy
policy_1 = record {
  id = "APOL-1";
  project_id = "PROJ-1";
  plan_id = none;
  scope_kind = AutonomyScopeKind.decision_kind;
  decision_kind = some "schema";
  pattern_kind = none;
  mode = AutonomyMode.l4;
  l5_threshold = pos 5;
  pattern_depth_cap = pos 3;
  retry_budget_cap = pos 7;
  plan_single_session_lock = false;
  external_surface = false;
  timeout_ms = none;
  forced = false;
  set_at = 1;
  set_by = "u";
  reason = none;
  created_at = 1;
  updated_at = 1;
}

abbrev pub passing_row : ResultRow
passing_row = record {
  round_id = "ROUND-0";
  scenario_id = "SCN-1";
  result = ScenarioResult.passing;
  note = none;
  evidence_ref = some "run:RUN-1";
  updated_at = 1;
}

abbrev pub store : Db
store = record {
  plans = plan_1 ∷ [];
  patterns = [];
  scenarios = scenario_of "SCN-1" "S1" ∷ scenario_of "SCN-2" "S2" ∷ [];
  rounds =
      row_of (round_of "ROUND-0" 1 RoundStatus.completed)
      ∷ row_of (round_of "ROUND-1" 2 RoundStatus.active)
      ∷ row_of (round_of "ROUND-2" 3 RoundStatus.planning)
      ∷ [];
  results =
      passing_row
      ∷ record passing_row {
        round_id = "ROUND-1";
        scenario_id = "SCN-2";
        result = ScenarioResult.failing;
        evidence_ref = none;
      }
      ∷ [];
  tasks = task_1 ∷ [];
  runs = run_1 ∷ [];
  budgets = budget_1 ∷ [];
  decisions =
      decision_of "DEC-1" DecisionKind.proposal none
      ∷ decision_of "DEC-2" DecisionKind.critique (some "DEC-1")
      ∷ [];
  policies = policy_1 ∷ [];
  reviews = [];
  relations = [];
  leases = [];
  projects = [];
  project_cwds = [];
}

-- A store in which no budget is spent.
abbrev pub calm : Db
calm = record store { budgets = record budget_1 { count = 1 } ∷ [] }

abbrev pub workspace : Workspace
workspace = record { sha256_hex = λ s. s; fingerprint = λ _ _ _ _ _. ok "fp" }

abbrev pub evidence_1 : TaskEvidence
evidence_1 = record {
  scenarios =
      record {
        scenario_id = "S1";
        result = ScenarioResult.passing;
        evidence_ref = "run:RUN-1";
        note = none;
      }
      ∷ [];
  summary = none;
  extras = [];
}
