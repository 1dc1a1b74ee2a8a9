-- ===== src/Repo/Budgets.antt =====
-- crates/db/src/repo/retry_budget.rs: the failure counters, keyed by plan, scenario, failure class
-- and signature.
pub mod Release
pub mod Spent
pub mod Bridge
use sdi_plugin.Prelude.{
  ℕ, suc, String, Bool, not, ◌&&◌, Option, none, some, List, [], ◌∷◌, ◌++◌, map, ◌==◌,
  if◌then◌else◌, or_else, any, select, find, update, count, first,
}
use sdi_plugin.Prelude.Split.{text_le}
use sdi_plugin.Prelude.Text.{◌⧺◌}
use sdi_plugin.Domain.Error.{
  DomainError, validation, not_found, retry_budget_exhausted, Result, ok, err, ◌>>=◌, ◌>>◌, accept,
  refuse_if,
}
use sdi_plugin.Domain.Ids.{EntityId, Timestamp}
use sdi_plugin.Prelude.Int.{ℤ, pos, int_le}
use sdi_plugin.Domain.Decision.{Decision, DecisionStatus, decision_status_eq}
use sdi_plugin.Domain.Autonomy.{AutonomyPolicy}
use sdi_plugin.Domain.Verification.{
  FailureClass, failure_class_eq, show_failure_class, is_failure, run_id, RetryBudget,
  default_retry_budget_cap,
}
use sdi_plugin.Repo.Db.{Db, BudgetRow, foreign_key_violation, order_by}
use sdi_plugin.Repo.Plans
use sdi_plugin.Repo.Decisions
use sdi_plugin.Repo.Policies
use sdi_plugin.Repo.Action

abbrev pub cap_of : Option AutonomyPolicy → ℤ
cap_of none = pos default_retry_budget_cap
cap_of (some p) = p.retry_budget_cap

unfoldable pub cap_for_plan : Db → EntityId → Result ℤ
unfolding Policies.resolve
cap_for_plan db plan_id = do
  plan ← Plans.get db plan_id
  ok (cap_of (Policies.resolve db plan.project_id (some plan_id) none none))

unfoldable pub row_to_budget : ℤ → BudgetRow → RetryBudget
row_to_budget cap b = record {
  plan_id = b.plan_id;
  scenario_id = b.scenario_id;
  failure_class = b.failure_class;
  failure_signature = b.failure_signature;
  count = b.count;
  cap = cap;
  exhausted = int_le cap (pos b.count);
  first_run_id = b.first_run_id;
  last_run_id = b.last_run_id;
  last_failed_at = b.last_failed_at;
  released_by_decision_id = b.released_by_decision_id;
  released_at = b.released_at;
  total_failures = b.total_failures;
}

-- The primary key.
abbrev pub has_key : EntityId → EntityId → FailureClass → String → BudgetRow → Bool
has_key plan_id scenario_id class signature b =
    b.plan_id == plan_id
    && b.scenario_id == scenario_id
    && failure_class_eq b.failure_class class
    && b.failure_signature == signature

abbrev pub first_failure :
    EntityId → EntityId → FailureClass → String → EntityId → Timestamp → BudgetRow
first_failure plan_id scenario_id class signature run_id now = record {
  plan_id = plan_id;
  scenario_id = scenario_id;
  failure_class = class;
  failure_signature = signature;
  count = 1;
  total_failures = 1;
  first_run_id = some run_id;
  last_run_id = some run_id;
  last_failed_at = now;
  released_by_decision_id = none;
  released_at = none;
}

-- `ON CONFLICT DO UPDATE`
abbrev pub next_failure : EntityId → Timestamp → BudgetRow → BudgetRow
next_failure run_id now b = record b {
  count = suc b.count;
  total_failures = suc b.total_failures;
  first_run_id = or_else b.first_run_id (some run_id);
  last_run_id = some run_id;
  last_failed_at = now;
}

abbrev pub book :
    EntityId
    → EntityId
    → FailureClass
    → String
    → EntityId
    → Timestamp
    → List BudgetRow
    → List BudgetRow
book plan_id scenario_id class signature run_id now rows =
    if any (has_key plan_id scenario_id class signature) rows
    then update (has_key plan_id scenario_id class signature) (next_failure run_id now) rows
    else rows ++ first_failure plan_id scenario_id class signature run_id now ∷ []

-- The statement that books one failure.
unfoldable pub write_failure :
    EntityId → EntityId → FailureClass → String → EntityId → Timestamp → Db → Result Db
write_failure plan_id scenario_id class signature run_id now db = do
  refuse_if
      (not (
        Plans.has_plan db plan_id
        && any (λ s. s.id == scenario_id) db.scenarios
        && any (λ r. r.id == run_id) db.runs))
      foreign_key_violation
  ok (record db { budgets = book plan_id scenario_id class signature run_id now db.budgets })

abbrev pub read_budget : ℤ → Option BudgetRow → Result RetryBudget
read_budget cap none = err (not_found "row not found")
read_budget cap (some b) = ok (row_to_budget cap b)

unfoldable pub record_failure :
    EntityId → EntityId → FailureClass → String → EntityId → Timestamp → Action.Action RetryBudget
unfolding is_failure write_failure cap_for_plan row_to_budget
record_failure plan_id scenario_id class signature run_id now =
    Action.◌▸◌
      (Action.query λ _.
        refuse_if (not (is_failure class))
          (validation "retry budget only books failures (class none given)"))
      (Action.◌▸◌ (Action.exec (write_failure plan_id scenario_id class signature run_id now)) (
        Action.query λ db. do
          cap ← cap_for_plan db plan_id
          read_budget cap (find (has_key plan_id scenario_id class signature) db.budgets)))

abbrev pub matches : EntityId → Option EntityId → BudgetRow → Bool
matches plan_id none b = b.plan_id == plan_id
matches plan_id (some sid) b = b.plan_id == plan_id && b.scenario_id == sid

-- `ORDER BY scenario_id, failure_class, failure_signature`
abbrev pub budget_le : BudgetRow → BudgetRow → Bool
budget_le a b =
    if a.scenario_id == b.scenario_id
    then (if show_failure_class a.failure_class == show_failure_class b.failure_class
        then text_le a.failure_signature b.failure_signature
        else text_le (show_failure_class a.failure_class) (show_failure_class b.failure_class))
    else text_le a.scenario_id b.scenario_id

-- `list`
unfoldable pub list_budgets : Db → EntityId → Option EntityId → Result (List RetryBudget)
unfolding cap_for_plan row_to_budget
list_budgets db plan_id scenario_id = do
  cap ← cap_for_plan db plan_id
  ok (
      map (row_to_budget cap)
        (order_by budget_le (select (matches plan_id scenario_id) db.budgets)))

unfoldable pub exhausted_for : Db → EntityId → List EntityId → Result (List RetryBudget)
unfolding list_budgets
exhausted_for db plan_id [] = ok []
exhausted_for db plan_id (sid ∷ sids) = do
  budgets ← list_budgets db plan_id (some sid)
  rest ← exhausted_for db plan_id sids
  ok (select (λ b. b.exhausted) budgets ++ rest)

unfoldable pub exhausted_error : RetryBudget → DomainError
exhausted_error b =
    retry_budget_exhausted b.scenario_id (show_failure_class b.failure_class) b.failure_signature
      b.count b.cap

abbrev pub refuse_exhausted : Option RetryBudget → Result (Unit {0})
refuse_exhausted none = accept
refuse_exhausted (some b) = err (exhausted_error b)

unfoldable pub ensure_available : Db → EntityId → List EntityId → Result (Unit {0})
unfolding exhausted_for exhausted_error
ensure_available db plan_id scenario_ids = do
  exhausted ← exhausted_for db plan_id scenario_ids
  refuse_exhausted (first exhausted)

-- `decision::get(..).map_err(..)`
abbrev pub speaking_decision : EntityId → Result Decision → Result Decision
speaking_decision decision_id (ok d) = ok d
speaking_decision decision_id (err _) =
    err (validation ("decision " ⧺ (decision_id ⧺ " not found")))

abbrev pub to_release : EntityId → EntityId → Option String → BudgetRow → Bool
to_release plan_id scenario_id none b = b.plan_id == plan_id && b.scenario_id == scenario_id
to_release plan_id scenario_id (some s) b =
    b.plan_id == plan_id && b.scenario_id == scenario_id && b.failure_signature == s

abbrev pub reset : EntityId → Timestamp → BudgetRow → BudgetRow
reset decision_id now b = record b {
  count = 0;
  released_by_decision_id = some decision_id;
  released_at = some now;
}

abbrev pub with_signature : Option String → String
with_signature none = ""
with_signature (some s) = " with signature " ⧺ s

-- The new tables and the number of rows that changed.
unfoldable pub release :
    EntityId → EntityId → Option String → EntityId → Timestamp → Db → Result (Db × ℕ)
unfolding Decisions.get
release plan_id scenario_id signature decision_id now db = do
  d ← speaking_decision decision_id (Decisions.get db decision_id)
  refuse_if (not (d.plan_id == plan_id)) (
      validation
        ("decision " ⧺ (decision_id ⧺ (" belongs to plan " ⧺ (d.plan_id ⧺ (", not " ⧺ plan_id))))))
  refuse_if (decision_status_eq d.status DecisionStatus.superseded) (
      validation ("decision " ⧺ (decision_id ⧺ " is superseded and cannot release a retry budget")))
  refuse_if (not (any (to_release plan_id scenario_id signature) db.budgets))
      (not_found ("no retry budget for scenario " ⧺ (scenario_id ⧺ with_signature signature)))
  ok (
    record db {
      budgets =
          update (to_release plan_id scenario_id signature) (reset decision_id now) db.budgets;
    },
    count (to_release plan_id scenario_id signature) db.budgets,
  )
