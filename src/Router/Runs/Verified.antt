-- ===== src/Router/Runs/Verified.antt =====
-- crates/daemon/src/router/run.rs: what the finish handler stores of a run that verified something.
use sdi_plugin.Prelude.{
  String, ◌≡◌, refl, Bool, true, false, not, ◌&&◌, Option, none, some, if◌then◌else◌, is_some, find,
}
use sdi_plugin.Domain.Error.{validation, Result, ◌>>=◌, refuse_if}
use sdi_plugin.Domain.Ids.{EntityId, Timestamp}
use sdi_plugin.Repo.Db.{Db}
use sdi_plugin.Repo.Action.{Action}
use sdi_plugin.Domain.Run.{Run, RunResult}
use sdi_plugin.Domain.Verification.{FailureClass, is_failure, ExecOutcome, RetryBudget}
use sdi_plugin.Repo.Runs.Finish.{
  RunFinish, insert_run, list_runs_by_task, list_runs_by_session, list_runs_by_scenario,
}
use sdi_plugin.Repo.Runs.Finish
use sdi_plugin.Router.Runs.Assess.{Agrees}
use sdi_plugin.Router.Runs.Booking.{Ended}
use sdi_plugin.Repo.Runs.Finish.{close, is_open_run}
use sdi_plugin.Repo.Budgets.{has_key, cap_for_plan, read_budget}

pub if-some : (b : Bool) {A : Type 0} (a : A) → is_some (if b then some a else none) ≡ b
if-some true a = refl
if-some false a = refl

abbrev only_failures : FailureClass → Result (Unit {0})
only_failures class =
    refuse_if (not (is_failure class))
      (validation "retry budget only books failures (class none given)")

abbrev read_back : EntityId → EntityId → FailureClass → String → Db → Result RetryBudget
read_back plan_id scenario_id class signature db = do
  cap ← cap_for_plan db plan_id
  read_budget cap (find (has_key plan_id scenario_id class signature) db.budgets)

-- What the debit answers, and that it changes no run.
abbrev Debited :
    FailureClass → Option EntityId → Option EntityId → Option RetryBudget → Db → Db → Type 0
Debited class p s budget db db' =
    (is_some budget ≡ (is_failure class && is_some p && is_some s)) × (db'.runs ≡ db.runs)

abbrev pub stored_outcome : Run → ExecOutcome
stored_outcome r = record {
  exit_code = r.exit_code;
  signal = r.signal;
  timed_out = r.timed_out;
  spawn_error = r.spawn_error;
}

-- A run that ended with a verdict: what is stored fits together, and a failure is signed and, for a
-- run of a scenario of a plan, booked.
pub record Verified (r : Run) (now : Timestamp) (e : Ended) : Type 0 where
  pub result : RunResult
  pub class : FailureClass
  pub stamped : e.run.finished_at ≡ some now
  pub stored_result : e.run.result ≡ some result
  pub stored_class : e.run.failure_class ≡ some class
  pub agrees : Agrees result (stored_outcome e.run) class
  pub is_signed : is_some e.run.failure_signature ≡ is_failure class
  pub is_booked :
      is_some e.budget ≡ (is_failure class && is_some r.plan_id && is_some r.scenario_id)
