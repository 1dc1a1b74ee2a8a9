-- ===== src/Router/Runs.antt =====
-- crates/daemon/src/router/run.rs: finishing a run, and the lists of runs. The files of reports, the
-- paths of the work tree, the lower case of Unicode and SHA-256 are the parameter `Host`. Events are
-- not modelled.
pub mod Booking
pub mod Assess
pub mod Finished
pub mod Verified
use sdi_plugin.Prelude.{
  ℕ, zero, suc, ◌+◌, ◌-◌, ◌≤◌, ◌<◌, String, ◌≡◌, refl, sym, ap, ◌≢◌, ◌↔◌, ◌⊎◌, inl, inr, Bool, true,
  false, not, ◌&&◌, ◌||◌, Option, none, some, List, [], ◌∷◌, ◌++◌, map, arith, ◌==◌, eq_iff,
  eq_refl, if◌then◌else◌, ltb, leb, nat_eq, is_some, is_none, or_else, length, any, is_empty,
  select, find, update, count, first, All, Has, Bool-cases, Option-cases,
}
use sdi_plugin.Prelude.Split.{text_le}
use sdi_plugin.Prelude.Text.{
  ◌⧺◌, is_blank, trim, strip_prefix, has_prefix, contains, any_char, show_ℕ, show_ℤ, str_is_empty,
}
use sdi_plugin.Domain.Error.{
  DomainError, invalid_transition, validation, not_found, scenarios_required, gwt_empty,
  evidence_required, invalid_round_mode, disruption_pending, snapshot_violation, conflict,
  consensus_missing_critique, autonomy_gate_blocked, retry_budget_exhausted, evidence_run_invalid,
  evidence_stale, baseline_locked, harness_failure_unresolved, Result, ok, err, ◌>>=◌, ◌>>◌, accept,
  refuse_if, show_error,
}
use sdi_plugin.Domain.Ids.{EntityId, Timestamp}
use sdi_plugin.Repo.Db.{
  Db, foreign_key_violation, primary_key_violation, unique_violation, order_by, opt_eq,
}
use sdi_plugin.Repo.Action.{Action, ◌▹◌, ◌▸◌, pure, exec, query, transaction}
use sdi_plugin.Prelude.Int.{ℤ, pos, negsuc}
use sdi_plugin.Prelude.{◌*◌, and-eq-true}
use sdi_plugin.Domain.Run.{Run, RunResult, run_result_eq, parse_run_result, FailureIdentity}
use sdi_plugin.Domain.Verification.{
  FailureClass, failure_class_eq, show_failure_class, parse_failure_class, is_failure, SpawnError,
  parse_spawn_error, ExecOutcome, passed, RetryBudget, caller_signature, failure_signature,
}
use sdi_plugin.Domain.Verification.Classify.{Classification, classify}
use sdi_plugin.Domain.Verification.Cause.{FailureCauseIdentity, derive_failure_cause}

-- The digest of a report, the text at its end, and whether a front of it was left out.
pub record Report : Type 0 where
  pub sha256 : Option String
  pub output : String
  pub truncated : Bool

pub record Host : Type 0 where
  pub to_lowercase : String → String
  pub sha256_hex : String → String
  pub is_file : String → Bool
  pub in_state_dir : String → Bool
  pub read_report : String → Result Report
  -- `workspace::toplevel` and `workspace::in_repo_path`, for a working directory and a raw path.
  pub in_repo_path : Option String → String → Option String

pub record FinishRunBody : Type 0 where
  pub result : Option String
  pub notes : Option String
  pub exit_code : Option ℤ
  pub signal : Option ℤ
  pub timed_out : Option Bool
  pub spawn_error : Option String
  pub failure_class : Option String
  pub failure_signature : Option String
  pub duration_ms : Option ℤ

unfoldable pub is_structured : FinishRunBody → Bool
is_structured b =
    is_some b.exit_code
    || is_some b.signal
    || is_some b.timed_out
    || is_some b.spawn_error
    || is_some b.failure_class
    || is_some b.failure_signature

-- `map(from_str).transpose()?`
abbrev pub parse_given {ℓ} : {A : Type ℓ} → (String → Result A) → Option String → Result (Option A)
parse_given parse none = ok none
parse_given parse (some raw) = do a ← parse raw; ok (some a)

abbrev pub is_true : Option Bool → Bool
is_true none = false
is_true (some b) = b

unfoldable pub outcome_of : FinishRunBody → Result ExecOutcome
outcome_of b = do
  spawn_error ← parse_given parse_spawn_error b.spawn_error
  ok (record {
    exit_code = b.exit_code;
    signal = b.signal;
    timed_out = is_true b.timed_out;
    spawn_error = spawn_error;
  })

abbrev pub no_report : Report
no_report = record { sha256 = none; output = ""; truncated = false }

abbrev pub report_at : Host → String → Result Report
report_at host path =
    if not (host.is_file path)
    then ok no_report
    else if not (host.in_state_dir path)
    then err (validation ("report path " ⧺ (path ⧺ " is outside the daemon state directory")))
    else host.read_report path

abbrev pub report_of : Host → Option String → Result Report
report_of host none = ok no_report
report_of host (some path) = report_at host path

abbrev pub result_of : ExecOutcome → Option String → Result RunResult
result_of outcome (some raw) = parse_run_result raw
result_of outcome none = ok (if passed outcome then RunResult.success else RunResult.failure)

abbrev pub class_of : RunResult → Classification → Option String → Result FailureClass
class_of result c (some raw) = parse_failure_class raw
class_of result c none =
    ok (if run_result_eq result RunResult.success then FailureClass.no_failure else c.failure_class)

unfoldable pub check_class : RunResult → FailureClass → Result (Unit {0})
check_class RunResult.success class = refuse_if (is_failure class) (
    validation ("a successful run cannot carry failure class `" ⧺ (show_failure_class class ⧺ "`")))
check_class RunResult.failure class =
    refuse_if (not (is_failure class))
      (validation "a failed run needs a failure class other than `none`")
check_class RunResult.aborted class = accept

-- An aborted run carries no verdict.
abbrev pub settled_class : RunResult → FailureClass → FailureClass
settled_class result class =
    if run_result_eq result RunResult.aborted then FailureClass.no_failure else class

abbrev pub is_execution : Run → FinishRunBody → Bool
is_execution r b =
    is_some r.command
    || is_some b.exit_code
    || is_some b.signal
    || is_some b.timed_out
    || is_some b.spawn_error

abbrev pub join_args : List String → String
join_args [] = ""
join_args (a ∷ []) = a
join_args (a ∷ b ∷ as') = a ⧺ (" " ⧺ join_args (b ∷ as'))

abbrev pub or_empty : Option EntityId → String
or_empty none = ""
or_empty (some id) = id

abbrev pub contract_id : Option EntityId → Option (List String) → Option EntityId → String
contract_id (some s) command task_id = s
contract_id none (some c) task_id = join_args c
contract_id none none task_id = or_empty task_id

abbrev pub text_unless : Bool → String → String
text_unless b s = if b then "" else s

-- What the handler knows before the transaction.
pub record Assessed : Type 0 where
  pub outcome : ExecOutcome
  pub report : Report
  pub classification : Classification
  pub result : RunResult
  pub class : FailureClass
  pub caller_hint : Option String
  pub contract : String
  pub computed : Option FailureCauseIdentity

abbrev pub computed_cause :
    Host
    → Run
    → FinishRunBody
    → String
    → FailureClass
    → Classification
    → Report
    → Option FailureCauseIdentity
computed_cause host r b contract class c report =
    if is_failure class && is_execution r b
    then some (
        derive_failure_cause host.sha256_hex contract class c.error_class
          (text_unless report.truncated report.output) (host.in_repo_path r.cwd))
    else none

unfoldable pub assess : Host → Run → FinishRunBody → Result Assessed
unfolding outcome_of check_class caller_signature classify is_failure derive_failure_cause
assess host r b = do
  outcome ← outcome_of b
  report ← report_of host r.report_path
  let c = classify host.to_lowercase outcome report.output (host.in_repo_path r.cwd)
  result ← result_of outcome b.result
  refuse_if (run_result_eq result RunResult.success && not (passed outcome))
      (validation ("result `success` contradicts the exit status (" ⧺ (c.reason ⧺ ")")))
  given ← class_of result c b.failure_class
  check_class result given
  caller_hint ← parse_given caller_signature b.failure_signature
  let class = settled_class result given
  let contract = contract_id r.scenario_id r.command r.task_id
  ok (record {
    outcome = outcome;
    report = report;
    classification = c;
    result = result;
    class = class;
    caller_hint = caller_hint;
    contract = contract;
    computed = computed_cause host r b contract class c report;
  })
