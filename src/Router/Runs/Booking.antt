-- ===== src/Router/Runs/Booking.antt =====
-- crates/daemon/src/router/run.rs and verification.rs: the transaction that ends a run and books its
-- failure, and the handler.
use sdi_plugin.Prelude.{
  String, Bool, not, ◌&&◌, Option, none, some, List, if◌then◌else◌, is_some, is_none, or_else,
}
use sdi_plugin.Prelude.Text.{◌⧺◌, has_prefix}
use sdi_plugin.Domain.Error.{validation, Result, ok, err, ◌>>=◌, ◌>>◌, refuse_if}
use sdi_plugin.Domain.Ids.{EntityId, Timestamp}
use sdi_plugin.Repo.Db.{Db}
use sdi_plugin.Repo.Action.{Action, ◌▹◌, ◌▸◌, pure, exec, query, transaction}
use sdi_plugin.Domain.Run.{Run, RunResult, parse_run_result, FailureIdentity}
use sdi_plugin.Domain.Verification.{
  FailureClass, failure_class_eq, is_failure, RetryBudget, failure_signature,
}
use sdi_plugin.Domain.Verification.Cause.{FailureCauseIdentity}
use sdi_plugin.Repo.Runs.{get_run}
use sdi_plugin.Repo.Runs.Finish.{
  RunFinish, insert_run, list_runs_by_task, list_runs_by_session, list_runs_by_scenario,
}
use sdi_plugin.Repo.Runs.Finish
use sdi_plugin.Repo.Budgets.{record_failure}
use sdi_plugin.Repo.Budgets.Bridge.{compatibility_bucket}
use sdi_plugin.Router.Runs.{Host, FinishRunBody, Assessed, is_structured, assess}

abbrev pub is_fallback : FailureCauseIdentity → Bool
is_fallback i = has_prefix "sig:v2:fallback:" i.signature

-- The counter that the failure has to be booked on, for a computed cause of a scenario's run.
abbrev pub bridge_for :
    Assessed
    → Option FailureCauseIdentity
    → Option EntityId
    → Option EntityId
    → Db
    → Result (Option RetryBudget)
bridge_for a (some i) (some plan_id) (some scenario_id) db =
    compatibility_bucket db plan_id scenario_id a.class (is_fallback i)
bridge_for a _ _ _ db = ok none

abbrev pub bridged : FailureCauseIdentity → Option RetryBudget → String
bridged i none = i.signature
bridged i (some b) = b.failure_signature

-- A caller cannot name a diagnosed cause.
abbrev pub hinted : Host → Assessed → Option String → String
hinted host a (some raw) = if has_prefix "sig:v2:" raw then "caller:" ⧺ raw else raw
hinted host a none =
    failure_signature host.sha256_hex a.contract a.class a.classification.failing_test
      a.classification.error_class a.classification.top_frame

abbrev pub signature_of :
    Host → Assessed → Option FailureCauseIdentity → Option RetryBudget → Option String
signature_of host a (some i) bridge = some (bridged i bridge)
signature_of host a none bridge =
    if is_failure a.class then some (hinted host a a.caller_hint) else none

abbrev pub bridge_reason : FailureCauseIdentity → Option RetryBudget → Option String
bridge_reason i none = none
bridge_reason i (some _) =
    some (if is_fallback i then "diagnostic-unavailable" else "outstanding-coarse-budget")

abbrev pub identity_of :
    Assessed
    → Option FailureCauseIdentity
    → Option RetryBudget
    → Option String
    → Option FailureIdentity
identity_of a none bridge signature = none
identity_of a (some i) bridge signature = some (record {
  computed = i;
  scope = "primary-only";
  diagnostic_unavailable = if a.report.truncated then some "report-scan-truncated" else none;
  booked_signature = signature;
  caller_hint = a.caller_hint;
  compatibility_bridge = bridge_reason i bridge;
})

abbrev pub finish_of : Host → Assessed → FinishRunBody → Option RetryBudget → RunFinish
finish_of host a b bridge = record {
  result = some a.result;
  notes = or_else b.notes (some a.classification.reason);
  exit_code = a.outcome.exit_code;
  signal = a.outcome.signal;
  timed_out = a.outcome.timed_out;
  spawn_error = a.outcome.spawn_error;
  report_sha256 = a.report.sha256;
  failure_class = some a.class;
  failure_signature = signature_of host a a.computed bridge;
  failure_identity = identity_of a a.computed bridge (signature_of host a a.computed bridge);
  error_class = if is_failure a.class then some a.classification.error_class else none;
  failing_test = a.classification.failing_test;
  duration_ms = b.duration_ms;
}

abbrev pub booked : RetryBudget → Option RetryBudget
booked b = some b

abbrev pub book_as :
    EntityId
    → Timestamp
    → Option FailureClass
    → Option String
    → Option EntityId
    → Option EntityId
    → Action (Option RetryBudget)
book_as run_id now (some class) (some signature) (some plan_id) (some scenario_id) =
    if failure_class_eq class FailureClass.no_failure
    then pure none
    else record_failure plan_id scenario_id class signature run_id now ▹ λ b. pure (booked b)
book_as run_id now _ _ _ _ = pure none

unfoldable pub book_failure : Run → Timestamp → Action (Option RetryBudget)
unfolding record_failure
book_failure r now = book_as r.id now r.failure_class r.failure_signature r.plan_id r.scenario_id

pub record Ended : Type 0 where
  pub run : Run
  pub budget : Option RetryBudget

abbrev pub book_ended : Timestamp → Run → Action Ended
book_ended now fresh =
    book_failure fresh now ▹ λ budget. pure (record { run = fresh; budget = budget })

abbrev pub end_and_book :
    Host → EntityId → Assessed → FinishRunBody → Timestamp → Option RetryBudget → Action Ended
end_and_book host id a b now bridge =
    exec (Finish.finish_structured id (finish_of host a b bridge) now)
    ▸ (query (λ db. get_run db id) ▹ book_ended now)

-- The selection of the signature, the end of the run and its debit.
unfoldable pub finish_and_book :
    Host → EntityId → Run → Assessed → FinishRunBody → Timestamp → Action Ended
unfolding Finish.finish_structured book_failure compatibility_bucket
finish_and_book host id r a b now =
    query (bridge_for a a.computed r.plan_id r.scenario_id) ▹ end_and_book host id a b now

abbrev pub unfinished_run : Db → EntityId → Result Run
unfinished_run db id = do
  r ← get_run db id
  refuse_if (is_some r.finished_at) (validation ("run " ⧺ (id ⧺ " already finished")))
  ok r

abbrev pub plain_result : Option String → Result RunResult
plain_result none = err (validation "result required (success|failure|aborted)")
plain_result (some raw) = parse_run_result raw

abbrev pub without_budget : Run → Ended
without_budget r = record { run = r; budget = none }

abbrev pub write_plain : EntityId → FinishRunBody → Timestamp → RunResult → Action Ended
write_plain id b now result =
    exec (Finish.finish_run id result b.notes now)
    ▸ (query (λ db. get_run db id) ▹ λ r. pure (without_budget r))

unfoldable pub finish_plainly : EntityId → FinishRunBody → Timestamp → Action Ended
unfolding Finish.finish_run
finish_plainly id b now = query (λ _. plain_result b.result) ▹ write_plain id b now

abbrev pub finish_by : Host → EntityId → FinishRunBody → Timestamp → Run → Action Ended
finish_by host id b now r =
    if not (is_structured b) && is_none r.command
    then finish_plainly id b now
    else query (λ _. assess host r b) ▹ λ a. transaction (finish_and_book host id r a b now)

unfoldable pub finish_run : Host → EntityId → FinishRunBody → Timestamp → Action Ended
unfolding is_structured finish_plainly assess finish_and_book get_run
finish_run host id b now = query (λ db. unfinished_run db id) ▹ finish_by host id b now

abbrev pub lists_for : Db → Option EntityId → Option String → Option EntityId → Result (List Run)
lists_for db (some t) s c = ok (list_runs_by_task db t)
lists_for db none (some s) c = ok (list_runs_by_session db s)
lists_for db none none (some c) = ok (list_runs_by_scenario db c)
lists_for db none none none = err (validation "task_id, session_id or scenario_id required")

unfoldable pub list_runs :
    Option EntityId → Option String → Option EntityId → Db → Result (List Run)
unfolding list_runs_by_task list_runs_by_session list_runs_by_scenario
list_runs task_id session_id scenario_id db = lists_for db task_id session_id scenario_id
