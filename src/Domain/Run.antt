-- ===== src/Domain/Run.antt =====
-- crates/core/src/run.rs: runs, task relations and leases. JSON payloads are kept as their text.
use sdi_plugin.Prelude.{
  String, Bool, true, false, not, ◌&&◌, Option, none, some, List, ◌==◌, if◌then◌else◌, is_some,
  is_none,
}
use sdi_plugin.Prelude.Text.{◌⧺◌}
use sdi_plugin.Domain.Error.{validation, Result, ok, err}
use sdi_plugin.Domain.Ids.{EntityId, Timestamp}
use sdi_plugin.Prelude.Int.{ℤ}
use sdi_plugin.Domain.Verification.{FailureClass, SpawnError, is_exit}
use sdi_plugin.Domain.Verification.Cause.{FailureCauseIdentity}

-- How a run ended.
pub data RunResult : Type 0 where
  success failure aborted : RunResult

unfoldable pub show_run_result : RunResult → String
show_run_result RunResult.success = "success"
show_run_result RunResult.failure = "failure"
show_run_result RunResult.aborted = "aborted"

unfoldable pub parse_run_result : String → Result RunResult
parse_run_result s =
    if s == "success"
    then ok RunResult.success
    else if s == "failure"
    then ok RunResult.failure
    else if s == "aborted"
    then ok RunResult.aborted
    else err (validation ("unknown run result: " ⧺ s))

abbrev pub run_result_eq : RunResult → RunResult → Bool
run_result_eq RunResult.success RunResult.success = true
run_result_eq RunResult.failure RunResult.failure = true
run_result_eq RunResult.aborted RunResult.aborted = true
run_result_eq _ _ = false

-- The JSON object that the finish handler stores, field by field.
pub record FailureIdentity : Type 0 where
  pub computed : FailureCauseIdentity
  pub scope : String
  pub diagnostic_unavailable : Option String
  pub booked_signature : Option String
  pub caller_hint : Option String
  pub compatibility_bridge : Option String

pub record Run : Type 0 where
  pub id : EntityId
  pub task_id : Option EntityId
  pub plan_id : Option EntityId
  pub round_id : Option EntityId
  pub scenario_id : Option EntityId
  pub actor : String
  pub session_id : Option String
  pub started_at : Timestamp
  pub finished_at : Option Timestamp
  pub result : Option RunResult
  pub notes : Option String
  pub payload : String
  pub command : Option (List String)
  pub cwd : Option String
  pub input_globs : List String
  pub tool_versions : List (String × String)
  pub input_fingerprint : Option String
  pub exit_code : Option ℤ
  pub signal : Option ℤ
  pub timed_out : Bool
  pub spawn_error : Option SpawnError
  pub report_path : Option String
  pub report_sha256 : Option String
  pub failure_class : Option FailureClass
  pub failure_signature : Option String
  pub failure_identity : Option FailureIdentity
  pub error_class : Option String
  pub failing_test : Option String
  pub duration_ms : Option ℤ

abbrev pub is_result : RunResult → Option RunResult → Bool
is_result r none = false
is_result r (some q) = run_result_eq q r

unfoldable pub is_clean_pass : Run → Bool
is_clean_pass r =
    is_some r.finished_at
    && is_result RunResult.success r.result
    && is_exit 0 r.exit_code
    && is_none r.signal
    && not r.timed_out
    && is_none r.spawn_error

-- Links between tasks.
pub data RelationKind : Type 0 where
  parent blocks depends_on duplicates related : RelationKind

unfoldable pub show_relation_kind : RelationKind → String
show_relation_kind RelationKind.parent = "parent"
show_relation_kind RelationKind.blocks = "blocks"
show_relation_kind RelationKind.depends_on = "depends-on"
show_relation_kind RelationKind.duplicates = "duplicates"
show_relation_kind RelationKind.related = "related"

unfoldable pub parse_relation_kind : String → Result RelationKind
parse_relation_kind s =
    if s == "parent"
    then ok RelationKind.parent
    else if s == "blocks"
    then ok RelationKind.blocks
    else if s == "depends-on"
    then ok RelationKind.depends_on
    else if s == "duplicates"
    then ok RelationKind.duplicates
    else if s == "related"
    then ok RelationKind.related
    else err (validation ("unknown relation kind: " ⧺ s))

pub record TaskRelation : Type 0 where
  pub id : EntityId
  pub parent_id : EntityId
  pub child_id : EntityId
  pub kind : RelationKind
  pub created_at : Timestamp

abbrev pub relation_kind_eq : RelationKind → RelationKind → Bool
relation_kind_eq RelationKind.parent RelationKind.parent = true
relation_kind_eq RelationKind.blocks RelationKind.blocks = true
relation_kind_eq RelationKind.depends_on RelationKind.depends_on = true
relation_kind_eq RelationKind.duplicates RelationKind.duplicates = true
relation_kind_eq RelationKind.related RelationKind.related = true
relation_kind_eq _ _ = false

-- The right to write to a task, until it expires.
pub record TaskLease : Type 0 where
  pub task_id : EntityId
  pub holder : String
  pub acquired_at : Timestamp
  pub heartbeat_at : Timestamp
  pub expires_at : Timestamp
