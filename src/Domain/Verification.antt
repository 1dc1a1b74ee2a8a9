-- ===== src/Domain/Verification.antt =====
-- crates/core/src/verification.rs: failure classes, process outcomes and evidence references. The
-- readers of a report and the classification are the child modules.
pub mod Extract
pub mod Classify
pub mod References
pub mod Blame
pub mod Cause
use sdi_plugin.Prelude.{
  if◌then◌else◌, ℕ, ◌-◌, String, Bool, true, false, not, ◌&&◌, ◌||◌, Option, none, some, ◌==◌,
  is_none, count,
}
use sdi_plugin.Prelude.Text.{◌⧺◌, trim, strip_prefix, has_prefix, str_is_empty}
use sdi_plugin.Domain.Error.{
  ◌>>◌, ◌>>=◌, validation, evidence_run_invalid, Result, ok, err, refuse_if,
}
use sdi_plugin.Domain.Ids.{EntityId, Timestamp}
use Prim.Native.Char.{code}
use sdi_plugin.Prelude.Int.{ℤ, pos, int_eq}

-- Who is at fault; `no_failure` is the source's `FailureClass::None`.
pub data FailureClass : Type 0 where
  product harness environment spec no_failure : FailureClass

unfoldable pub show_failure_class : FailureClass → String
show_failure_class FailureClass.product = "product"
show_failure_class FailureClass.harness = "harness"
show_failure_class FailureClass.environment = "environment"
show_failure_class FailureClass.spec = "spec"
show_failure_class FailureClass.no_failure = "none"

unfoldable pub parse_failure_class : String → Result FailureClass
parse_failure_class s =
    if s == "product"
    then ok FailureClass.product
    else if s == "harness"
    then ok FailureClass.harness
    else if s == "environment"
    then ok FailureClass.environment
    else if s == "spec"
    then ok FailureClass.spec
    else if s == "none"
    then ok FailureClass.no_failure
    else err (
        validation
          ("unknown failure class: " ⧺ (s ⧺ " (expected product|harness|environment|spec|none)")))

abbrev pub failure_class_eq : FailureClass → FailureClass → Bool
failure_class_eq FailureClass.product FailureClass.product = true
failure_class_eq FailureClass.harness FailureClass.harness = true
failure_class_eq FailureClass.environment FailureClass.environment = true
failure_class_eq FailureClass.spec FailureClass.spec = true
failure_class_eq FailureClass.no_failure FailureClass.no_failure = true
failure_class_eq _ _ = false

unfoldable pub is_failure : FailureClass → Bool
is_failure FailureClass.no_failure = false
is_failure _ = true

unfoldable pub is_infrastructure : FailureClass → Bool
is_infrastructure FailureClass.harness = true
is_infrastructure FailureClass.environment = true
is_infrastructure _ = false

-- Why a command could not be spawned; `absent` is the source's `NotFound`.
pub data SpawnError : Type 0 where
  absent permission_denied other : SpawnError

unfoldable pub show_spawn_error : SpawnError → String
show_spawn_error SpawnError.absent = "not-found"
show_spawn_error SpawnError.permission_denied = "permission-denied"
show_spawn_error SpawnError.other = "other"

unfoldable pub parse_spawn_error : String → Result SpawnError
parse_spawn_error s =
    if s == "not-found"
    then ok SpawnError.absent
    else if s == "permission-denied"
    then ok SpawnError.permission_denied
    else if s == "other"
    then ok SpawnError.other
    else err (
        validation
          ("unknown spawn error: " ⧺ (s ⧺ " (expected not-found|permission-denied|other)")))

pub record ExecOutcome : Type 0 where
  pub exit_code : Option ℤ
  pub signal : Option ℤ
  pub timed_out : Bool
  pub spawn_error : Option SpawnError

abbrev pub is_exit : ℕ → Option ℤ → Bool
is_exit n none = false
is_exit n (some code) = int_eq code (pos n)

unfoldable pub passed : ExecOutcome → Bool
passed o = is_exit 0 o.exit_code && is_none o.signal && not o.timed_out && is_none o.spawn_error

abbrev pub default_retry_budget_cap : ℕ
default_retry_budget_cap = 3

pub data EvidenceRef : Type 0 where
  run : EntityId → EvidenceRef
  free : String → EvidenceRef

-- What follows `run:`.
abbrev pub parse_run_id : String → Result EvidenceRef
parse_run_id id = do
  refuse_if (str_is_empty id) (evidence_run_invalid "run reference `run:` carries no run id")
  ok (run id)

abbrev pub parse_stripped : String → Option String → Result EvidenceRef
parse_stripped trimmed (some id) = parse_run_id (trim id)
parse_stripped trimmed none = ok (free trimmed)

unfoldable pub parse_evidence_ref : String → Result EvidenceRef
parse_evidence_ref raw = parse_stripped (trim raw) (strip_prefix "run:" (trim raw))

unfoldable pub run_id : EvidenceRef → Option EntityId
run_id (run id) = some id
run_id (free _) = none

abbrev pub or_blank : Option String → String
or_blank none = ""
or_blank (some s) = s

-- The coarse signature; the digest is a parameter.
unfoldable pub failure_signature :
    (String → String) → String → FailureClass → Option String → String → Option String → String
failure_signature sha256_hex contract_id class failing_test error_class top_frame =
    "sig:"
    ⧺ sha256_hex (
        "sdi-failure-signature-v1\ncontract:"
        ⧺ (contract_id
            ⧺ ("\nclass:"
                ⧺ (show_failure_class class
                    ⧺ ("\ntest:"
                        ⧺ (or_blank failing_test
                            ⧺ ("\nerror:"
                                ⧺ (error_class ⧺ ("\nframe:" ⧺ (or_blank top_frame ⧺ "\n"))))))))))

-- A caller's signature may not pass for a computed one.
unfoldable pub caller_signature : String → Result String
caller_signature raw = do
  refuse_if (str_is_empty (trim raw)) (validation "failure signature must not be empty")
  if has_prefix "caller:" (trim raw) || has_prefix "sig:" (trim raw)
      then ok (trim raw)
      else ok ("caller:" ⧺ trim raw)

pub record RetryBudget : Type 0 where
  pub plan_id : EntityId
  pub scenario_id : EntityId
  pub failure_class : FailureClass
  pub failure_signature : String
  pub count : ℕ
  pub cap : ℤ
  pub exhausted : Bool
  pub first_run_id : Option EntityId
  pub last_run_id : Option EntityId
  pub last_failed_at : Timestamp
  pub released_by_decision_id : Option EntityId
  pub released_at : Option Timestamp
  pub total_failures : ℕ
