-- ===== src/Domain/Error.antt =====
-- crates/core/src/error.rs: the domain errors, their wire codes and HTTP statuses, and the
-- `Result` that carries them. Messages are the texts that the source formats.
use sdi_plugin.Prelude.Int.{ℤ}
use sdi_plugin.Prelude.Text.{◌⧺◌, show_ℕ, show_ℤ}
use sdi_plugin.Prelude.{ℕ, String, Bool, true, false}

pub data DomainError : Type 0 where
  invalid_transition : (entity from to : String) → DomainError
  validation : String → DomainError
  not_found : String → DomainError
  plan_not_active : String → DomainError
  scenarios_required : DomainError
  gwt_empty : (field : String) → DomainError
  evidence_required : DomainError
  invalid_round_mode : String → DomainError
  path_invariant : String → DomainError
  disruption_pending : DomainError
  in_flight_task_pause : DomainError
  snapshot_violation : String → DomainError
  conflict : String → DomainError
  consensus_missing_critique : (proposal_id : String) → DomainError
  dissensus_escalated : DomainError
  autonomy_gate_blocked : (kind required actual : String) → DomainError
  circuit_breaker_active : DomainError
  retry_budget_exhausted :
      (scenario class signature : String) → (count : ℕ) → (cap : ℤ) → DomainError
  evidence_run_invalid : String → DomainError
  evidence_stale : String → DomainError
  baseline_locked : String → DomainError
  harness_failure_unresolved : String → DomainError

unfoldable pub code : DomainError → String
code (invalid_transition _ _ _) = "INVALID_TRANSITION"
code (validation _) = "VALIDATION"
code (not_found _) = "NOT_FOUND"
code (plan_not_active _) = "PLAN_NOT_ACTIVE"
code scenarios_required = "SCENARIOS_REQUIRED"
code (gwt_empty _) = "GWT_EMPTY"
code evidence_required = "EVIDENCE_REQUIRED"
code (invalid_round_mode _) = "INVALID_ROUND_MODE"
code (path_invariant _) = "PATH_INVARIANT_VIOLATION"
code disruption_pending = "DISRUPTION_PENDING"
code in_flight_task_pause = "IN_FLIGHT_TASK_PAUSE"
code (snapshot_violation _) = "SNAPSHOT_VIOLATION"
code (conflict _) = "CONFLICT"
code (consensus_missing_critique _) = "CONSENSUS_MISSING_CRITIQUE"
code dissensus_escalated = "DISSENSUS_ESCALATED"
code (autonomy_gate_blocked _ _ _) = "AUTONOMY_GATE_BLOCKED"
code circuit_breaker_active = "CIRCUIT_BREAKER_ACTIVE"
code (retry_budget_exhausted _ _ _ _ _) = "RETRY_BUDGET_EXHAUSTED"
code (evidence_run_invalid _) = "EVIDENCE_RUN_INVALID"
code (evidence_stale _) = "EVIDENCE_STALE"
code (baseline_locked _) = "BASELINE_LOCKED"
code (harness_failure_unresolved _) = "HARNESS_FAILURE_UNRESOLVED"

unfoldable pub http_status : DomainError → ℕ
http_status (not_found _) = 404
http_status (conflict _) = 409
http_status dissensus_escalated = 409
http_status (autonomy_gate_blocked _ _ _) = 403
http_status circuit_breaker_active = 423
http_status (retry_budget_exhausted _ _ _ _ _) = 409
http_status (evidence_stale _) = 409
http_status (baseline_locked _) = 409
http_status (harness_failure_unresolved _) = 409
http_status _ = 400

-- The `Display` that the `#[error]` attributes derive.
unfoldable pub show_error : DomainError → String
show_error (invalid_transition entity from to) =
    "invalid state transition: " ⧺ (entity ⧺ (" " ⧺ (from ⧺ (" -> " ⧺ to))))
show_error (validation m) = "validation error: " ⧺ m
show_error (not_found m) = "entity not found: " ⧺ m
show_error (plan_not_active m) = "plan must be active before this operation: " ⧺ m
show_error scenarios_required =
    "scenarios required: a plan needs at least one confirmed scenario before approval"
show_error (gwt_empty field) = "GWT field empty: " ⧺ field
show_error evidence_required = "evidence required for done transition"
show_error (invalid_round_mode m) = "round mode invalid: " ⧺ m
show_error (path_invariant m) = "path invariant violated (LM-8): " ⧺ m
show_error disruption_pending = "disruption pending — needs review"
show_error in_flight_task_pause = "in-flight task pause required"
show_error (snapshot_violation m) =
    "snapshot-only violation: " ⧺ (m ⧺ " (move history to a Decision via /decide)")
show_error (conflict m) = "conflict: " ⧺ m
show_error (consensus_missing_critique proposal_id) =
    "consensus stage requires ≥ 1 prior critique against proposal " ⧺ proposal_id
show_error dissensus_escalated = "dissensus escalated to human gate (mode-agnostic, per D20)"
show_error (autonomy_gate_blocked kind required actual) =
    "autonomy gate blocked: decision-kind "
    ⧺ (kind ⧺ (" requires mode " ⧺ (required ⧺ (" but policy is " ⧺ actual))))
show_error circuit_breaker_active =
    "circuit breaker active — all autonomy modes demoted to L3; explicit user approval required"
show_error (retry_budget_exhausted scenario class signature count cap) =
    "retry budget exhausted for scenario "
    ⧺ (scenario
        ⧺ (": "
            ⧺ (show_ℕ count
                ⧺ ("/"
                    ⧺ (show_ℤ cap
                        ⧺ (" "
                            ⧺ (class
                                ⧺ (" failure(s) with signature "
                                    ⧺ (signature
                                        ⧺ (". Stop retrying — escalate by opening a decision (`sdi decision create <PLAN> <SHORT> \"<title>\" --body …`) and release the budget with `sdi run release-budget --scenario "
                                            ⧺ (scenario
                                                ⧺ " --decision <DEC-ID>`. Cancelling, recreating or renaming tasks does not reset it")))))))))))
show_error (evidence_run_invalid m) = "run evidence rejected: " ⧺ m
show_error (evidence_stale m) = "run evidence is stale: " ⧺ m
show_error (baseline_locked m) = "round baseline is locked: " ⧺ m
show_error (harness_failure_unresolved m) =
    "round completion blocked by unresolved harness/environment failures: " ⧺ m

-- `DomainResult`
pub data Result {ℓ} (T : Type ℓ) : Type ℓ where
  err : DomainError → Result T
  ok : T → Result T

abbrev pub accept : Result (Unit {0})
accept = ok tt

-- `if test { return Err(e) }`
abbrev pub refuse_if : Bool → DomainError → Result (Unit {0})
refuse_if true e = err e
refuse_if false e = accept

-- The operator `?`: an error ends the function, and what follows goes on with the value.
infixl 5 ◌>>=◌
abbrev pub ◌>>=◌ {ℓ κ} : {T : Type ℓ} {U : Type κ} → Result T → (T → Result U) → Result U
r >>= rest = elim r [ err failure ↦ err failure | ok value ↦ rest value ]

infixl 5 ◌>>◌
abbrev pub ◌>>◌ {ℓ} : {U : Type ℓ} → Result (Unit {0}) → Result U → Result U
check >> rest = check >>= λ _. rest
