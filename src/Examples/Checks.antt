-- ===== src/Examples/Checks.antt =====
-- The theorems on crates/core at concrete inputs.
use sdi_plugin.Prelude.{
  String, ◌≡◌, refl, ◌≢◌, ◌↔◌, ◌⊎◌, inl, true, false, Option, none, some, [], ◌∷◌, arith, All,
}
use sdi_plugin.Prelude.Text.{is_blank, trim, strip_prefix, str_is_empty, has_prefix, contains}
use sdi_plugin.Domain.Error.{ok, accept}
use sdi_plugin.Domain.Autonomy.{
  AutonomyMode, AutonomyScopeKind, satisfies, effective_mode, is_forced_l4, floor_for_kind,
  validate_mode_against_kind,
}
use sdi_plugin.Domain.Autonomy.Modes.{effective_mode-meet, validate_mode_against_kind_iff}
use sdi_plugin.Domain.Scenario.{Parsed, entries, validate_gwt, validate_claimed_resources}
use sdi_plugin.Domain.Scenario.Checks.{IsClaim, validate_gwt_iff, validate_claimed_resources_iff}
use sdi_plugin.Domain.Task.{TaskStatus, validate_for_done}
use sdi_plugin.Domain.Task.Transitions.{HasRef, Steps, validate_for_done_iff, Steps-terminal}
use sdi_plugin.Domain.Verification.{ExecOutcome, is_failure, passed, caller_signature}
use sdi_plugin.Domain.Verification.References.{IsNamespaced, caller_signature_iff}
use sdi_plugin.Domain.Verification.Blame.{IsOwnExit, classify-no_failure, classify-product}
use sdi_plugin.Domain.Verification.Classify.{
  classify, decide, on_failure, on_exit, on_exit_code, on_output,
}
use sdi_plugin.Prelude.Int.{pos}
use sdi_plugin.Examples.Data.{evidence_1}

effective_mode-meet_example :
    (satisfies AutonomyMode.l3 (effective_mode AutonomyMode.l5 AutonomyMode.l4) ≡ true) ↔ (
      (satisfies AutonomyMode.l3 AutonomyMode.l5 ≡ true)
      × (satisfies AutonomyMode.l3 AutonomyMode.l4 ≡ true))
effective_mode-meet_example = effective_mode-meet AutonomyMode.l5 AutonomyMode.l4 AutonomyMode.l3

validate_mode_against_kind_iff_example :
    (validate_mode_against_kind AutonomyScopeKind.decision_kind (some "schema") AutonomyMode.l4
      ≡ accept)
    ↔ ((AutonomyMode.l4 ≡ AutonomyMode.l3)
        ⊎ ((AutonomyMode.l4 ≡ AutonomyMode.l4) × (is_forced_l4 "schema" ≡ true)))
validate_mode_against_kind_iff_example = validate_mode_against_kind_iff "schema" AutonomyMode.l4

-- A kind that is not forced is held to L3.
general_kind_l4 :
    validate_mode_against_kind AutonomyScopeKind.decision_kind (some "general") AutonomyMode.l4
    ≢ accept
unfolding validate_mode_against_kind satisfies floor_for_kind
general_kind_l4 h = ground (arith, h)

validate_gwt_iff_example :
    (validate_gwt "a" "b" " " ≡ accept)
    ↔ ((is_blank "a" ≡ false) × (is_blank "b" ≡ false) × (is_blank " " ≡ false))
validate_gwt_iff_example = validate_gwt_iff "a" "b" " "

abbrev from_json : String → Parsed
from_json s = entries (s ∷ [])

validate_claimed_resources_iff_example :
    (validate_claimed_resources from_json "src/a.rs" ≡ ok ("src/a.rs" ∷ []))
    ↔ ((from_json "src/a.rs" ≡ entries ("src/a.rs" ∷ [])) × All IsClaim ("src/a.rs" ∷ []))
validate_claimed_resources_iff_example =
    validate_claimed_resources_iff from_json "src/a.rs" ("src/a.rs" ∷ [])

validate_for_done_iff_example : (validate_for_done evidence_1 ≡ accept) ↔ (
    ((evidence_1.scenarios ≢ []) ⊎ (evidence_1.summary ≢ none)) × All HasRef evidence_1.scenarios)
validate_for_done_iff_example = validate_for_done_iff evidence_1

Steps-terminal_example : TaskStatus.done ≡ TaskStatus.done
Steps-terminal_example =
    Steps-terminal TaskStatus.done TaskStatus.done (Steps.stay TaskStatus.done) (inl refl)

-- A caller's text that has the prefix of a computed signature is recorded as it stands.
caller_signature_iff_example :
    (caller_signature " sig:x" ≡ ok "sig:x")
    ↔ ((str_is_empty (trim " sig:x") ≡ false) × IsNamespaced (trim " sig:x") "sig:x")
caller_signature_iff_example = caller_signature_iff " sig:x" "sig:x"

abbrev lower : String → String
lower s = s

abbrev outside : String → Option String
outside _ = none

abbrev failed : ExecOutcome
failed = record { exit_code = some (pos 101); signal = none; timed_out = false; spawn_error = none }

classify-no_failure_example :
    (is_failure (classify lower failed "assertion failed" outside).failure_class ≡ false)
    ↔ (passed failed ≡ true)
classify-no_failure_example = classify-no_failure lower failed "assertion failed" outside

classify-product_example : IsOwnExit none false none (some (pos 101))
unfolding classify decide passed on_failure on_exit on_exit_code on_output contains has_prefix
    strip_prefix
classify-product_example = classify-product lower failed "assertion failed" outside refl
