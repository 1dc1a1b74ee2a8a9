-- ===== src/Domain/Verification/Cause.antt =====
-- crates/core/src/verification/cause.rs: the identity of the cause of a failure, from the first
-- diagnostic of the report that can be acted on. SHA-256 and the paths of the work tree are parameters.
pub mod Texts
pub mod Normalize
pub mod Identity
use sdi_plugin.Prelude.{
  ℕ, zero, suc, ◌+◌, ◌-◌, ◌≤◌, ◌<◌, String, ◌≡◌, refl, sym, ap, ◌≢◌, ◌↔◌, ◌⊎◌, inl, inr, Bool, true,
  false, not, ◌&&◌, ◌||◌, Option, none, some, List, [], ◌∷◌, ◌++◌, map, arith, ◌==◌, eq_iff,
  eq_refl, if◌then◌else◌, ltb, leb, nat_eq, is_some, is_none, or_else, length, any, is_empty,
  select, find, update, count, first, All, Has, Bool-cases, Option-cases,
}
use sdi_plugin.Prelude.Split.{text_le}
use sdi_plugin.Prelude.Text.{
  ◌⧺◌, is_blank, trim, strip_prefix, has_prefix, contains, any_char, show_ℕ, show_ℤ, str_is_empty,
}
use sdi_plugin.Domain.Error.{
  DomainError, invalid_transition, validation, not_found, scenarios_required, gwt_empty,
  evidence_required, invalid_round_mode, disruption_pending, snapshot_violation, conflict,
  consensus_missing_critique, autonomy_gate_blocked, retry_budget_exhausted, evidence_run_invalid,
  evidence_stale, baseline_locked, harness_failure_unresolved, Result, ok, err, ◌>>=◌, ◌>>◌, accept,
  refuse_if, show_error,
}
use sdi_plugin.Domain.Ids.{EntityId, Timestamp}
use Prim.Native.Char.{Char, code}
use sdi_plugin.Prelude.Text.{between, is_whitespace, trim}
use sdi_plugin.Prelude.Split.{split_on, split_whitespace, lines, before}
use sdi_plugin.Prelude.{◌*◌}
use sdi_plugin.Domain.Verification.Extract.{is_digit, split_colon}
use sdi_plugin.Domain.Verification.Cause.Texts.{
  is_one_of, all_char, drop_front, from, behind, to_ascii_lowercase, strip_ansi,
}
use sdi_plugin.Domain.Verification.Cause.Normalize.{normalize, starts_with_any, is_listed}
use sdi_plugin.Domain.Verification.{FailureClass, show_failure_class}

pub record FailureCauseIdentity : Type 0 where
  pub version : ℕ
  pub basis : String
  pub diagnostic : Option String
  pub signature : String

unfoldable pub broad_error_class : String → String
broad_error_class class =
    if is_listed
      ("compile-error" ∷ "assertion" ∷ "panic" ∷ "timeout" ∷ "missing-binary" ∷ "permission-denied"
        ∷ "spawn-error" ∷ "not-executable" ∷ "oom" ∷ "disk-full" ∷ "network" ∷ "port-in-use"
        ∷ "fd-exhausted" ∷ [])
      class
    then class
    else "unknown"

abbrev pub is_detail : String → Bool
is_detail s = has_prefix "expected " s || has_prefix "found " s

abbrev pub detail_only : String → Option String
detail_only detail = if is_detail detail then some detail else none

abbrev pub span_detail_of : String → Option String
span_detail_of annotation =
    if has_prefix "^" annotation || has_prefix "-" annotation
    then detail_only (drop_front (λ c. is_one_of "^-" c || is_whitespace c) annotation)
    else none

unfoldable pub rust_span_detail : String → Option String
rust_span_detail line = elim (strip_prefix "|" line) [
  | none ↦ none
  | some rest ↦ span_detail_of (drop_front is_whitespace rest)
]

abbrev pub is_numbered : Option (String × String) → Bool
is_numbered none = false
is_numbered (some (frame, _)) = all_char is_digit frame

abbrev pub wrapper_prefixes : List String
wrapper_prefixes =
    "test " ∷ "thread '" ∷ "---- " ∷ "--- FAIL:" ∷ "FAILED " ∷ "at " ∷ "--> " ∷ "● " ∷ "failures:"
    ∷ []

unfoldable pub is_wrapper_line : String → Bool
unfolding split_colon
is_wrapper_line raw =
    let line = trim raw in
    starts_with_any wrapper_prefixes line || contains " | " line || is_numbered (split_colon line)

abbrev pub contains_any : List String → String → Bool
contains_any [] s = false
contains_any (p ∷ ps) s = contains p s || contains_any ps s

unfoldable pub startup_diagnostic : String → Option String
startup_diagnostic line =
    let lower = to_ascii_lowercase line in
    if contains_any ("sun_len" ∷ "socket" ∷ "unix" ∷ []) lower
      && contains "path" lower
      && contains_any ("too long" ∷ "exceed" ∷ "shorter than" ∷ "length limit" ∷ []) lower
    then some "startup:unix-socket-path-limit"
    else if contains_any ("mismatch" ∷ "incompatible" ∷ "unsupported" ∷ "does not match" ∷ []) lower
        && (contains "protocol" lower || contains "schema" lower)
    then some
        ("startup:" ⧺ ((if contains "protocol" lower then "protocol" else "schema") ⧺ "-mismatch"))
    else if contains_any ("database" ∷ "db " ∷ "writerlock" ∷ []) lower
        && contains_any ("already owned" ∷ "another process" ∷ "owner lock" ∷ "already locked" ∷ [])
            lower
    then some "startup:database-owner-lifetime"
    else none

module _ (in_repo_path : String → Option String) where
  -- A diagnostic with a code, from `error TS` or `error[E` on.
  abbrev pub coded : String → Option String → Option String
  coded diagnostic none = none
  coded diagnostic (some message) =
      if is_blank message || not (any_char is_digit (before ": " diagnostic))
      then none
      else some ("compiler:" ⧺ (before ": " diagnostic ⧺ (":" ⧺ normalize in_repo_path message)))

  abbrev pub uncoded : Option String → Option String
  uncoded none = none
  uncoded (some message) =
      if has_prefix "could not compile" message || has_prefix "aborting due to" message
      then none
      else if starts_with_any
          ("cannot " ∷ "unresolved " ∷ "mismatched " ∷ "expected " ∷ "missing " ∷ []) message
      then some ("compiler:" ⧺ normalize in_repo_path message)
      else none

  unfoldable pub compiler_diagnostic : String → Option String
  unfolding normalize
  compiler_diagnostic raw =
      let line = trim raw in
      elim (or_else (from "error TS" line) (from "error[E" line)) [
        | none ↦ uncoded (strip_prefix "error: " line)
        | some diagnostic ↦ coded diagnostic (behind ": " diagnostic)
      ]

  abbrev pub detail_of : String → String
  detail_of continuation =
      elim (or_else (strip_prefix "= note: " continuation) (rust_span_detail continuation)) [
        | none ↦ continuation
        | some d ↦ d
      ]

  -- The loop over the lines that follow a coded diagnostic.
  unfoldable pub with_details : String → List String → String
  unfolding rust_span_detail normalize
  with_details diagnostic [] = diagnostic
  with_details diagnostic (raw ∷ rest) =
      let continuation = trim raw in
      let detail = detail_of continuation in
      let same = with_details diagnostic rest in
      let more = with_details (diagnostic ⧺ (" | " ⧺ normalize in_repo_path detail)) rest in
      if starts_with_any ("error" ∷ "warning" ∷ "thread '" ∷ "test " ∷ []) continuation
      then diagnostic
      else if is_detail detail
      then more
      else same

  -- A bare type mismatch says too little to tell causes apart.
  abbrev pub actionable : String → Option String
  actionable diagnostic =
      if diagnostic == "compiler:error[E0308]:mismatched types" then none else some diagnostic

  abbrev pub supported : Option String → Option (Option String)
  supported none = none
  supported (some d) = some (some d)

  -- What one line says: `none` that the search goes on, `some none` that it ends without a diagnostic.
  unfoldable pub line_diagnostic : String → List String → Option (Option String)
  unfolding is_wrapper_line compiler_diagnostic with_details startup_diagnostic
  line_diagnostic line rest =
      if is_wrapper_line line then none else elim (compiler_diagnostic line) [
        | some d ↦ some (actionable (if contains "error[E" line then with_details d rest else d))
        | none ↦ supported (startup_diagnostic line)
      ]

  unfoldable pub find_diagnostic : List String → Option String
  unfolding line_diagnostic
  find_diagnostic [] = none
  find_diagnostic (line ∷ rest) = elim (line_diagnostic line rest) [
    | none ↦ find_diagnostic rest
    | some d ↦ d
  ]

abbrev pub material : String → FailureClass → String → String → String
material contract_id class basis detail =
    "sdi-failure-cause-v2\ncontract:"
    ⧺ (contract_id
        ⧺ ("\nclass:"
            ⧺ (show_failure_class class
                ⧺ ("\nbasis:" ⧺ (basis ⧺ ("\ndiagnostic:" ⧺ (detail ⧺ "\n")))))))

abbrev pub identity :
    (String → String) → String → FailureClass → String → Option String → FailureCauseIdentity
identity sha256_hex contract_id class error_class (some diagnostic) = record {
  version = 2;
  basis = "primary-diagnostic";
  diagnostic = some diagnostic;
  signature = "sig:v2:" ⧺ sha256_hex (material contract_id class "primary-diagnostic" diagnostic);
}
identity sha256_hex contract_id class error_class none = record {
  version = 2;
  basis = "coarse-fallback";
  diagnostic = none;
  signature =
      "sig:v2:fallback:"
      ⧺ sha256_hex (material contract_id class "coarse-fallback" (broad_error_class error_class));
}

unfoldable pub derive_failure_cause :
    (String → String)
    → String
    → FailureClass
    → String
    → String
    → (String → Option String)
    → FailureCauseIdentity
unfolding find_diagnostic broad_error_class strip_ansi
derive_failure_cause sha256_hex contract_id class error_class output in_repo_path =
    identity sha256_hex contract_id class error_class
      (find_diagnostic in_repo_path (lines (strip_ansi output)))
