-- ===== src/Router/Runs/Assess.antt =====
-- crates/daemon/src/router/run.rs: what the checks of the finish handler leave to be written.
use sdi_plugin.Prelude.{
  ◌≡◌, refl, Bool, true, false, not, ◌&&◌, none, some, arith, if◌then◌else◌, is_some, Bool-cases,
}
use sdi_plugin.Domain.Error.{ok, accept}
use sdi_plugin.Domain.Results.{guard-ok, >>-ok, >>=-ok, refuse_if-ok, not-false, ok-injective}
use mathlib.Core.Path.{subst}
use sdi_plugin.Domain.Run.{Run, RunResult, run_result_eq}
use sdi_plugin.Domain.Verification.{FailureClass, is_failure, ExecOutcome, passed, caller_signature}
use sdi_plugin.Domain.Verification.Classify.{classify}
use sdi_plugin.Domain.Verification.Cause.{FailureCauseIdentity}
use sdi_plugin.Router.Runs.{
  Host, FinishRunBody, Assessed, assess, outcome_of, report_of, result_of, class_of, check_class,
  settled_class, parse_given,
}

-- A result, the exit of the process and the class of the failure that fit together.
abbrev pub Agrees : RunResult → ExecOutcome → FailureClass → Type 0
Agrees RunResult.success o class = (passed o ≡ true) × (is_failure class ≡ false)
Agrees RunResult.failure o class = is_failure class ≡ true
Agrees RunResult.aborted o class = is_failure class ≡ false

-- Only a failure has a computed cause.
abbrev pub IsFitting : Assessed → Type 0
IsFitting a =
    Agrees a.result a.outcome a.class × (is_some a.computed ≡ true → is_failure a.class ≡ true)

settled-Agrees :
    (result : RunResult) (o : ExecOutcome) (given : FailureClass)
    → (run_result_eq result RunResult.success && not (passed o)) ≡ false
    → check_class result given ≡ accept
    → Agrees result o (settled_class result given)
unfolding check_class is_failure
settled-Agrees RunResult.success o given p h =
    (ground (arith, Bool-cases (passed o)), refuse_if-ok _ _ h)
settled-Agrees RunResult.failure o given p h = not-false _ (refuse_if-ok _ _ h)
settled-Agrees RunResult.aborted o given p h = refl

computed-failure :
    (b c : Bool) (i : FailureCauseIdentity)
    → is_some (if b && c then some i else none) ≡ true
    → b ≡ true
computed-failure true c i h = refl
computed-failure false c i h = h

pub assess-IsFitting :
    (host : Host) (r : Run) (b : FinishRunBody) (a : Assessed)
    → assess host r b ≡ ok a
    → IsFitting a
unfolding assess
assess-IsFitting host r b a h =
    let (outcome, _, h1) = >>=-ok (outcome_of b) _ a h in
    let (report, _, h2) = >>=-ok (report_of host r.report_path) _ a h1 in
    let c = classify host.to_lowercase outcome report.output (host.in_repo_path r.cwd) in
    let (result, _, h3) = >>=-ok (result_of outcome b.result) _ a h2 in
    let (exit_fits, h4) = guard-ok _ _ _ _ h3 in
    let (given, _, h5) = >>=-ok (class_of result c b.failure_class) _ a h4 in
    let (class_fits, h6) = >>-ok (check_class result given) _ a h5 in
    let (hint, _, h7) = >>=-ok (parse_given caller_signature b.failure_signature) _ a h6 in
    subst IsFitting (ok-injective _ a h7)
      (settled-Agrees result outcome given exit_fits class_fits, λ k. computed-failure _ _ _ k)
