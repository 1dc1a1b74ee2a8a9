-- ===== src/Router/Gates/Evidence.antt =====
-- crates/daemon/src/router/verification.rs: what the gates let through.
use sdi_plugin.Prelude.{
  String, ◌≡◌, refl, ap, true, false, Option, none, some, arith, eq_iff, is_none,
}
use sdi_plugin.Domain.Error.{Result, ok, err, accept}
use sdi_plugin.Domain.Ids.{EntityId}
use sdi_plugin.Domain.Results.{>>=-ok, refuse_if-ok, not-false}
use sdi_plugin.Domain.Scenario.{ScenarioResult}
use sdi_plugin.Domain.Run.{Run, RunResult, is_clean_pass, is_result}
use sdi_plugin.Repo.Db.{Db, opt_eq}
use sdi_plugin.Repo.Runs.{Workspace}
use sdi_plugin.Repo.Runs
use sdi_plugin.Router.Gates
use sdi_plugin.Prelude.{◌∙◌}
use mathlib.Core.Path.{subst}
use sdi_plugin.Domain.Results.{ok-injective}

-- What the verdict asks of the run: a clean pass, or a failure.
abbrev pub Supports : ScenarioResult → Run → Type 0
Supports ScenarioResult.passing r = is_clean_pass r ≡ true
Supports ScenarioResult.failing r = r.result ≡ some RunResult.failure
Supports _ r = ⊥

-- The run `r` evidences the verdict: it is linked to the scenario and to the plan, it has finished,
-- it supports the verdict, and its recorded inputs are the current ones.
pub record Evidences (w : Workspace) (db : Db) (plan_id scenario_id : EntityId)
    (verdict : ScenarioResult) (r : Run) : Type 0 where
  pub of_scenario : r.scenario_id ≡ some scenario_id
  pub of_plan : r.plan_id ≡ some plan_id
  pub finished : is_none r.finished_at ≡ false
  pub supports : Supports verdict r
  pub fresh : (Runs.freshness w db r).fresh ≡ true

opt_eq-true : (o : Option String) (s : String) → opt_eq o s ≡ true → o ≡ some s
opt_eq-true none s h = ground arith
opt_eq-true (some t) s h = ground (arith, eq_iff t s)

is_result-true :
    (o : Option RunResult) → is_result RunResult.failure o ≡ true → o ≡ some RunResult.failure
is_result-true none h = ground arith
is_result-true (some RunResult.success) h = ground arith
is_result-true (some RunResult.failure) h = refl
is_result-true (some RunResult.aborted) h = ground arith

check_verdict-ok :
    (id : EntityId) (r : Run) (v : ScenarioResult)
    → Gates.check_verdict id r v ≡ accept
    → Supports v r
unfolding Gates.check_verdict
check_verdict-ok id r ScenarioResult.passing h = not-false (is_clean_pass r) (refuse_if-ok _ _ h)
check_verdict-ok id r ScenarioResult.failing h =
    is_result-true r.result (not-false _ (refuse_if-ok _ _ h))
check_verdict-ok id r ScenarioResult.impacted h = ground arith
check_verdict-ok id r ScenarioResult.retired h = ground arith
check_verdict-ok id r ScenarioResult.needs_verification h = ground arith

existing_run-ok :
    (id : EntityId) (o : Result Run) (r : Run) → Gates.existing_run id o ≡ ok r → o ≡ ok r
existing_run-ok id (ok q) r h = ground arith
existing_run-ok id (err e) r h = ground arith

-- A run that passes the gate is the stored run of that id, and it evidences the verdict for this
-- scenario and this plan.
pub validate_run_evidence-Evidences :
    (w : Workspace) (db : Db) (plan_id scenario_id : EntityId) (verdict : ScenarioResult)
    (id : EntityId) (r : Run)
    → Gates.validate_run_evidence w db plan_id scenario_id verdict id ≡ ok r
    → (Runs.get_run db id ≡ ok r) × Evidences w db plan_id scenario_id verdict r
unfolding Gates.validate_run_evidence
validate_run_evidence-Evidences w db plan_id scenario_id verdict id r h =
    let (q, found, h1) = >>=-ok _ _ _ h in
    let (_, linked, h2) = >>=-ok _ _ _ h1 in
    let (_, planned, h3) = >>=-ok _ _ _ h2 in
    let (_, done, h4) = >>=-ok _ _ _ h3 in
    let (_, verdict_ok, h5) = >>=-ok _ _ _ h4 in
    let (_, fresh, h6) = >>=-ok _ _ _ h5 in
    let q_r = ok-injective q r h6 in
    let e : Evidences w db plan_id scenario_id verdict q = record {
      of_scenario = opt_eq-true q.scenario_id scenario_id (not-false _ (refuse_if-ok _ _ linked));
      of_plan = opt_eq-true q.plan_id plan_id (not-false _ (refuse_if-ok _ _ planned));
      finished = refuse_if-ok _ _ done;
      supports = check_verdict-ok id q verdict verdict_ok;
      fresh = not-false _ (refuse_if-ok _ _ fresh);
    } in
    (
      existing_run-ok id (Runs.get_run db id) q found ∙ ap ok q_r,
      subst (Evidences w db plan_id scenario_id verdict) q_r e,
    )
