-- ===== src/Router/Gates.antt =====
-- crates/daemon/src/router/verification.rs: the gates on evidence, on the retry budget and on the
-- completion of a round.
pub mod Evidence
pub mod Budget
pub mod Blocked
use sdi_plugin.Prelude.{
  String, Bool, true, false, not, ◌&&◌, Option, none, some, List, [], ◌∷◌, map, is_none, is_empty,
  select, first,
}
use sdi_plugin.Prelude.Text.{◌⧺◌, show_ℤ}
use sdi_plugin.Domain.Error.{
  validation, evidence_run_invalid, evidence_stale, harness_failure_unresolved, Result, ok, err,
  ◌>>=◌, ◌>>◌, accept, refuse_if,
}
use sdi_plugin.Domain.Ids.{EntityId}
use sdi_plugin.Prelude.Int.{ℤ}
use sdi_plugin.Domain.Scenario.{
  ScenarioResult, scenario_result_eq, show_scenario_result, is_daemon_assigned,
}
use sdi_plugin.Domain.Verification.{
  FailureClass, show_failure_class, is_infrastructure, EvidenceRef, parse_evidence_ref, run_id,
  RetryBudget,
}
use sdi_plugin.Domain.Run.{Run, RunResult, is_result, is_clean_pass}
use sdi_plugin.Repo.Db.{Db, opt_eq}
use sdi_plugin.Domain.Run.{show_run_result}
use sdi_plugin.Domain.Verification.{run, free}
use sdi_plugin.Repo.Runs
use sdi_plugin.Repo.Runs.{Workspace, Freshness}
use sdi_plugin.Repo.Budgets
use sdi_plugin.Repo.Scenarios

abbrev pub existing_run : EntityId → Result Run → Result Run
existing_run id (ok r) = ok r
existing_run id (err _) = err (evidence_run_invalid ("run " ⧺ (id ⧺ " does not exist")))

abbrev pub or_none : Option String → String
or_none none = "none"
or_none (some s) = s

abbrev pub show_result : Option RunResult → String
show_result none = "none"
show_result (some r) = show_run_result r

abbrev pub show_code : Option ℤ → String
show_code none = "none"
show_code (some c) = show_ℤ c

abbrev pub show_class : Option FailureClass → String
show_class none = "none"
show_class (some c) = show_failure_class c

-- A run evidences `passing` if it passed cleanly, `failing` if it failed, and nothing else.
unfoldable pub check_verdict : EntityId → Run → ScenarioResult → Result (Unit {0})
unfolding is_clean_pass
check_verdict id r ScenarioResult.passing = refuse_if (not (is_clean_pass r)) (
    evidence_run_invalid (
      "run "
      ⧺ (id
          ⧺ (" did not pass (result "
              ⧺ (show_result r.result
                  ⧺ (", exit "
                      ⧺ (show_code r.exit_code
                          ⧺ (", class "
                              ⧺ (show_class r.failure_class
                                  ⧺ ") and cannot evidence `passing`")))))))))
check_verdict id r ScenarioResult.failing =
    refuse_if (not (is_result RunResult.failure r.result))
      (evidence_run_invalid ("run " ⧺ (id ⧺ " did not fail and cannot evidence `failing`")))
check_verdict id r other = err (
    evidence_run_invalid (
      "a run reference evidences `passing` or `failing`, not `"
      ⧺ (show_scenario_result other ⧺ "`")))

abbrev pub or_mismatch : Option String → String
or_mismatch none = "fingerprint mismatch"
or_mismatch (some s) = s

abbrev pub check_fresh : EntityId → EntityId → Freshness → Result (Unit {0})
check_fresh id scenario_id f = refuse_if (not f.fresh) (
    evidence_stale (
      "run "
      ⧺ (id
          ⧺ (": "
              ⧺ (or_mismatch f.reason
                  ⧺ (" — re-run `sdi run verify --scenario "
                      ⧺ (scenario_id ⧺ " …` against the current inputs")))))))

unfoldable pub validate_run_evidence :
    Workspace → Db → EntityId → EntityId → ScenarioResult → EntityId → Result Run
unfolding check_verdict Runs.get_run Runs.freshness
validate_run_evidence w db plan_id scenario_id verdict run_id = do
  r ← existing_run run_id (Runs.get_run db run_id)
  refuse_if (not (opt_eq r.scenario_id scenario_id)) (
      evidence_run_invalid (
        "run "
        ⧺ (run_id
            ⧺ (" is not linked to scenario "
                ⧺ (scenario_id ⧺ (" (linked: " ⧺ (or_none r.scenario_id ⧺ ")")))))))
  refuse_if (not (opt_eq r.plan_id plan_id))
      (evidence_run_invalid ("run " ⧺ (run_id ⧺ " belongs to another plan")))
  refuse_if (is_none r.finished_at) (evidence_run_invalid ("run " ⧺ (run_id ⧺ " has not finished")))
  check_verdict run_id r verdict
  check_fresh run_id scenario_id (Runs.freshness w db r)
  ok r

abbrev pub spend : ScenarioResult → Bool → Option RetryBudget → Result (Unit {0})
spend verdict proven none = accept
spend verdict proven (some b) =
    refuse_if (not (scenario_result_eq verdict ScenarioResult.passing && proven))
      (Budgets.exhausted_error b)

unfoldable pub ensure_completion_budget :
    Db → EntityId → EntityId → ScenarioResult → Bool → Result (Unit {0})
unfolding Budgets.exhausted_for
ensure_completion_budget db plan_id scenario_id verdict proven_by_run = do
  exhausted ← Budgets.exhausted_for db plan_id (scenario_id ∷ [])
  spend verdict proven_by_run (first exhausted)

abbrev pub check_parsed :
    Workspace → Db → EntityId → EntityId → ScenarioResult → EvidenceRef → Result Bool
check_parsed w db plan_id scenario_id verdict (run id) = do
  r ← validate_run_evidence w db plan_id scenario_id verdict id
  ok true
check_parsed w db plan_id scenario_id verdict (free _) = ok false

abbrev pub check_raw :
    Workspace → Db → EntityId → EntityId → ScenarioResult → Option String → Result Bool
check_raw w db plan_id scenario_id verdict none = ok false
check_raw w db plan_id scenario_id verdict (some raw) = do
  e ← parse_evidence_ref raw
  check_parsed w db plan_id scenario_id verdict e

-- Whether the verdict is proven by a run; a verdict of the daemon's own is refused.
unfoldable pub check_evidence_ref :
    Workspace → Db → EntityId → EntityId → ScenarioResult → Option String → Result Bool
unfolding is_daemon_assigned
check_evidence_ref w db plan_id scenario_id verdict evidence_ref = do
  refuse_if (is_daemon_assigned verdict) (
      validation (
        "`"
        ⧺ (show_scenario_result verdict
            ⧺ "` is assigned by the daemon (stale carried pass) and cannot be submitted")))
  check_raw w db plan_id scenario_id verdict evidence_ref

abbrev pub has_infrastructure_class : Option FailureClass → Bool
has_infrastructure_class none = false
has_infrastructure_class (some c) = is_infrastructure c

abbrev pub bound_and_live : Db → Option EntityId → Bool
bound_and_live db none = false
bound_and_live db (some sid) = not (Scenarios.is_retired_now db sid)

-- The body of the loop: the run blocks the round.
abbrev pub blocks : Db → Run → Bool
blocks db r = has_infrastructure_class r.failure_class && bound_and_live db r.scenario_id

abbrev pub or_unknown : Option String → String
or_unknown none = "unknown"
or_unknown (some s) = s

abbrev pub blocked_text : Run → String
blocked_text r =
    or_none r.scenario_id
    ⧺ (" (run "
        ⧺ (r.id ⧺ (": " ⧺ (show_class r.failure_class ⧺ ("/" ⧺ (or_unknown r.error_class ⧺ ")"))))))

abbrev pub join_texts : List String → String
join_texts [] = ""
join_texts (t ∷ []) = t
join_texts (t ∷ u ∷ ts) = t ⧺ ("; " ⧺ join_texts (u ∷ ts))

unfoldable pub ensure_no_unresolved_infrastructure_failures : Db → EntityId → Result (Unit {0})
unfolding is_infrastructure Runs.latest_finished_per_scenario_in_round
ensure_no_unresolved_infrastructure_failures db round_id =
    let blocked = select (blocks db) (Runs.latest_finished_per_scenario_in_round db round_id) in
    refuse_if (not (is_empty blocked)) (
      harness_failure_unresolved (
        join_texts (map blocked_text blocked)
        ⧺ " — fix the harness/environment and record a passing `sdi run verify` for each"))
