-- ===== src/Repo/Baseline.antt =====
-- crates/db/src/repo/round.rs: the baseline that a round records when it activates, the lock on it,
-- and progress against it. The percentage is a float, a parameter.
use sdi_plugin.Prelude.{
  String, Bool, true, false, not, ◌&&◌, ◌||◌, Option, none, some, List, map, ◌==◌, if◌then◌else◌,
  leb, nat_eq, is_some, or_else, any, select, update,
}
use sdi_plugin.Prelude.Split.{text_le}
use sdi_plugin.Prelude.Text.{◌⧺◌}
use sdi_plugin.Domain.Error.{
  validation, baseline_locked, Result, ok, err, ◌>>=◌, ◌>>◌, accept, refuse_if,
}
use sdi_plugin.Domain.Ids.{EntityId, Timestamp}
use sdi_plugin.Domain.Round.{Round, RoundStatus, round_status_eq, show_round_status}
use sdi_plugin.Domain.Scenario.{Scenario, ScenarioResult, scenario_result_eq, show_scenario_result}
use sdi_plugin.Domain.Decision.{Decision, DecisionStatus, decision_status_eq}
use sdi_plugin.Repo.Db.{Db, RoundRow, ResultRow, order_by}
use sdi_plugin.Repo.Scenarios
use sdi_plugin.Repo.Decisions
use sdi_plugin.Repo.Rounds

abbrev pub superseding : EntityId → Result Decision → Result Decision
superseding decision_id (ok d) = ok d
superseding decision_id (err _) = err (validation ("decision " ⧺ (decision_id ⧺ " not found")))

unfoldable pub check_superseding_decision : Db → Round → EntityId → Result (Unit {0})
unfolding Decisions.get
check_superseding_decision db round decision_id = do
  d ← superseding decision_id (Decisions.get db decision_id)
  refuse_if (not (d.plan_id == round.plan_id)) (
      validation (
        "decision "
        ⧺ (decision_id
            ⧺ (" belongs to plan " ⧺ (d.plan_id ⧺ (", not the round's plan " ⧺ round.plan_id))))))
  refuse_if (decision_status_eq d.status DecisionStatus.superseded) (
      validation
        ("decision " ⧺ (decision_id ⧺ " is itself superseded and cannot supersede a baseline")))

abbrev pub locked_message : Round → String
locked_message round =
    "round "
    ⧺ (round.short_code
        ⧺ (" is "
            ⧺ (show_round_status round.status
                ⧺ (" and already has a baseline; pass a superseding decision id (`sdi round baseline "
                    ⧺ (round.id ⧺ " --set … --decision <DEC-ID>`) to replace it")))))

abbrev pub check_unlocked : Db → Round → Bool → Option EntityId → Result (Unit {0})
check_unlocked db round locked (some d) = check_superseding_decision db round d
check_unlocked db round true none = err (baseline_locked (locked_message round))
check_unlocked db round false none = accept

abbrev pub set_blob : String → Option EntityId → Timestamp → RoundRow → RoundRow
set_blob baseline_json decision now q = record q {
  baseline_json = some baseline_json;
  baseline_decision_id = or_else decision q.baseline_decision_id;
  round = record q.round { updated_at = now };
}

unfoldable pub set_baseline : EntityId → String → Option EntityId → Timestamp → Db → Result Db
unfolding Rounds.find_row check_superseding_decision
set_baseline round_id baseline_json superseding_decision now db = do
  row ← Rounds.find_row db round_id
  check_unlocked db row.round
      (not (round_status_eq row.round.status RoundStatus.planning) && is_some row.baseline_json)
      superseding_decision
  ok (record db {
    rounds =
        update (λ q. q.round.id == round_id) (set_blob baseline_json superseding_decision now)
          db.rounds;
  })

abbrev pub show_verdict : Option ScenarioResult → String
show_verdict none = "unverified"
show_verdict (some v) = show_scenario_result v

abbrev pub scenario_le : Scenario → Scenario → Bool
scenario_le a b =
    if nat_eq a.created_at b.created_at then text_le a.id b.id else leb a.created_at b.created_at

-- The confirmed scenarios of the plan that are not retired, `ORDER BY created_at, id`.
unfoldable pub live_scenarios : Db → EntityId → List Scenario
live_scenarios db plan_id = order_by scenario_le (select (Scenarios.is_live plan_id) db.scenarios)

unfoldable pub capture_snapshot : Db → Round → List (EntityId × String × String)
unfolding live_scenarios Rounds.verdict
capture_snapshot db round =
    map (λ s. (s.id, s.short_code, show_verdict (Rounds.verdict db round.id s.id)))
      (live_scenarios db round.plan_id)

abbrev pub stamp :
    Option String → List (EntityId × String × String) → Timestamp → RoundRow → RoundRow
stamp commit snapshot now q = record q {
  baseline_commit = commit;
  baseline_snapshot = some snapshot;
  baseline_recorded_at = some now;
  round = record q.round { updated_at = now };
}

unfoldable pub record_activation_baseline : Round → Option String → Timestamp → Db → Result Db
unfolding Rounds.find_row capture_snapshot
record_activation_baseline round commit now db = do
  row ← Rounds.find_row db round.id
  refuse_if (is_some row.baseline_snapshot) (
      baseline_locked ("round " ⧺ (round.short_code ⧺ " already recorded its activation baseline")))
  ok (record db {
    rounds =
        update (λ q. q.round.id == round.id) (stamp commit (capture_snapshot db round) now)
          db.rounds;
  })

abbrev pub rebase :
    Option String → List (EntityId × String × String) → EntityId → Timestamp → RoundRow → RoundRow
rebase commit snapshot decision_id now q = record (stamp commit snapshot now q) {
  baseline_decision_id = some decision_id;
}

unfoldable pub rebase_baseline : EntityId → Option String → EntityId → Timestamp → Db → Result Db
unfolding Rounds.get check_superseding_decision capture_snapshot
rebase_baseline round_id commit decision_id now db = do
  round ← Rounds.get db round_id
  check_superseding_decision db round decision_id
  ok (record db {
    rounds =
        update (λ q. q.round.id == round_id)
          (rebase commit (capture_snapshot db round) decision_id now) db.rounds;
  })

-- The test of `scenarios_needing_verification` on a verdict.
abbrev pub is_settled : ResultRow → Bool
is_settled r =
    scenario_result_eq r.result ScenarioResult.passing
    || scenario_result_eq r.result ScenarioResult.retired

abbrev pub needs_verdict : Db → EntityId → Scenario → Bool
needs_verdict db round_id s =
    not (any (λ r. Rounds.is_result_of round_id s.id r && is_settled r) db.results)

unfoldable pub scenarios_needing_verification : Db → EntityId → EntityId → List Scenario
scenarios_needing_verification db round_id plan_id =
    order_by (λ a b. leb a.created_at b.created_at)
      (select (λ s. Scenarios.is_live plan_id s && needs_verdict db round_id s) db.scenarios)
