-- ===== src/Router/Rounds.antt =====
-- crates/daemon/src/router/round.rs: the handlers that activate and complete a round and record a
-- verdict. None of them opens a transaction, so what is written before an error stays.
pub mod Verdicts
pub mod Completion
use sdi_plugin.Prelude.{
  String, Bool, ◌&&◌, Option, none, some, List, [], ◌∷◌, map, ◌==◌, if◌then◌else◌, any,
}
use sdi_plugin.Prelude.Text.{is_blank}
use sdi_plugin.Domain.Error.{disruption_pending, Result, ok, ◌>>=◌, ◌>>◌, refuse_if}
use sdi_plugin.Domain.Ids.{EntityId, Timestamp}
use sdi_plugin.Domain.Round.{
  Round, RoundStatus, round_status_eq, show_round_status, RoundMode, InFlightPolicy,
}
use sdi_plugin.Domain.Scenario.{Scenario}
use sdi_plugin.Domain.Task.{Task, TaskStatus}
use sdi_plugin.Domain.Disruption.{DisruptionReviewStatus, disruption_review_status_eq}
use sdi_plugin.Repo.Db.{Db}
use sdi_plugin.Domain.Round
use sdi_plugin.Domain.Scenario.{parse_scenario_result}
use sdi_plugin.Repo.Runs.{Workspace}
use sdi_plugin.Repo.Rounds
use sdi_plugin.Repo.Baseline
use sdi_plugin.Repo.CarryOver
use sdi_plugin.Repo.CarryOver.{CarryOver, no_carry_over}
use sdi_plugin.Repo.Tasks
use sdi_plugin.Router.Gates
use sdi_plugin.Repo.Reviews.{has_pending}
use sdi_plugin.Repo.Action.{Action, ◌▹◌, ◌▸◌, pure, exec, query}

abbrev pub check_activation : Db → Round → Result (Unit {0})
check_activation db round = do
  Round.check_can_activate round
  refuse_if (has_pending db round.plan_id) disruption_pending

-- The loop over the tasks in flight.
unfoldable pub move_tasks : TaskStatus → Timestamp → List Task → Action (Unit {0})
unfolding Tasks.set_status
move_tasks status now [] db = (ok tt, db)
move_tasks status now (t ∷ ts) db =
    (exec (Tasks.set_status t.id status now) ▸ move_tasks status now ts) db

-- The `match` on the policy.
unfoldable pub settle_in_flight : InFlightPolicy → Timestamp → List Task → Action (Unit {0})
unfolding move_tasks
settle_in_flight InFlightPolicy.pause now ts = move_tasks TaskStatus.blocked now ts
settle_in_flight InFlightPolicy.abort now ts = move_tasks TaskStatus.cancelled now ts
settle_in_flight InFlightPolicy.continue_on_noimpact now ts = pure tt

abbrev pub carry_from : Workspace → Round → Timestamp → Option Round → Action CarryOver
carry_from w round now none = pure no_carry_over
carry_from w round now (some prev) = CarryOver.carry_over_results w round prev.id now

unfoldable pub populate : Workspace → Round → RoundMode → Timestamp → Action CarryOver
unfolding CarryOver.carry_over_results Rounds.latest_completed_for_plan
populate w round RoundMode.strict_regression now db =
    carry_from w round now (Rounds.latest_completed_for_plan db round.plan_id) db
populate w round RoundMode.forward_only now db = (ok no_carry_over, db)

pub record Activation : Type 0 where
  pub round : Round
  pub carried : CarryOver
  pub needs_verification : List Scenario
  pub affected_task_ids : List EntityId

-- The commit of the body, unless it is blank, or else the head of the work tree.
abbrev pub chosen_commit : Option String → Option String → Option String
chosen_commit none head = head
chosen_commit (some c) head = if is_blank c then head else some c

-- `head` is what `project_head_commit` reads.
unfoldable pub activate :
    Workspace → EntityId → Option String → Option String → Timestamp → Action Activation
unfolding has_pending settle_in_flight populate Rounds.get Rounds.set_status
activate w id body_commit head now = query (λ db. Rounds.get db id) ▹ λ round.
    query (λ db. check_activation db round)
    ▸ (query (λ db. ok (Tasks.list_in_flight_for_plan db round.plan_id)) ▹ λ in_flight.
        settle_in_flight round.in_flight_policy now in_flight
        ▸ (populate w round round.mode now ▹ λ carried.
            exec (Rounds.set_status id RoundStatus.active (some now) none now)
            ▸ (query (λ db. Rounds.get db id) ▹ λ fresh.
                exec
                  (Baseline.record_activation_baseline fresh (chosen_commit body_commit head) now)
                ▸ query (λ db. ok (record {
                  round = fresh;
                  carried = carried;
                  needs_verification = Baseline.scenarios_needing_verification db id round.plan_id;
                  affected_task_ids = map (λ t. t.id) in_flight;
                })))))

unfoldable pub complete : EntityId → Timestamp → Action Round
unfolding Rounds.get Rounds.set_status
complete id now =
    query (λ db. do
      round ← Rounds.get db id
      Round.check_can_complete round
      Gates.ensure_no_unresolved_infrastructure_failures db id)
    ▸ (exec (Rounds.set_status id RoundStatus.completed none (some now) now)
        ▸ query (λ db. Rounds.get db id))

unfoldable pub post_result :
    Workspace
    → EntityId
    → EntityId
    → String
    → Option String
    → Option String
    → Timestamp
    → Action (Unit {0})
unfolding Rounds.get Rounds.upsert_result Gates.check_evidence_ref Gates.ensure_completion_budget
post_result w id scenario_id result note evidence_ref now =
    query (λ db. do
      verdict ← parse_scenario_result result
      round ← Rounds.get db id
      proven ← Gates.check_evidence_ref w db round.plan_id scenario_id verdict evidence_ref
      Gates.ensure_completion_budget db round.plan_id scenario_id verdict proven
      ok verdict)
    ▹ λ verdict. exec (Rounds.upsert_result id scenario_id verdict note evidence_ref now)
