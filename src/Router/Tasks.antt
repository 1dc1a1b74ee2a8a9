-- ===== src/Router/Tasks.antt =====
-- crates/daemon/src/router/task.rs: the handlers that move and complete a task. A handler takes the
-- clock's reading, and answers with the task as the tables hold it. Events are not modelled.
pub mod Prepared
pub mod Completion
use sdi_plugin.Prelude.{String, not, Option, none, some, List, [], ◌∷◌, ◌==◌, if◌then◌else◌, any}
use sdi_plugin.Prelude.Text.{◌⧺◌}
use sdi_plugin.Domain.Error.{
  validation, evidence_required, Result, ok, err, ◌>>=◌, ◌>>◌, accept, refuse_if,
}
use sdi_plugin.Domain.Ids.{EntityId, Timestamp}
use sdi_plugin.Domain.Task.{
  Task, TaskStatus, task_status_eq, TaskEvidence, ScenarioEvidence, check_transition,
}
use sdi_plugin.Repo.Db.{Db}
use sdi_plugin.Domain.Task.{parse_task_status}
use sdi_plugin.Repo.Runs.{Workspace}
use sdi_plugin.Repo.Scenarios
use sdi_plugin.Repo.Budgets
use sdi_plugin.Repo.Tasks
use sdi_plugin.Repo.Rounds
use sdi_plugin.Router.Gates
use sdi_plugin.Repo.Action.{Action, ◌▹◌, ◌▸◌, exec, query, transaction}

-- The checks of `set_status` on the task that was read.
unfoldable pub check_start : Db → Task → TaskStatus → Result (Unit {0})
unfolding check_transition Budgets.ensure_available
check_start db task target = do
  check_transition task target none
  if task_status_eq target TaskStatus.in_progress
      then Budgets.ensure_available db task.plan_id task.parent_scenario_ids
      else accept

abbrev pub parse_target : String → Result TaskStatus
parse_target status = do
  target ← parse_task_status status
  refuse_if (task_status_eq target TaskStatus.done) evidence_required
  ok target

unfoldable pub set_status : EntityId → String → Timestamp → Action Task
unfolding check_start Tasks.set_status
set_status id status now = query (λ _. parse_target status) ▹ λ target.
    query (λ db. do task ← Tasks.get db id; check_start db task target)
    ▸ (exec (Tasks.set_status id target now) ▸ query (λ db. Tasks.get db id))

abbrev pub resolved_or : String → Option EntityId → Result EntityId
resolved_or reference none = err (
    validation (
      "evidence references unknown scenario '"
      ⧺ (reference ⧺ "' — not an SCN id or a short code in this task's plan")))
resolved_or reference (some id) = ok id

abbrev pub join_ids : List EntityId → String
join_ids [] = ""
join_ids (t ∷ []) = t
join_ids (t ∷ u ∷ ts) = t ⧺ (", " ⧺ join_ids (u ∷ ts))

abbrev pub parent_only : Task → ScenarioEvidence → EntityId → Result ScenarioEvidence
parent_only task se id = do
  refuse_if (not (any (λ p. p == id) task.parent_scenario_ids)) (
      validation (
        "evidence scenario '"
        ⧺ (se.scenario_id
            ⧺ ("' is not a parent scenario of task "
                ⧺ (task.id ⧺ ("; task parents: [" ⧺ (join_ids task.parent_scenario_ids ⧺ "]")))))))
  ok (record se { scenario_id = id })

-- #12, #13: the body of the loop that resolves a reference to a parent scenario of the task.
unfoldable pub resolve_one : Db → Task → ScenarioEvidence → Result ScenarioEvidence
unfolding Scenarios.resolve_ref
resolve_one db task se =
    resolved_or se.scenario_id (Scenarios.resolve_ref db task.plan_id se.scenario_id)
    >>= parent_only task se

unfoldable pub resolve_evidence : Db → Task → List ScenarioEvidence → Result (List ScenarioEvidence)
unfolding resolve_one
resolve_evidence db task [] = ok []
resolve_evidence db task (se ∷ rest) = do
  resolved ← resolve_one db task se
  later ← resolve_evidence db task rest
  ok (resolved ∷ later)

-- The loop over the gates.
unfoldable pub check_evidence : Workspace → Db → Task → List ScenarioEvidence → Result (Unit {0})
unfolding Gates.check_evidence_ref Gates.ensure_completion_budget
check_evidence w db task [] = accept
check_evidence w db task (se ∷ rest) = do
  proven ←
      Gates.check_evidence_ref w db task.plan_id se.scenario_id se.result (some se.evidence_ref)
  Gates.ensure_completion_budget db task.plan_id se.scenario_id se.result proven
  check_evidence w db task rest

-- The loop that mirrors the verdicts into the round.
unfoldable pub mirror : EntityId → Timestamp → List ScenarioEvidence → Action (Unit {0})
unfolding Rounds.upsert_result
mirror round_id now [] db = (ok tt, db)
mirror round_id now (se ∷ rest) db =
    (exec (
          Rounds.upsert_result round_id se.scenario_id se.result se.note (some se.evidence_ref) now)
        ▸ mirror round_id now rest)
      db

-- Everything that is read and checked before the transaction: the task, and its evidence with the
-- references resolved.
unfoldable pub prepare : Workspace → EntityId → TaskEvidence → Db → Result (Task × TaskEvidence)
unfolding check_transition resolve_evidence check_evidence Tasks.get
prepare w id evidence db = do
  task ← Tasks.get db id
  check_transition task TaskStatus.done (some evidence)
  scenarios ← resolve_evidence db task evidence.scenarios
  check_evidence w db task scenarios
  ok (task, record evidence { scenarios = scenarios })

-- #13: the writes of the transaction.
unfoldable pub write_completion : EntityId → Task × TaskEvidence → Timestamp → Action (Unit {0})
unfolding Tasks.complete_with_evidence mirror
write_completion id (task, evidence) now =
    exec (Tasks.complete_with_evidence id evidence now)
    ▸ mirror task.round_id now evidence.scenarios

unfoldable pub complete : Workspace → EntityId → TaskEvidence → Timestamp → Action Task
unfolding prepare write_completion
complete w id evidence now = query (prepare w id evidence) ▹ λ prepared.
    transaction (write_completion id prepared now ▸ query (λ db. Tasks.get db id))
