-- ===== src/Domain/Task.antt =====
-- crates/core/src/task.rs: tasks, the evidence that completes them, and the table of allowed
-- transitions.
pub mod Transitions
use sdi_plugin.Prelude.{
  String, Bool, true, false, not, ◌&&◌, Option, none, some, List, [], ◌∷◌, ◌==◌, if◌then◌else◌,
  is_none, is_empty,
}
use sdi_plugin.Prelude.Text.{◌⧺◌, is_blank}
use sdi_plugin.Domain.Error.{
  invalid_transition, validation, evidence_required, Result, ok, err, ◌>>◌, accept, refuse_if,
}
use sdi_plugin.Domain.Ids.{EntityId, Timestamp}
use sdi_plugin.Domain.Scenario.{ScenarioResult}

-- `TaskStatus`.
pub data TaskStatus : Type 0 where
  todo in_progress done cancelled blocked : TaskStatus

unfoldable pub show_task_status : TaskStatus → String
show_task_status TaskStatus.todo = "todo"
show_task_status TaskStatus.in_progress = "in_progress"
show_task_status TaskStatus.done = "done"
show_task_status TaskStatus.cancelled = "cancelled"
show_task_status TaskStatus.blocked = "blocked"

unfoldable pub parse_task_status : String → Result TaskStatus
parse_task_status s =
    if s == "todo"
    then ok TaskStatus.todo
    else if s == "in_progress"
    then ok TaskStatus.in_progress
    else if s == "done"
    then ok TaskStatus.done
    else if s == "cancelled"
    then ok TaskStatus.cancelled
    else if s == "blocked"
    then ok TaskStatus.blocked
    else err (validation ("unknown task status: " ⧺ s))

abbrev pub task_status_eq : TaskStatus → TaskStatus → Bool
task_status_eq TaskStatus.todo TaskStatus.todo = true
task_status_eq TaskStatus.in_progress TaskStatus.in_progress = true
task_status_eq TaskStatus.done TaskStatus.done = true
task_status_eq TaskStatus.cancelled TaskStatus.cancelled = true
task_status_eq TaskStatus.blocked TaskStatus.blocked = true
task_status_eq _ _ = false

pub record ScenarioEvidence : Type 0 where
  pub scenario_id : EntityId
  pub result : ScenarioResult
  pub evidence_ref : String
  pub note : Option String

pub record TaskEvidence : Type 0 where
  pub scenarios : List ScenarioEvidence
  pub summary : Option String
  pub extras : List (String × String)

unfoldable pub evidence_is_empty : TaskEvidence → Bool
evidence_is_empty e = is_empty e.scenarios && is_none e.summary && is_empty e.extras

-- The loop over the entries.
unfoldable pub check_refs : List ScenarioEvidence → Result (Unit {0})
check_refs [] = accept
check_refs (entry ∷ rest) = do
  refuse_if (is_blank entry.evidence_ref)
      (validation ("evidence_ref empty for scenario " ⧺ entry.scenario_id))
  check_refs rest

unfoldable pub validate_for_done : TaskEvidence → Result (Unit {0})
unfolding evidence_is_empty check_refs
validate_for_done e = do
  refuse_if (evidence_is_empty e) evidence_required
  refuse_if (is_empty e.scenarios && is_none e.summary) evidence_required
  check_refs e.scenarios

pub record Task : Type 0 where
  pub id : EntityId
  pub round_id : EntityId
  pub plan_id : EntityId
  pub short_code : String
  pub description : String
  pub status : TaskStatus
  pub kind : String
  pub parent_scenario_ids : List EntityId
  pub parent_requirement_ids : List EntityId
  pub evidence : Option TaskEvidence
  pub produced_via_pattern_id : Option String
  pub created_at : Timestamp
  pub updated_at : Timestamp
  pub evidence_at : Option Timestamp
  -- The column `tasks.completed_at`, which no statement reads back into the struct.
  pub completed_at : Option Timestamp

-- The `matches!` table.
unfoldable pub allowed : TaskStatus → TaskStatus → Bool
allowed TaskStatus.todo TaskStatus.in_progress = true
allowed TaskStatus.todo TaskStatus.cancelled = true
allowed TaskStatus.todo TaskStatus.blocked = true
allowed TaskStatus.in_progress TaskStatus.done = true
allowed TaskStatus.in_progress TaskStatus.cancelled = true
allowed TaskStatus.in_progress TaskStatus.blocked = true
allowed TaskStatus.blocked TaskStatus.todo = true
allowed TaskStatus.blocked TaskStatus.in_progress = true
allowed TaskStatus.blocked TaskStatus.cancelled = true
allowed _ _ = false

unfoldable pub require_evidence : Option TaskEvidence → Result (Unit {0})
unfolding validate_for_done
require_evidence none = err evidence_required
require_evidence (some ev) = validate_for_done ev

unfoldable pub check_transition : Task → TaskStatus → Option TaskEvidence → Result (Unit {0})
unfolding allowed require_evidence show_task_status
check_transition t target evidence = do
  refuse_if (not (allowed t.status target))
      (invalid_transition "task" (show_task_status t.status) (show_task_status target))
  if task_status_eq target TaskStatus.done then require_evidence evidence else accept
