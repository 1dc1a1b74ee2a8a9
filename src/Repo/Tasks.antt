-- ===== src/Repo/Tasks.antt =====
-- crates/db/src/repo/task.rs: tasks.
pub mod Laws
use sdi_plugin.Prelude.{
  Bool, true, false, not, ◌&&◌, none, some, List, [], ◌∷◌, ◌++◌, ◌==◌, leb, any, select, find,
  update,
}
use sdi_plugin.Domain.Error.{not_found, Result, ok, err, ◌>>=◌, ◌>>◌, refuse_if}
use sdi_plugin.Domain.Ids.{EntityId, Timestamp}
use sdi_plugin.Domain.Task.{Task, TaskStatus, task_status_eq, TaskEvidence, validate_for_done}
use sdi_plugin.Repo.Db.{
  Db, unique_violation, primary_key_violation, foreign_key_violation, order_by, known_pattern,
}
use sdi_plugin.Repo.Plans

unfoldable pub get : Db → EntityId → Result Task
get db id = elim (find (λ t. t.id == id) db.tasks) [ none ↦ err (not_found id) | some t ↦ ok t ]

abbrev pub known_round : Db → EntityId → Bool
known_round db id = any (λ r. r.round.id == id) db.rounds

unfoldable pub insert : Task → Db → Result Db
insert t db = do
  refuse_if (any (λ u. u.id == t.id) db.tasks) (primary_key_violation "tasks")
  refuse_if (any (λ u. u.plan_id == t.plan_id && u.short_code == t.short_code) db.tasks)
      (unique_violation "tasks" ("plan_id" ∷ "short_code" ∷ []))
  refuse_if
      (not (
        known_round db t.round_id
        && Plans.has_plan db t.plan_id
        && known_pattern db t.produced_via_pattern_id))
      foreign_key_violation
  ok (record db { tasks = db.tasks ++ record t { completed_at = none } ∷ [] })

-- `JOIN rounds r ON r.id = t.round_id WHERE r.plan_id = ..`
abbrev pub in_plan : Db → EntityId → Task → Bool
in_plan db plan_id t = any (λ r. r.round.id == t.round_id && r.round.plan_id == plan_id) db.rounds

unfoldable pub list_in_flight_for_plan : Db → EntityId → List Task
list_in_flight_for_plan db plan_id =
    order_by (λ a b. leb a.created_at b.created_at)
      (select (λ t. in_plan db plan_id t && task_status_eq t.status TaskStatus.in_progress)
        db.tasks)

abbrev pub is_backlog : TaskStatus → Bool
is_backlog TaskStatus.todo = true
is_backlog TaskStatus.in_progress = true
is_backlog TaskStatus.blocked = true
is_backlog _ = false

unfoldable pub list_backlog_for_plan : Db → EntityId → List Task
list_backlog_for_plan db plan_id =
    order_by (λ a b. leb a.created_at b.created_at)
      (select (λ t. in_plan db plan_id t && is_backlog t.status) db.tasks)

unfoldable pub set_status : EntityId → TaskStatus → Timestamp → Db → Result Db
unfolding get
set_status id status now db = do
  t ← get db id
  ok (record db {
    tasks = update (λ u. u.id == id) (λ u. record u { status = status; updated_at = now }) db.tasks;
  })

abbrev pub finish : TaskEvidence → Timestamp → Task → Task
finish evidence now u = record u {
  evidence = some evidence;
  evidence_at = some now;
  completed_at = some now;
  status = TaskStatus.done;
  updated_at = now;
}

unfoldable pub complete_with_evidence : EntityId → TaskEvidence → Timestamp → Db → Result Db
unfolding get validate_for_done
complete_with_evidence id evidence now db = do
  validate_for_done evidence
  t ← get db id
  ok (record db { tasks = update (λ u. u.id == id) (finish evidence now) db.tasks })
