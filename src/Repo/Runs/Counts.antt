-- ===== src/Repo/Runs/Counts.antt =====
-- crates/db/src/repo/run.rs: how many tasks have each status. `GROUP BY status` answers the groups that
-- are not empty, in the order of their texts.
use sdi_plugin.Prelude.{
  ℕ, suc, ◌+◌, String, Bool, ◌&&◌, List, [], ◌∷◌, ◌==◌, if◌then◌else◌, nat_eq, any, select, count,
}
use sdi_plugin.Domain.Ids.{EntityId}
use sdi_plugin.Repo.Db.{Db}
use sdi_plugin.Domain.Task.{Task, TaskStatus, task_status_eq, show_task_status}

abbrev pub statuses : List TaskStatus
statuses =
    TaskStatus.blocked ∷ TaskStatus.cancelled ∷ TaskStatus.done ∷ TaskStatus.in_progress
    ∷ TaskStatus.todo ∷ []

abbrev pub has_status : TaskStatus → Task → Bool
has_status status t = task_status_eq t.status status

abbrev pub counted : TaskStatus → ℕ → List (String × ℕ) → List (String × ℕ)
counted status n rest = if nat_eq n 0 then rest else (show_task_status status, n) ∷ rest

unfoldable pub group_by_status : List TaskStatus → List Task → List (String × ℕ)
unfolding show_task_status
group_by_status [] tasks = []
group_by_status (s ∷ ss) tasks = counted s (count (has_status s) tasks) (group_by_status ss tasks)

unfoldable pub status_counts : Db → List (String × ℕ)
unfolding group_by_status
status_counts db = group_by_status statuses db.tasks

-- `JOIN rounds r ON t.round_id = r.id JOIN plans p ON r.plan_id = p.id`
abbrev pub in_project : Db → EntityId → Task → Bool
in_project db project_id t =
    any
      (λ r.
        r.round.id == t.round_id
        && any (λ p. p.id == r.round.plan_id && p.project_id == project_id) db.plans)
      db.rounds

unfoldable pub status_counts_for_project : Db → EntityId → List (String × ℕ)
unfolding group_by_status
status_counts_for_project db project_id =
    group_by_status statuses (select (in_project db project_id) db.tasks)

abbrev pub total : List (String × ℕ) → ℕ
total [] = 0
total ((_, n) ∷ rest) = n + total rest

abbrev sum_of : List TaskStatus → List Task → ℕ
sum_of [] tasks = 0
sum_of (s ∷ ss) tasks = count (has_status s) tasks + sum_of ss tasks

abbrev adds : TaskStatus → TaskStatus → ℕ → ℕ
adds a s n = if task_status_eq a s then suc n else n
