-- ===== src/Repo/Plans/Writes.antt =====
-- crates/db/src/repo/plan.rs: making a plan, editing it, and finding plans of a project.
use sdi_plugin.Prelude.{
  ℕ, ◌+◌, String, not, ◌&&◌, Option, none, some, List, [], ◌∷◌, ◌++◌, ◌==◌, leb, any, select, find,
  update,
}
use sdi_plugin.Domain.Error.{not_found, Result, ok, err, ◌>>◌, refuse_if}
use sdi_plugin.Domain.Ids.{EntityId, Timestamp}
use sdi_plugin.Repo.Db.{
  Db, foreign_key_violation, primary_key_violation, unique_violation, order_by,
}
use sdi_plugin.Repo.Action.{Action, ◌▸◌, exec, query}
use sdi_plugin.Repo.Db.{known_pattern, not_like_chore}
use sdi_plugin.Domain.Plan.{Plan, PlanStatus, plan_status_eq}
use sdi_plugin.Repo.Plans.{breaks_one_active}

unfoldable pub insert : Plan → Db → Result Db
insert p db = do
  refuse_if (any (λ q. q.id == p.id) db.plans) (primary_key_violation "plans")
  refuse_if (any (λ q. q.project_id == p.project_id && q.short_code == p.short_code) db.plans)
      (unique_violation "plans" ("project_id" ∷ "short_code" ∷ []))
  refuse_if (breaks_one_active db p p.status) (unique_violation "plans" ("project_id" ∷ []))
  refuse_if
      (not
        (any (λ q. q.id == p.project_id) db.projects && known_pattern db p.produced_via_pattern_id))
      foreign_key_violation
  ok (record db { plans = db.plans ++ p ∷ [] })

unfoldable pub list_by_project : Db → EntityId → List Plan
list_by_project db project_id =
    order_by (λ a b. leb a.created_at b.created_at)
      (select (λ p. p.project_id == project_id) db.plans)

unfoldable pub find_active_for_project : Db → EntityId → Option Plan
find_active_for_project db project_id =
    find
      (λ p.
        p.project_id == project_id
        && plan_status_eq p.status PlanStatus.active
        && not_like_chore p.short_code)
      db.plans

unfoldable pub find_by_project_short_code : Db → EntityId → String → Option Plan
find_by_project_short_code db project_id short_code =
    find (λ p. p.project_id == project_id && p.short_code == short_code) db.plans

abbrev pub with_body : String → String → Timestamp → Plan → Plan
with_body title body now p = record p {
  title = title;
  body = body;
  version = p.version + 1;
  updated_at = now;
}

abbrev pub version_of : EntityId → Option Plan → Result ℕ
version_of id none = err (not_found id)
version_of id (some p) = ok p.version

-- The new version is read back.
unfoldable pub update_body : EntityId → String → String → Timestamp → Action ℕ
update_body id title body now =
    exec (λ db. do
      refuse_if (not (any (λ p. p.id == id) db.plans)) (not_found id)
      ok (record db { plans = update (λ p. p.id == id) (with_body title body now) db.plans }))
    ▸ query (λ db. version_of id (find (λ p. p.id == id) db.plans))
