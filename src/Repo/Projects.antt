-- ===== src/Repo/Projects.antt =====
-- crates/db/src/repo/project.rs: projects and the directories that belong to them. A row of `projects`
-- has no directories of its own: they are read from `project_cwds`.
use sdi_plugin.Prelude.{
  ℕ, String, Bool, not, ◌&&◌, Option, none, some, List, [], ◌∷◌, ◌++◌, map, ◌==◌, if◌then◌else◌,
  leb, is_none, any, select, find, update, count,
}
use sdi_plugin.Prelude.Split.{text_le}
use sdi_plugin.Domain.Error.{not_found, Result, ok, err, ◌>>=◌, ◌>>◌, refuse_if}
use sdi_plugin.Domain.Ids.{EntityId, Timestamp}
use sdi_plugin.Repo.Db.{
  Db, foreign_key_violation, primary_key_violation, unique_violation, order_by,
}
use sdi_plugin.Repo.Action.{Action, ◌▸◌, pure, exec}
use sdi_plugin.Repo.Db.{CwdRow, RoundRow}
use sdi_plugin.Domain.Project.{Project}
use sdi_plugin.Domain.Task.{Task, TaskStatus, task_status_eq}

abbrev pub knows_project : EntityId → Db → Bool
knows_project id db = any (λ p. p.id == id) db.projects

abbrev pub is_anchor : EntityId → String → CwdRow → Bool
is_anchor project_id cwd r = r.project_id == project_id && r.cwd == cwd

-- `INSERT OR IGNORE`
unfoldable pub attach_cwd : EntityId → String → Timestamp → Db → Result Db
attach_cwd project_id cwd now db =
    if any (is_anchor project_id cwd) db.project_cwds
    then ok db
    else refuse_if (not (knows_project project_id db)) foreign_key_violation
      >> ok (record db {
        project_cwds =
            db.project_cwds ++ record { project_id = project_id; cwd = cwd; created_at = now } ∷ [];
      })

unfoldable pub attach_all : EntityId → List String → Timestamp → Action (Unit {0})
unfolding attach_cwd
attach_all project_id [] now = pure tt
attach_all project_id (cwd ∷ cwds) now =
    exec (attach_cwd project_id cwd now) ▸ attach_all project_id cwds now

abbrev pub insert_row : Project → Db → Result Db
insert_row p db = do
  refuse_if (any (λ q. q.id == p.id) db.projects) (primary_key_violation "projects")
  refuse_if (any (λ q. q.key == p.key) db.projects) (unique_violation "projects" ("key" ∷ []))
  refuse_if (any (λ q. q.slug == p.slug) db.projects) (unique_violation "projects" ("slug" ∷ []))
  ok (record db { projects = db.projects ++ record p { cwds = [] } ∷ [] })

unfoldable pub insert : Project → Timestamp → Action (Unit {0})
unfolding attach_all
insert p now = exec (insert_row p) ▸ attach_all p.id p.cwds now

unfoldable pub detach_cwd : EntityId → String → Db → Bool × Db
detach_cwd project_id cwd db = (
  any (is_anchor project_id cwd) db.project_cwds,
  record db { project_cwds = select (λ r. not (is_anchor project_id cwd r)) db.project_cwds },
)

unfoldable pub list_cwds : Db → EntityId → List String
list_cwds db project_id =
    order_by text_le (map (λ r. r.cwd) (select (λ r. r.project_id == project_id) db.project_cwds))

abbrev pub with_cwds : Db → Project → Project
with_cwds db p = record p { cwds = list_cwds db p.id }

unfoldable pub get : Db → EntityId → Result Project
unfolding list_cwds
get db id = elim (find (λ p. p.id == id) db.projects) [
  | none ↦ err (not_found id)
  | some p ↦ ok (record p { cwds = list_cwds db id })
]

abbrev pub get_found : Db → Option EntityId → Result (Option Project)
get_found db none = ok none
get_found db (some id) = do p ← get db id; ok (some p)

abbrev pub id_of : Option Project → Option EntityId
id_of none = none
id_of (some p) = some p.id

unfoldable pub find_by_key : Db → String → Result (Option Project)
unfolding get
find_by_key db key = get_found db (id_of (find (λ p. p.key == key) db.projects))

abbrev pub owner_of : Option CwdRow → Option EntityId
owner_of none = none
owner_of (some r) = some r.project_id

-- The oldest anchor of the directory.
unfoldable pub find_by_cwd : Db → String → Result (Option Project)
unfolding get
find_by_cwd db cwd = get_found db (owner_of (find (λ r. r.cwd == cwd) db.project_cwds))

-- `list`
unfoldable pub list_projects : Db → List Project
unfolding list_cwds
list_projects db = map (with_cwds db) (order_by (λ a b. leb a.created_at b.created_at) db.projects)

-- `none` leaves a field; `some none` clears the description.
pub record UpdateFields : Type 0 where
  pub name : Option String
  pub description : Option (Option String)
  pub enabled : Option Bool
  pub wiki_paths : Option (List String)

abbrev pub given_or {ℓ} : {A : Type ℓ} → Option A → A → A
given_or none a = a
given_or (some b) a = b

abbrev pub sets_nothing : UpdateFields → Bool
sets_nothing f =
    is_none f.name && is_none f.description && is_none f.enabled && is_none f.wiki_paths

abbrev pub patched : UpdateFields → Timestamp → Project → Project
patched f now p = record p {
  name = given_or f.name p.name;
  description = given_or f.description p.description;
  enabled = given_or f.enabled p.enabled;
  wiki_paths = given_or f.wiki_paths p.wiki_paths;
  updated_at = now;
}

unfoldable pub update_fields : EntityId → UpdateFields → Timestamp → Db → Result Db
update_fields id f now db = do
  refuse_if (not (knows_project id db)) (not_found id)
  if sets_nothing f
      then ok db
      else ok (record db { projects = update (λ p. p.id == id) (patched f now) db.projects })

abbrev pub no_fields : UpdateFields
no_fields = record { name = none; description = none; enabled = none; wiki_paths = none }

unfoldable pub update_name : EntityId → String → Timestamp → Db → Result Db
unfolding update_fields
update_name id name now db = update_fields id (record no_fields { name = some name }) now db

unfoldable pub set_enabled : EntityId → Bool → Timestamp → Db → Result Db
unfolding update_fields
set_enabled id enabled now db =
    update_fields id (record no_fields { enabled = some enabled }) now db

-- `JOIN rounds r ON r.id = t.round_id JOIN plans p ON p.id = r.plan_id`
abbrev pub round_in_project : Db → EntityId → Task → RoundRow → Bool
round_in_project db id t r =
    r.round.id == t.round_id && any (λ p. p.id == r.round.plan_id && p.project_id == id) db.plans

unfoldable pub count_in_flight_tasks : Db → EntityId → ℕ
count_in_flight_tasks db id =
    count
      (λ t.
        task_status_eq t.status TaskStatus.in_progress && any (round_in_project db id t) db.rounds)
      db.tasks
