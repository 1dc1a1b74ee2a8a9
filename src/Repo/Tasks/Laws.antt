-- ===== src/Repo/Tasks/Laws.antt =====
-- crates/db/src/repo/task.rs: what the statements on `tasks` store.
use sdi_plugin.Prelude.{◌≡◌, refl, ap, Option, none, some, arith, ◌==◌, find, update}
use sdi_plugin.Domain.Error.{not_found, Result, ok, err, ◌>>=◌}
use sdi_plugin.Domain.Ids.{EntityId, Timestamp}
use sdi_plugin.Domain.Results.{>>-ok, >>=-ok}
use sdi_plugin.Domain.Task.{Task, TaskEvidence, validate_for_done}
use sdi_plugin.Repo.Db.{Db}
use sdi_plugin.Repo.Tasks
use sdi_plugin.Prelude.Updates.{find-update, map_some}
use sdi_plugin.Prelude.{◌∙◌}
use mathlib.Core.Path.{subst}
use sdi_plugin.Domain.Results.{ok-injective}

get-row :
    (o : Option Task) (id : EntityId) (t : Task)
    → elim o as (λ _. Result Task) [ none ↦ err (not_found id) | some u ↦ ok u ] ≡ ok t
    → o ≡ some t
get-row none id t h = ground arith
get-row (some u) id t h = ap some (ok-injective u t h)

pub get-find :
    (db : Db) (id : EntityId) (t : Task)
    → Tasks.get db id ≡ ok t
    → find (λ u. u.id == id) db.tasks ≡ some t
unfolding Tasks.get
get-find db id t h = get-row (find (λ u. u.id == id) db.tasks) id t h

-- The task is there after an update of its row, as updated.
pub get-update :
    (db : Db) (id : EntityId) (t : Task) (f : Task → Task)
    → ((u : Task) → (f u).id ≡ u.id)
    → Tasks.get db id ≡ ok t
    → Tasks.get (record db { tasks = update (λ u. u.id == id) f db.tasks }) id ≡ ok (f t)
unfolding Tasks.get
get-update db id t f keeps h =
    let found = get-find db id t h in
    let after = find-update (λ u. u.id == id) f db.tasks (λ u e. ap (λ i. i == id) (keeps u) ∙ e) in
    ap (λ o. elim o as (λ _. Result Task) [ none ↦ err (not_found id) | some u ↦ ok u ])
      (after ∙ ap (map_some f) found)

pub complete_with_evidence-stored :
    (id : EntityId) (evidence : TaskEvidence) (now : Timestamp) (db db' : Db) (t : Task)
    → Tasks.get db id ≡ ok t
    → Tasks.complete_with_evidence id evidence now db ≡ ok db'
    → (record db { tasks = db'.tasks } ≡ db')
      × (Tasks.get db' id ≡ ok (Tasks.finish evidence now t))
unfolding Tasks.complete_with_evidence
complete_with_evidence-stored id evidence now db db' t found h =
    let written : Result Db =
      ok (record db { tasks = update (λ u. u.id == id) (Tasks.finish evidence now) db.tasks }) in
    let (_, h1) = >>-ok (validate_for_done evidence) (Tasks.get db id >>= λ _. written) db' h in
    let (u, _, h2) =
      >>=-ok (Tasks.get db id)
        (λ _.
          ok (record db { tasks = update (λ u. u.id == id) (Tasks.finish evidence now) db.tasks }))
        db' h1 in
    let new =
      ok-injective
        (record db { tasks = update (λ u. u.id == id) (Tasks.finish evidence now) db.tasks }) db'
        h2 in
    (
      subst (λ d. record db { tasks = d.tasks } ≡ d) new refl,
      subst (λ d. Tasks.get d id ≡ ok (Tasks.finish evidence now t)) new
          (get-update db id t (Tasks.finish evidence now) (λ _. refl) found),
    )
