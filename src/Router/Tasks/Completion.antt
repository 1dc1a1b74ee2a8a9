-- ===== src/Router/Tasks/Completion.antt =====
-- crates/daemon/src/router/task.rs: what a completed task has gone through, and what a refused
-- completion leaves behind.
use sdi_plugin.Prelude.{String, ◌≡◌, sym, ap, Option, none, some, List, [], ◌∷◌, ◌==◌, find}
use sdi_plugin.Domain.Error.{DomainError, not_found, Result, ok, err}
use sdi_plugin.Domain.Ids.{EntityId, Timestamp}
use sdi_plugin.Domain.Results.{guard-ok}
use sdi_plugin.Domain.Scenario.{ScenarioResult}
use sdi_plugin.Domain.Task.{Task, TaskStatus, TaskEvidence, ScenarioEvidence}
use sdi_plugin.Repo.Db.{Db}
use sdi_plugin.Repo.Runs.{Workspace}
use sdi_plugin.Repo
use sdi_plugin.Repo.Rounds
use sdi_plugin.Router.Tasks
use sdi_plugin.Repo.Tasks.Laws.{complete_with_evidence-stored}
use sdi_plugin.Repo.Action.{◌▸◌, query, transaction}
use sdi_plugin.Prelude.{◌∙◌}
use mathlib.Core.Path.{subst}
use sdi_plugin.Domain.Results.{ok-injective}
use sdi_plugin.Repo.Action.Laws.{
  ▹-query-error, ▹-query-ok, transaction-error, transaction-ok, exec-▸-ok, ▸-ok, query-ok,
}
use sdi_plugin.Router.Tasks.Prepared.{Prepared, prepare-Prepared}

-- Completing a task is atomic: if the handler answers an error, at whichever of its checks or
-- writes, the tables are what they were.
pub complete-atomic :
    (w : Workspace) (id : EntityId) (evidence : TaskEvidence) (now : Timestamp) (db : Db)
    (e : DomainError)
    → (Tasks.complete w id evidence now db).0 ≡ err e
    → (Tasks.complete w id evidence now db).1 ≡ db
unfolding Tasks.complete
complete-atomic w id evidence now db e h =
    ▹-query-error (Tasks.prepare w id evidence) _ db e
      (λ prepared k.
        transaction-error
          (Tasks.write_completion id prepared now ▸ query (λ db. Repo.Tasks.get db id)) db e k)
      h

upsert_result-tasks :
    (round_id scenario_id : EntityId) (result : ScenarioResult)
    (remark evidence_ref : Option String) (now : Timestamp) (db db' : Db)
    → Rounds.upsert_result round_id scenario_id result remark evidence_ref now db ≡ ok db'
    → db'.tasks ≡ db.tasks
unfolding Rounds.upsert_result
upsert_result-tasks round_id scenario_id result remark evidence_ref now db db' h =
    let (_, h1) = guard-ok _ _ _ _ h in sym (ap (λ d. d.tasks) (ok-injective _ db' h1))

mirror-tasks :
    (round_id : EntityId) (now : Timestamp) (ses : List ScenarioEvidence) (db db' : Db)
    → Tasks.mirror round_id now ses db ≡ (ok tt, db')
    → db'.tasks ≡ db.tasks
unfolding Tasks.mirror
mirror-tasks round_id now [] db db' h = sym (ap (λ p. p.1.tasks) h)
mirror-tasks round_id now (se ∷ ses) db db' h =
    let (mid, one, h1) =
      exec-▸-ok
        (Rounds.upsert_result round_id se.scenario_id se.result se.note (some se.evidence_ref) now)
        (Tasks.mirror round_id now ses) db db' tt h in
    mirror-tasks round_id now ses mid db' h1
    ∙ upsert_result-tasks round_id se.scenario_id se.result se.note (some se.evidence_ref) now db
        mid one

get-same :
    (db db' : Db) (id : EntityId)
    → db'.tasks ≡ db.tasks
    → Repo.Tasks.get db' id ≡ Repo.Tasks.get db id
unfolding Repo.Tasks.get
get-same db db' id p =
    ap
      (λ ts. elim (find {A = Task} (λ u. u.id == id) ts) as (λ _. Result Task) [
        | none ↦ err (not_found id)
        | some u ↦ ok u
      ])
      p

-- What a successful completion has checked and what it leaves behind: the task it answers with is
-- done, carries the evidence, and is the stored one.
pub record Completed (w : Workspace) (db db' : Db) (id : EntityId) (sent : TaskEvidence)
    (now : Timestamp) (t : Task) : Type 0 where
  pub before : Task
  pub recorded : TaskEvidence
  pub prepared : Prepared w db id sent before recorded
  pub task : t ≡ record before {
    evidence = some recorded;
    evidence_at = some now;
    completed_at = some now;
    status = TaskStatus.done;
    updated_at = now;
  }
  pub stored : Repo.Tasks.get db' id ≡ ok t
  pub between : Db
  pub finished : Repo.Tasks.complete_with_evidence id recorded now db ≡ ok between
  pub mirrored : Tasks.mirror before.round_id now recorded.scenarios between ≡ (ok tt, db')

-- If the handler completes a task, then the task was in progress; the evidence sent names a scenario
-- or gives a summary, and no reference in it is blank; what is recorded is the evidence sent, entry
-- for entry, with each scenario reference resolved within the plan to a parent scenario of the task;
-- each entry was granted by the gate on the reference (free text, or a stored run that evidences the
-- verdict) and by the gate on the budget; the answer is the task with status done, that evidence and
-- the time, as it is then stored; and its verdicts have been written to the round, in order.
pub complete-Completed :
    (w : Workspace) (id : EntityId) (evidence : TaskEvidence) (now : Timestamp) (db db' : Db)
    (t : Task)
    → Tasks.complete w id evidence now db ≡ (ok t, db')
    → Completed w db db' id evidence now t
unfolding Tasks.complete Tasks.write_completion
complete-Completed w id evidence now db db' t h =
    let ((task, recorded), prepared, h1) =
      ▹-query-ok (Tasks.prepare w id evidence)
        (λ p. transaction (Tasks.write_completion id p now ▸ query (λ d. Repo.Tasks.get d id))) db
        db' t h in
    let h2 =
      transaction-ok
        (Tasks.write_completion id (task, recorded) now ▸ query (λ d. Repo.Tasks.get d id)) db db' t
        h1 in
    let (mid, written, h3) =
      ▸-ok (Tasks.write_completion id (task, recorded) now) (query (λ d. Repo.Tasks.get d id)) db
        db' t h2 in
    let facts = prepare-Prepared w id evidence db (task, recorded) prepared in
    let (done, completed, mirrored) =
      exec-▸-ok (Repo.Tasks.complete_with_evidence id recorded now)
        (Tasks.mirror task.round_id now recorded.scenarios) db mid tt written in
    let (_, stored) =
      complete_with_evidence-stored id recorded now db done task facts.stored completed in
    let (read, same) = query-ok (λ d. Repo.Tasks.get d id) mid db' t h3 in
    let answer = ok-injective (Repo.Tasks.finish recorded now task) t (
      sym stored
      ∙ sym (
          get-same done mid id
            (mirror-tasks task.round_id now recorded.scenarios done mid mirrored))
      ∙ read) in
    record {
      before = task;
      recorded = recorded;
      prepared = facts;
      task = sym answer;
      stored = subst (λ d. Repo.Tasks.get d id ≡ ok t) same read;
      between = done;
      finished = completed;
      mirrored = mirrored ∙ ap (λ d. (ok tt, d)) same;
    }
