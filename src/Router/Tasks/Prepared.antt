-- ===== src/Router/Tasks/Prepared.antt =====
-- crates/daemon/src/router/task.rs: what the checks before the writes of a completion grant.
use sdi_plugin.Prelude.{
  String, ◌≡◌, ◌≢◌, ◌⊎◌, refl, sym, ap, true, arith, Option, none, some, List, [], ◌∷◌, ◌==◌, any,
  All,
}
use sdi_plugin.Domain.Error.{ok, ◌>>=◌, accept}
use sdi_plugin.Domain.Ids.{EntityId}
use sdi_plugin.Domain.Results.{guard-ok, >>=-ok, not-false}
use sdi_plugin.Domain.Task.{Task, TaskStatus, TaskEvidence, ScenarioEvidence}
use sdi_plugin.Repo.Db.{Db}
use sdi_plugin.Repo.Runs.{Workspace}
use sdi_plugin.Repo
use sdi_plugin.Repo.Scenarios
use sdi_plugin.Router.Tasks
use mathlib.Core.Path.{subst}
use sdi_plugin.Domain.Results.{ok-injective}
use sdi_plugin.Domain.Task.Transitions.{HasRef, check_transition-done, validate_for_done_iff}
use sdi_plugin.Domain.Task.{validate_for_done}
use sdi_plugin.Router.Gates.Budget.{Granted, gates-Granted}

-- An entry as the gates see it, its reference resolved to a parent scenario of the task.
pub record Accepted (w : Workspace) (db : Db) (task : Task) (se : ScenarioEvidence) : Type 0 where
  pub parent : any (λ p. p == se.scenario_id) task.parent_scenario_ids ≡ true
  pub granted : Granted w db task.plan_id se.scenario_id se.result (some se.evidence_ref)

-- The evidence that is recorded, entry by entry of the evidence that was sent: each entry with the id
-- of the scenario of the plan that its reference resolves to, in the same order, none left out.
abbrev pub Resolved : Db → Task → List ScenarioEvidence → List ScenarioEvidence → Type 0
Resolved db task [] [] = Unit {0}
Resolved db task (se ∷ ses) (out ∷ outs) =
    (Scenarios.resolve_ref db task.plan_id se.scenario_id ≡ some out.scenario_id)
    × (out ≡ record se { scenario_id = out.scenario_id })
    × Resolved db task ses outs
Resolved db task _ _ = ⊥

abbrev IsParent : Task → ScenarioEvidence → Type 0
IsParent task se = any (λ p. p == se.scenario_id) task.parent_scenario_ids ≡ true

parent_only-IsParent :
    (task : Task) (se out : ScenarioEvidence) (id : EntityId)
    → Tasks.parent_only task se id ≡ ok out
    → IsParent task out
parent_only-IsParent task se out id h =
    let (parent, h1) = guard-ok _ _ _ _ h in
    subst (IsParent task) (ok-injective (record se { scenario_id = id }) out h1)
      (not-false _ parent)

resolve_one-IsParent :
    (db : Db) (task : Task) (se out : ScenarioEvidence)
    → Tasks.resolve_one db task se ≡ ok out
    → IsParent task out
unfolding Tasks.resolve_one
resolve_one-IsParent db task se out h =
    let (id, _, h1) =
      >>=-ok
        (Tasks.resolved_or se.scenario_id (Scenarios.resolve_ref db task.plan_id se.scenario_id))
        (Tasks.parent_only task se) out h in
    parent_only-IsParent task se out id h1

resolve_evidence-parents :
    (db : Db) (task : Task) (ses out : List ScenarioEvidence)
    → Tasks.resolve_evidence db task ses ≡ ok out
    → All (IsParent task) out
unfolding Tasks.resolve_evidence
resolve_evidence-parents db task [] out h = subst (All (IsParent task)) (ok-injective [] out h) tt
resolve_evidence-parents db task (se ∷ ses) out h =
    let (resolved, one, h1) =
      >>=-ok (Tasks.resolve_one db task se)
        (λ r. Tasks.resolve_evidence db task ses >>= λ later. ok (r ∷ later)) out h in
    let (later, rest, h2) =
      >>=-ok (Tasks.resolve_evidence db task ses) (λ later. ok (resolved ∷ later)) out h1 in
    subst (All (IsParent task)) (ok-injective (resolved ∷ later) out h2) (
      resolve_one-IsParent db task se resolved one,
      resolve_evidence-parents db task ses later rest,
    )

resolved_or-ok :
    (reference : String) (o : Option EntityId) (id : EntityId)
    → Tasks.resolved_or reference o ≡ ok id
    → o ≡ some id
resolved_or-ok reference none id h = ground arith
resolved_or-ok reference (some i) id h = ap some (ok-injective i id h)

abbrev ResolvedOne : Db → Task → ScenarioEvidence → ScenarioEvidence → Type 0
ResolvedOne db task se out =
    (Scenarios.resolve_ref db task.plan_id se.scenario_id ≡ some out.scenario_id)
    × (out ≡ record se { scenario_id = out.scenario_id })

resolve_one-Resolved :
    (db : Db) (task : Task) (se out : ScenarioEvidence)
    → Tasks.resolve_one db task se ≡ ok out
    → ResolvedOne db task se out
unfolding Tasks.resolve_one
resolve_one-Resolved db task se out h =
    let (id, found, h1) =
      >>=-ok
        (Tasks.resolved_or se.scenario_id (Scenarios.resolve_ref db task.plan_id se.scenario_id))
        (Tasks.parent_only task se) out h in
    let (_, h2) = guard-ok _ _ _ _ h1 in
    let given = resolved_or-ok se.scenario_id _ id found in
    subst (ResolvedOne db task se) (ok-injective (record se { scenario_id = id }) out h2)
      (given, refl)

resolve_evidence-Resolved :
    (db : Db) (task : Task) (ses out : List ScenarioEvidence)
    → Tasks.resolve_evidence db task ses ≡ ok out
    → Resolved db task ses out
unfolding Tasks.resolve_evidence
resolve_evidence-Resolved db task [] out h = subst (Resolved db task []) (ok-injective [] out h) tt
resolve_evidence-Resolved db task (se ∷ ses) out h =
    let (resolved, one, h1) =
      >>=-ok (Tasks.resolve_one db task se)
        (λ r. Tasks.resolve_evidence db task ses >>= λ later. ok (r ∷ later)) out h in
    let (later, rest, h2) =
      >>=-ok (Tasks.resolve_evidence db task ses) (λ later. ok (resolved ∷ later)) out h1 in
    let (found, same) = resolve_one-Resolved db task se resolved one in
    subst (Resolved db task (se ∷ ses)) (ok-injective (resolved ∷ later) out h2)
      (found, same, resolve_evidence-Resolved db task ses later rest)

check_evidence-Accepted :
    (w : Workspace) (db : Db) (task : Task) (ses : List ScenarioEvidence)
    → All (IsParent task) ses
    → Tasks.check_evidence w db task ses ≡ accept
    → All (Accepted w db task) ses
unfolding Tasks.check_evidence
check_evidence-Accepted w db task [] parents h = tt
check_evidence-Accepted w db task (se ∷ ses) parents h =
    let (proven, gate, h1) = >>=-ok _ _ _ h in
    let (_, budget, h2) = >>=-ok _ _ _ h1 in
    (
      record {
        parent = parents.0;
        granted =
            gates-Granted w db task.plan_id se.scenario_id se.result (some se.evidence_ref) proven
              gate budget;
      },
      check_evidence-Accepted w db task ses parents.1 h2,
    )

-- What a completion relies on: the task was in progress, the evidence names a scenario or gives a
-- summary and has no blank reference, the recorded evidence is the one that was sent with its
-- references resolved, and each entry of it was accepted.
pub record Prepared (w : Workspace) (db : Db) (id : EntityId) (sent : TaskEvidence) (task : Task)
    (evidence : TaskEvidence) : Type 0 where
  pub stored : Repo.Tasks.get db id ≡ ok task
  pub was_in_progress : task.status ≡ TaskStatus.in_progress
  pub substantial : (sent.scenarios ≢ []) ⊎ (sent.summary ≢ none)
  pub referenced : All HasRef sent.scenarios
  pub resolved : Resolved db task sent.scenarios evidence.scenarios
  pub same : evidence ≡ record sent { scenarios = evidence.scenarios }
  pub entries : All (Accepted w db task) evidence.scenarios

some-injective : (a b : TaskEvidence) → some a ≡ some b → a ≡ b
some-injective a b h = ground arith

pub prepare-Prepared :
    (w : Workspace) (id : EntityId) (evidence : TaskEvidence) (db : Db) (p : Task × TaskEvidence)
    → Tasks.prepare w id evidence db ≡ ok p
    → Prepared w db id evidence p.0 p.1
unfolding Tasks.prepare
prepare-Prepared w id evidence db p h =
    let (task, found, h1) = >>=-ok _ _ _ h in
    let (_, transition, h2) = >>=-ok _ _ _ h1 in
    let (scenarios, resolved, h3) = >>=-ok _ _ _ h2 in
    let (_, gates, h4) = >>=-ok _ _ _ h3 in
    let parents = resolve_evidence-parents db task evidence.scenarios scenarios resolved in
    let (in_progress, ev, given, valid) = check_transition-done task (some evidence) transition in
    let valid_sent =
      subst (λ e. validate_for_done e ≡ accept) (some-injective ev evidence (sym given)) valid in
    let (some_content, refs) = (validate_for_done_iff evidence).0 valid_sent in
    let facts : Prepared w db id evidence task (record evidence { scenarios = scenarios }) =
      record {
        stored = found;
        was_in_progress = in_progress;
        substantial = some_content;
        referenced = refs;
        resolved = resolve_evidence-Resolved db task evidence.scenarios scenarios resolved;
        same = refl;
        entries = check_evidence-Accepted w db task scenarios parents gates;
      } in
    subst (λ q. Prepared w db id evidence q.0 q.1) (ok-injective _ p h4) facts
