-- ===== src/Domain/Task/Transitions.antt =====
-- crates/core/src/task.rs: what the table of transitions and the evidence rule allow.
use sdi_plugin.Prelude.{
  String, ◌≡◌, refl, ◌≢◌, ◌↔◌, ◌⊎◌, inl, inr, true, false, Option, none, some, List, [], ◌∷◌, arith,
  All,
}
use sdi_plugin.Prelude.Text.{is_blank}
use sdi_plugin.Domain.Error.{accept}
use sdi_plugin.Domain.Task.{
  TaskStatus, ScenarioEvidence, TaskEvidence, evidence_is_empty, check_refs, validate_for_done,
  Task, allowed, require_evidence, check_transition,
}

abbrev pub HasRef : ScenarioEvidence → Type 0
HasRef e = is_blank e.evidence_ref ≡ false

check_refs-to : (es : List ScenarioEvidence) → check_refs es ≡ accept → All HasRef es
unfolding check_refs
check_refs-to [] h = tt
check_refs-to (e ∷ es) h = ground (arith, check_refs-to es)

check_refs-from : (es : List ScenarioEvidence) → All HasRef es → check_refs es ≡ accept
unfolding check_refs
check_refs-from [] h = refl
check_refs-from (e ∷ es) h = ground (arith, check_refs-from es)

abbrev with_parts : TaskEvidence → List ScenarioEvidence → Option String → TaskEvidence
with_parts e es m = record e { scenarios = es; summary = m }

done_rule-to :
    (e : TaskEvidence) (es : List ScenarioEvidence) (m : Option String)
    → validate_for_done (with_parts e es m) ≡ accept
    → ((es ≢ []) ⊎ (m ≢ none)) × All HasRef es
unfolding validate_for_done evidence_is_empty
done_rule-to e [] none h = ground arith
done_rule-to e [] (some x) h = (inr (ground arith), tt)
done_rule-to e (e' ∷ es) m h = (inl (ground arith), check_refs-to (e' ∷ es) (ground arith))

done_rule-from :
    (e : TaskEvidence) (es : List ScenarioEvidence) (m : Option String)
    → ((es ≢ []) ⊎ (m ≢ none)) × All HasRef es
    → validate_for_done (with_parts e es m) ≡ accept
unfolding validate_for_done evidence_is_empty
done_rule-from e [] none h = ground arith
done_rule-from e [] (some x) h = ground (arith, check_refs-from [] tt)
done_rule-from e (e' ∷ es) m h = ground (arith, check_refs-from (e' ∷ es) h.1)

-- `validate_for_done` accepts exactly the evidence that names a scenario or gives a summary, and in
-- which every scenario entry carries a reference that is not blank.
pub validate_for_done_iff :
    (e : TaskEvidence)
    → (validate_for_done e ≡ accept)
      ↔ (((e.scenarios ≢ []) ⊎ (e.summary ≢ none)) × All HasRef e.scenarios)
validate_for_done_iff e =
    (done_rule-to e e.scenarios e.summary, done_rule-from e e.scenarios e.summary)

pub allowed-done : (s : TaskStatus) → allowed s TaskStatus.done ≡ true → s ≡ TaskStatus.in_progress
unfolding allowed
allowed-done TaskStatus.in_progress h = refl
allowed-done TaskStatus.todo h = ground arith
allowed-done TaskStatus.done h = ground arith
allowed-done TaskStatus.cancelled h = ground arith
allowed-done TaskStatus.blocked h = ground arith

pub check_transition-done :
    (t : Task) (e : Option TaskEvidence)
    → check_transition t TaskStatus.done e ≡ accept
    → (t.status ≡ TaskStatus.in_progress)
      × (ev : TaskEvidence) × (e ≡ some ev)
      × (validate_for_done ev ≡ accept)
unfolding check_transition require_evidence
check_transition-done t none h = ground arith
check_transition-done t (some ev) h = (allowed-done t.status (ground arith), ev, refl, ground arith)

-- The reachable statuses of a task: a step of the table.
pub data Steps : TaskStatus → TaskStatus → Type 0 where
  stay : (s : TaskStatus) → Steps s s
  step : (a b c : TaskStatus) → allowed a b ≡ true → Steps b c → Steps a c

abbrev pub IsTerminal : TaskStatus → Type 0
IsTerminal s = (s ≡ TaskStatus.done) ⊎ (s ≡ TaskStatus.cancelled)

no_exit : (a b : TaskStatus) → allowed a b ≡ true → IsTerminal a → ⊥
unfolding allowed
no_exit TaskStatus.todo b h t = ground arith
no_exit TaskStatus.in_progress b h t = ground arith
no_exit TaskStatus.blocked b h t = ground arith
no_exit TaskStatus.done b h t = ground arith
no_exit TaskStatus.cancelled b h t = ground arith

-- Whatever transitions follow, a task that is done or cancelled keeps its status.
pub Steps-terminal : (a b : TaskStatus) → Steps a b → IsTerminal a → b ≡ a
Steps-terminal a b (stay _) t = refl
Steps-terminal a b (step _ m _ h _) t = ground (arith, no_exit a m h t)
