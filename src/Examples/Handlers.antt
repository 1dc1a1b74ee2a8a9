-- ===== src/Examples/Handlers.antt =====
-- The theorems on crates/daemon at a concrete store.
use sdi_plugin.Prelude.{◌≡◌, refl, inr, none, some, [], ◌∷◌, arith, Has}
use sdi_plugin.Prelude.Text.{is_blank, trim, strip_prefix}
use sdi_plugin.Domain.Error.{not_found, ok}
use sdi_plugin.Domain.Scenario.{ScenarioResult, parse_scenario_result}
use sdi_plugin.Domain.Round.{Round, RoundStatus}
use sdi_plugin.Domain.Task.{Task, TaskStatus}
use sdi_plugin.Domain.Verification.{parse_evidence_ref}
use sdi_plugin.Repo.Db.{Db, foreign_key_violation}
use sdi_plugin.Repo
use sdi_plugin.Repo.Runs
use sdi_plugin.Router.Tasks
use sdi_plugin.Router.Rounds
use sdi_plugin.Router.Gates
use sdi_plugin.Router.Gates.Evidence.{Evidences, validate_run_evidence-Evidences}
use sdi_plugin.Router.Gates.Budget.{ProvenBy, Granted, check_evidence_ref-proven}
use sdi_plugin.Router.Gates.Blocked.{Blocking}
use sdi_plugin.Router.Tasks.Completion.{Completed, complete-Completed, complete-atomic}
use sdi_plugin.Router.Rounds.Verdicts.{post_result-Granted, post_result-atomic}
use sdi_plugin.Router.Rounds.Completion.{complete-unblocked, activate-refused}
use sdi_plugin.Examples.Data.{store, workspace, round_of, task_1, run_1, evidence_1}

abbrev task_done : Task
task_done = record task_1 {
  evidence = some (record evidence_1 {
    scenarios =
        record {
          scenario_id = "SCN-1";
          result = ScenarioResult.passing;
          evidence_ref = "run:RUN-1";
          note = none;
        }
        ∷ [];
  });
  evidence_at = some 9;
  completed_at = some 9;
  status = TaskStatus.done;
  updated_at = 9;
}

abbrev after_completion : Db
unfolding Tasks.complete
after_completion = (Tasks.complete workspace "TASK-1" evidence_1 9 store).1

-- The budget of the scenario is spent, and a fresh passing run completes the task all the same.
complete-Completed_example :
    Completed workspace store after_completion "TASK-1" evidence_1 9 task_done
unfolding Tasks.complete parse_evidence_ref is_blank strip_prefix trim Gates.validate_run_evidence
    sdi_plugin.Repo.Scenarios.get sdi_plugin.Repo.Plans.get sdi_plugin.Repo.Db.order_by
complete-Completed_example =
    complete-Completed workspace "TASK-1" evidence_1 9 store after_completion task_done refl

-- The task is written before the verdict is refused, and the transaction takes it back.
abbrev unrounded : Db
unrounded = record store { rounds = [] }

complete-atomic_example : (Tasks.complete workspace "TASK-1" evidence_1 9 unrounded).1 ≡ unrounded
unfolding Tasks.complete parse_evidence_ref is_blank strip_prefix trim Gates.validate_run_evidence
    sdi_plugin.Repo.Scenarios.get sdi_plugin.Repo.Plans.get sdi_plugin.Repo.Db.order_by
complete-atomic_example =
    complete-atomic workspace "TASK-1" evidence_1 9 unrounded foreign_key_violation refl

abbrev after_post : Db
unfolding Rounds.post_result
after_post =
    (Rounds.post_result workspace "ROUND-1" "SCN-1" "passing" none (some "run:RUN-1") 9 store).1

abbrev Posted : Type 0
Posted =
    (verdict : ScenarioResult) × (round : Round) × (parse_scenario_result "passing" ≡ ok verdict)
    × (Repo.Rounds.get store "ROUND-1" ≡ ok round)
    × Granted workspace store round.plan_id "SCN-1" verdict (some "run:RUN-1")
    × (Repo.Rounds.verdict after_post "ROUND-1" "SCN-1" ≡ some verdict)

post_result-Granted_example : Posted
unfolding Rounds.post_result parse_evidence_ref parse_scenario_result strip_prefix trim
    Gates.validate_run_evidence sdi_plugin.Repo.Scenarios.get sdi_plugin.Repo.Plans.get
    sdi_plugin.Repo.Db.order_by
post_result-Granted_example =
    post_result-Granted workspace "ROUND-1" "SCN-1" "passing" none (some "run:RUN-1") 9 store
      after_post "ROUND-1" "SCN-1" refl

post_result-atomic_example :
    (Rounds.post_result workspace "ROUND-9" "SCN-1" "passing" none none 9 store).1 ≡ store
unfolding Rounds.post_result parse_scenario_result
post_result-atomic_example =
    post_result-atomic workspace "ROUND-9" "SCN-1" "passing" none none 9 store (not_found "ROUND-9")
      refl

abbrev after_round : Db
unfolding Rounds.complete
after_round = (Rounds.complete "ROUND-1" 9 store).1

abbrev round_done : Round
round_done = record (round_of "ROUND-1" 2 RoundStatus.completed) {
  completed_at = some 9;
  updated_at = 9;
}

complete-unblocked_example :
    (round : Round) × (Repo.Rounds.get store "ROUND-1" ≡ ok round)
    × (round.status ≡ RoundStatus.active)
    × (¬ Has (Blocking store "ROUND-1") store.runs)
    × (round_done
        ≡ record round { status = RoundStatus.completed; completed_at = some 9; updated_at = 9 })
    × (Repo.Rounds.get after_round "ROUND-1" ≡ ok round_done)
unfolding Rounds.complete sdi_plugin.Domain.Round.check_can_complete
    Gates.ensure_no_unresolved_infrastructure_failures sdi_plugin.Repo.Db.order_by
complete-unblocked_example = complete-unblocked "ROUND-1" 9 store after_round round_done refl

activate-refused_example : (Rounds.activate workspace "ROUND-1" none none 9 store).1 ≡ store
unfolding Repo.Rounds.get
activate-refused_example =
    activate-refused workspace "ROUND-1" none none 9 store (round_of "ROUND-1" 2 RoundStatus.active)
      refl (inr (λ h. ground (arith, h)))

validate_run_evidence-Evidences_example :
    (Runs.get_run store "RUN-1" ≡ ok run_1)
    × Evidences workspace store "PLAN-1" "SCN-1" ScenarioResult.passing run_1
unfolding Gates.validate_run_evidence sdi_plugin.Repo.Scenarios.get
validate_run_evidence-Evidences_example =
    validate_run_evidence-Evidences workspace store "PLAN-1" "SCN-1" ScenarioResult.passing "RUN-1"
      run_1 refl

check_evidence_ref-proven_example :
    ProvenBy workspace store "PLAN-1" "SCN-1" ScenarioResult.passing (some "run:RUN-1")
unfolding Gates.check_evidence_ref parse_evidence_ref strip_prefix trim Gates.validate_run_evidence
    sdi_plugin.Repo.Scenarios.get
check_evidence_ref-proven_example =
    check_evidence_ref-proven workspace store "PLAN-1" "SCN-1" ScenarioResult.passing
      (some "run:RUN-1") refl
