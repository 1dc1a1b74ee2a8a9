-- ===== src/Examples/Store.antt =====
-- The theorems on crates/db at a concrete store.
use sdi_plugin.Prelude.{
  List, inl, inr, arith, ◌↔◌, ℕ, ◌≡◌, refl, true, false, none, some, [], ◌∷◌, ◌++◌, map, All,
}
use sdi_plugin.Prelude.Split.{text_le}
use sdi_plugin.Domain.Error.{Result, ok, err}
use sdi_plugin.Domain.Scenario.{ScenarioResult}
use sdi_plugin.Domain.Round.{RoundStatus}
use sdi_plugin.Domain.Decision.{Decision, DecisionKind}
use sdi_plugin.Domain.Autonomy.{AutonomyPolicy, AutonomyMode, validate_mode_against_kind}
use sdi_plugin.Prelude.Int.{pos}
use sdi_plugin.Repo.Db.{Db}
use sdi_plugin.Repo.Rounds
use sdi_plugin.Repo.Budgets
use sdi_plugin.Repo.Decisions
use sdi_plugin.Repo.Policies
use sdi_plugin.Repo.CarryOver.{carry, carry_over_results}
use sdi_plugin.Repo.Progress.{ProgressGroup, BaselineProgress, baseline_progress}
use sdi_plugin.Repo.Rounds.Apart.{AreApart, ne-false}
use sdi_plugin.Repo.Rounds.History.{Statement, execute_all, execute_all-AreApart}
use sdi_plugin.Repo.Rounds.Verdicts.{verdict-upsert_result}
use sdi_plugin.Repo.Budgets.Release.{Released, release-Released}
use sdi_plugin.Repo.Budgets.Spent.{is_spent, ensure_available-unspent}
use sdi_plugin.Repo.Decisions.Negotiation.{
  text_of, IsNegotiated, insert-appends, insert-IsNegotiated,
}
use sdi_plugin.Repo.Policies.Laws.{IsSound, upsert-IsSound}
use sdi_plugin.Repo.Policies.Breaker.{Demotes, circuit_breaker-demotes}
use sdi_plugin.Repo.CarryOver.Kept.{carry_over_results-keeps}
use sdi_plugin.Repo.CarryOver.Trust.{IsTrusted, carry-passing_iff}
use sdi_plugin.Repo.Progress.Balance.{IsBalanced, baseline_progress-IsBalanced}
use sdi_plugin.Examples.Data.{store, calm, workspace, round_of, decision_of, policy_1, passing_row}

-- What a statement writes.
abbrev written : Result Db → Db
written (ok d) = d
written (err _) = store

abbrev after_verdict : Db
unfolding Rounds.upsert_result
after_verdict =
    written (Rounds.upsert_result "ROUND-1" "SCN-1" ScenarioResult.passing none none 9 store)

verdict-upsert_result_example :
    Rounds.verdict after_verdict "ROUND-1" "SCN-1" ≡ some ScenarioResult.passing
unfolding Rounds.upsert_result
verdict-upsert_result_example =
    verdict-upsert_result "ROUND-1" "SCN-1" ScenarioResult.passing none none 9 store after_verdict
      "ROUND-1" "SCN-1" refl

abbrev released : Result (Db × ℕ) → Db
released (ok (d, _)) = d
released (err _) = store

abbrev after_release : Db
unfolding Budgets.release
after_release = released (Budgets.release "PLAN-1" "SCN-1" (some "sig:1") "DEC-1" 9 store)

release-Released_example : Released "PLAN-1" "SCN-1" (some "sig:1") "DEC-1" 9 store after_release 1
unfolding Budgets.release
release-Released_example =
    release-Released "PLAN-1" "SCN-1" (some "sig:1") "DEC-1" 9 store after_release 1 refl

ensure_available-unspent_example :
    All (λ sid. is_spent "PLAN-1" (pos 3) sid calm ≡ false) ("SCN-1" ∷ "SCN-2" ∷ [])
unfolding Budgets.ensure_available Budgets.cap_for_plan sdi_plugin.Repo.Plans.get
    sdi_plugin.Repo.Db.order_by
ensure_available-unspent_example =
    ensure_available-unspent calm "PLAN-1" (pos 3) ("SCN-1" ∷ "SCN-2" ∷ []) refl refl

abbrev consensus_1 : Decision
consensus_1 = decision_of "DEC-3" DecisionKind.consensus (some "DEC-1")

abbrev after_consensus : Db
unfolding Decisions.insert
after_consensus = written (Decisions.insert consensus_1 store)

insert-appends_example :
    map text_of after_consensus.decisions ≡ map text_of store.decisions ++ text_of consensus_1 ∷ []
unfolding Decisions.insert sdi_plugin.Repo.Db.order_by
insert-appends_example = insert-appends consensus_1 store after_consensus refl

insert-IsNegotiated_example : IsNegotiated after_consensus.decisions
unfolding Decisions.insert sdi_plugin.Repo.Db.order_by
insert-IsNegotiated_example =
    insert-IsNegotiated consensus_1 store after_consensus (refl, (refl, tt)) refl

circuit_breaker-demotes_example :
    Demotes "PROJ-1" "u" "r" 9 store.policies
      (Policies.circuit_breaker "PROJ-1" "u" "r" 9 store).0.policies
      (Policies.circuit_breaker "PROJ-1" "u" "r" 9 store).1
    × ((Policies.circuit_breaker "PROJ-1" "u" "r" 9 store).0 ≡ record store {
      policies = (Policies.circuit_breaker "PROJ-1" "u" "r" 9 store).0.policies;
    })
circuit_breaker-demotes_example = circuit_breaker-demotes "PROJ-1" "u" "r" 9 store

abbrev policy_2 : AutonomyPolicy
policy_2 = record policy_1 { mode = AutonomyMode.l3; retry_budget_cap = pos 9 }

abbrev after_policy : Db
unfolding Policies.upsert
after_policy = written (Policies.upsert policy_2 store)

IsSound-store : All IsSound store.policies
unfolding validate_mode_against_kind
IsSound-store = (
  record { retry_cap = omega arith; threshold = omega arith; depth = omega arith; floor = refl },
  tt,
)

upsert-IsSound_example : All IsSound after_policy.policies
unfolding Policies.upsert validate_mode_against_kind
upsert-IsSound_example = upsert-IsSound policy_2 store after_policy IsSound-store refl

carry-passing_iff_example :
    ((carry workspace store passing_row).result ≡ ScenarioResult.passing)
    ↔ ((passing_row.result ≡ ScenarioResult.passing) × IsTrusted workspace store passing_row)
carry-passing_iff_example = carry-passing_iff workspace store passing_row

carry_over_results-keeps_example :
    Rounds.verdict
      (carry_over_results workspace (round_of "ROUND-1" 2 RoundStatus.planning) "ROUND-0" 9 store).1
      "ROUND-1"
      "SCN-2"
    ≡ some ScenarioResult.failing
unfolding Rounds.verdict
carry_over_results-keeps_example =
    carry_over_results-keeps workspace (round_of "ROUND-1" 2 RoundStatus.planning) "ROUND-0" 9 store
      "ROUND-1" "SCN-2" ScenarioResult.failing refl

abbrev percent : ℕ → ℕ → ℕ
percent a b = a

abbrev group_1 : ProgressGroup ℕ
group_1 = record {
  total = 1;
  passing = 0;
  failing = 0;
  impacted = 0;
  needs_verification = 0;
  unverified = 1;
  retired = 0;
  percent = some 0;
  scenario_ids = "SCN-1" ∷ [];
}

abbrev progress_1 : BaselineProgress ℕ
progress_1 = record {
  baseline_commit = none;
  baseline_recorded = true;
  baseline = some group_1;
  added_after_baseline = record {
    total = 1;
    passing = 0;
    failing = 1;
    impacted = 0;
    needs_verification = 0;
    unverified = 0;
    retired = 0;
    percent = some 0;
    scenario_ids = "SCN-2" ∷ [];
  };
}

baseline_progress-IsBalanced_example :
    IsBalanced group_1 × IsBalanced progress_1.added_after_baseline
unfolding baseline_progress sdi_plugin.Repo.Scenarios.is_retired_now sdi_plugin.Repo.Db.order_by
    Rounds.verdict text_le
baseline_progress-IsBalanced_example =
    baseline_progress-IsBalanced percent store (round_of "ROUND-1" 2 RoundStatus.active) progress_1
      group_1 refl refl

-- Two rounds are made, and the active round of the plan is completed before the next is activated;
-- activating a third one beside it fails.
abbrev statements : List Statement
statements =
    Statement.make (round_of "ROUND-3" 4 RoundStatus.planning)
    ∷ Statement.move "ROUND-1" RoundStatus.completed none (some 9) 9
    ∷ Statement.move "ROUND-2" RoundStatus.active (some 9) none 9
    ∷ Statement.move "ROUND-3" RoundStatus.active (some 9) none 9
    ∷ []

AreApart-store : AreApart store.rounds
AreApart-store = (
  (
    (
      ne-false "ROUND-0" "ROUND-1" refl,
      inr (ground arith, ne-false "ROUND-0" "ROUND-1" refl, inl (inl (ground arith))),
    ),
    (
      (
        ne-false "ROUND-0" "ROUND-2" refl,
        inr (ground arith, ne-false "ROUND-0" "ROUND-2" refl, inl (inl (ground arith))),
      ),
      tt,
    ),
  ),
  (
    (
      (
        ne-false "ROUND-1" "ROUND-2" refl,
        inr (ground arith, ne-false "ROUND-1" "ROUND-2" refl, inr (inl (ground arith))),
      ),
      tt,
    ),
    (tt, tt),
  ),
)

execute_all-AreApart_example : AreApart (execute_all statements store).rounds
execute_all-AreApart_example = execute_all-AreApart statements store AreApart-store
