-- ===== src/Repo/Progress/Balance.antt =====
-- crates/db/src/repo/round.rs: the counts of a progress group add up.
use sdi_plugin.Prelude.{
  ℕ, suc, ◌+◌, String, ◌≡◌, refl, ap, Bool, true, false, Option, none, some, List, [], ◌∷◌, ◌++◌,
  arith, ◌==◌, if◌then◌else◌, length, any,
}
use sdi_plugin.Domain.Error.{ok}
use sdi_plugin.Domain.Ids.{EntityId}
use sdi_plugin.Domain.Round.{Round}
use sdi_plugin.Domain.Scenario.{Scenario, ScenarioResult}
use sdi_plugin.Repo.Db.{Db}
use sdi_plugin.Repo.Rounds
use sdi_plugin.Repo.Baseline
use sdi_plugin.Repo.Progress.{
  ProgressGroup, BaselineProgress, add, add_baseline, add_others, finish, empty_group,
  baseline_group, baseline_verdict, snapshot_ids, baseline_progress,
}
use sdi_plugin.Domain.Results.{>>=-ok, ok-injective}
use sdi_plugin.Prelude.{◌∙◌}
use mathlib.Core.Path.{subst}

-- The total is the sum of the five verdict counts, and is the number of scenarios listed.
pub record IsBalanced {P : Type 0} (g : ProgressGroup P) : Type 0 where
  pub sum : g.total ≡ g.passing + g.failing + g.impacted + g.needs_verification + g.unverified
  pub listed : length g.scenario_ids ≡ g.total

length-snoc : (xs : List EntityId) (x : EntityId) → length (xs ++ x ∷ []) ≡ suc (length xs)
length-snoc [] x = refl
length-snoc (y ∷ ys) x = ap suc (length-snoc ys x)

module _ {P : Type 0} (percent_of : ℕ → ℕ → P) where
  add-IsBalanced :
      (sid : EntityId) (v : Option ScenarioResult) (g : ProgressGroup P)
      → IsBalanced g
      → IsBalanced (add percent_of sid v g)
  unfolding add
  add-IsBalanced sid (some ScenarioResult.retired) g h = record { sum = h.sum; listed = h.listed }
  add-IsBalanced sid (some ScenarioResult.passing) g h = record {
    sum = ground (arith, h.sum);
    listed = length-snoc g.scenario_ids sid ∙ ap suc h.listed;
  }
  add-IsBalanced sid (some ScenarioResult.failing) g h = record {
    sum = ground (arith, h.sum);
    listed = length-snoc g.scenario_ids sid ∙ ap suc h.listed;
  }
  add-IsBalanced sid (some ScenarioResult.impacted) g h = record {
    sum = ground (arith, h.sum);
    listed = length-snoc g.scenario_ids sid ∙ ap suc h.listed;
  }
  add-IsBalanced sid (some ScenarioResult.needs_verification) g h = record {
    sum = ground (arith, h.sum);
    listed = length-snoc g.scenario_ids sid ∙ ap suc h.listed;
  }
  add-IsBalanced sid none g h = record {
    sum = ground (arith, h.sum);
    listed = length-snoc g.scenario_ids sid ∙ ap suc h.listed;
  }

  add_baseline-IsBalanced :
      (db : Db) (round_id : EntityId) (sids : List EntityId) (g : ProgressGroup P)
      → IsBalanced g
      → IsBalanced (add_baseline percent_of db round_id sids g)
  unfolding add_baseline
  add_baseline-IsBalanced db round_id [] g h = h
  add_baseline-IsBalanced db round_id (sid ∷ sids) g h =
      add_baseline-IsBalanced db round_id sids _
        (add-IsBalanced sid (baseline_verdict percent_of db round_id sid) g h)

  add_others-IsBalanced :
      (db : Db) (round_id : EntityId) (ids : List EntityId) (ss : List Scenario)
      (g : ProgressGroup P)
      → IsBalanced g
      → IsBalanced (add_others percent_of db round_id ids ss g)
  unfolding add_others
  add_others-IsBalanced db round_id ids [] g h = h
  add_others-IsBalanced db round_id ids (s ∷ ss) g h =
      add_others-IsBalanced db round_id ids ss _ (either (any (λ i. i == s.id) ids))
    where
      either :
          (b : Bool)
          → IsBalanced (if b then g else add percent_of s.id (Rounds.verdict db round_id s.id) g)
      either true = h
      either false = add-IsBalanced s.id (Rounds.verdict db round_id s.id) g h

  finish-IsBalanced : (g : ProgressGroup P) → IsBalanced g → IsBalanced (finish percent_of g)
  unfolding finish
  finish-IsBalanced g h = record { sum = h.sum; listed = h.listed }

  empty_group-IsBalanced : IsBalanced (empty_group percent_of)
  empty_group-IsBalanced = record { sum = refl; listed = refl }

  baseline_group-IsBalanced :
      (db : Db) (round_id : EntityId) (snapshot : Option (List (EntityId × String × String)))
      (g : ProgressGroup P)
      → baseline_group percent_of db round_id snapshot ≡ some g
      → IsBalanced g
  baseline_group-IsBalanced db round_id none g h = ground arith
  baseline_group-IsBalanced db round_id (some entries) g h = subst IsBalanced (content _ g h) (
      finish-IsBalanced _ (
        add_baseline-IsBalanced db round_id (snapshot_ids percent_of (some entries)) _
          empty_group-IsBalanced))
    where
      content : (a b : ProgressGroup P) → some a ≡ some b → a ≡ b
      content a b q = ground arith

-- In the progress of a round, both the group of the baseline and the group of what was added since
-- are balanced: each scenario listed is counted under one verdict, and retired ones are left out.
pub baseline_progress-IsBalanced :
    {P : Type 0} (percent_of : ℕ → ℕ → P) (db : Db) (round : Round) (p : BaselineProgress P)
    (g : ProgressGroup P)
    → baseline_progress percent_of db round ≡ ok p
    → p.baseline ≡ some g
    → IsBalanced g × IsBalanced p.added_after_baseline
unfolding baseline_progress
baseline_progress-IsBalanced percent_of db round p g h k =
    let (row, _, h1) = >>=-ok (Rounds.find_row db round.id) _ p h in
    let same = ok-injective _ p h1 in
    (
      baseline_group-IsBalanced percent_of db round.id row.baseline_snapshot g
          (ap (λ q. q.baseline) same ∙ k),
      subst (λ q. IsBalanced q.added_after_baseline) same
          (finish-IsBalanced percent_of _ (
            add_others-IsBalanced percent_of db round.id
              (snapshot_ids percent_of row.baseline_snapshot)
              (Baseline.live_scenarios db round.plan_id) _ (empty_group-IsBalanced percent_of))),
    )
