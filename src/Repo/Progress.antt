-- ===== src/Repo/Progress.antt =====
-- crates/db/src/repo/round.rs: progress of a round against its fixed baseline.
pub mod Balance
use sdi_plugin.Prelude.{
  ℕ, suc, String, Bool, Option, none, some, List, [], ◌∷◌, ◌++◌, map, ◌==◌, if◌then◌else◌, nat_eq,
  is_some, any,
}
use sdi_plugin.Domain.Error.{Result, ok, ◌>>=◌}
use sdi_plugin.Domain.Ids.{EntityId}
use sdi_plugin.Domain.Round.{Round}
use sdi_plugin.Domain.Scenario.{Scenario, ScenarioResult}
use sdi_plugin.Repo.Db.{Db}
use sdi_plugin.Repo.Scenarios
use sdi_plugin.Repo.Rounds
use sdi_plugin.Repo.Baseline

-- `ProgressGroup`; `percent` is a float, whose type and computation are parameters.
pub record ProgressGroup (P : Type 0) : Type 0 where
  pub total : ℕ
  pub passing : ℕ
  pub failing : ℕ
  pub impacted : ℕ
  pub needs_verification : ℕ
  pub unverified : ℕ
  pub retired : ℕ
  pub percent : Option P
  pub scenario_ids : List EntityId

-- `BaselineProgress`
pub record BaselineProgress (P : Type 0) : Type 0 where
  pub baseline_commit : Option String
  pub baseline_recorded : Bool
  pub baseline : Option (ProgressGroup P)
  pub added_after_baseline : ProgressGroup P

module _ {P : Type 0} (percent_of : ℕ → ℕ → P) where
  abbrev pub empty_group : ProgressGroup P
  empty_group = record {
    total = 0;
    passing = 0;
    failing = 0;
    impacted = 0;
    needs_verification = 0;
    unverified = 0;
    retired = 0;
    percent = none;
    scenario_ids = [];
  }

  abbrev pub listed : EntityId → ProgressGroup P → ProgressGroup P
  listed sid g = record g { total = suc g.total; scenario_ids = g.scenario_ids ++ sid ∷ [] }

  unfoldable pub add : EntityId → Option ScenarioResult → ProgressGroup P → ProgressGroup P
  add sid (some ScenarioResult.retired) g = record g { retired = suc g.retired }
  add sid (some ScenarioResult.passing) g = record (listed sid g) { passing = suc g.passing }
  add sid (some ScenarioResult.failing) g = record (listed sid g) { failing = suc g.failing }
  add sid (some ScenarioResult.impacted) g = record (listed sid g) { impacted = suc g.impacted }
  add sid (some ScenarioResult.needs_verification) g = record (listed sid g) {
    needs_verification = suc g.needs_verification;
  }
  add sid none g = record (listed sid g) { unverified = suc g.unverified }

  unfoldable pub finish : ProgressGroup P → ProgressGroup P
  finish g = record g {
    percent = if nat_eq g.total 0 then none else some (percent_of g.passing g.total);
  }

  -- A baseline scenario that was retired since, or deleted, leaves the denominator.
  abbrev pub baseline_verdict : Db → EntityId → EntityId → Option ScenarioResult
  baseline_verdict db round_id sid =
      if Scenarios.is_retired_now db sid
      then some ScenarioResult.retired
      else Rounds.verdict db round_id sid

  unfoldable pub add_baseline : Db → EntityId → List EntityId → ProgressGroup P → ProgressGroup P
  unfolding add
  add_baseline db round_id [] g = g
  add_baseline db round_id (sid ∷ sids) g =
      add_baseline db round_id sids (add sid (baseline_verdict db round_id sid) g)

  -- The scenarios outside the baseline.
  unfoldable pub add_others :
      Db → EntityId → List EntityId → List Scenario → ProgressGroup P → ProgressGroup P
  unfolding add
  add_others db round_id ids [] g = g
  add_others db round_id ids (s ∷ rest) g =
      add_others db round_id ids rest
        (if any (λ i. i == s.id) ids then g else add s.id (Rounds.verdict db round_id s.id) g)

  abbrev pub snapshot_ids : Option (List (EntityId × String × String)) → List EntityId
  snapshot_ids none = []
  snapshot_ids (some entries) = map (λ e. e.0) entries

  abbrev pub baseline_group :
      Db → EntityId → Option (List (EntityId × String × String)) → Option (ProgressGroup P)
  baseline_group db round_id none = none
  baseline_group db round_id (some entries) =
      some (finish (add_baseline db round_id (snapshot_ids (some entries)) empty_group))

  unfoldable pub baseline_progress : Db → Round → Result (BaselineProgress P)
  unfolding Rounds.find_row add_baseline add_others finish Baseline.live_scenarios
  baseline_progress db round = do
    row ← Rounds.find_row db round.id
    ok (record {
      baseline_commit = row.baseline_commit;
      baseline_recorded = is_some row.baseline_snapshot;
      baseline = baseline_group db round.id row.baseline_snapshot;
      added_after_baseline = finish (
          add_others db round.id (snapshot_ids row.baseline_snapshot)
            (Baseline.live_scenarios db round.plan_id) empty_group);
    })
