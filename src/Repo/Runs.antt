-- ===== src/Repo/Runs.antt =====
-- crates/db/src/repo/run.rs: runs, and whether the recorded fingerprint of a run still holds.
-- Reading the work tree (crates/db/src/workspace.rs) and SHA-256 are the parameter `Workspace`.
pub mod Finish
pub mod Frozen
pub mod Counts
use sdi_plugin.Prelude.{
  String, Bool, true, false, not, ◌&&◌, Option, none, some, List, [], ◌==◌, leb, is_some, any,
  select, find,
}
use sdi_plugin.Prelude.Split.{text_le}
use sdi_plugin.Prelude.Text.{◌⧺◌}
use sdi_plugin.Domain.Error.{validation, not_found, Result, ok, err, ◌>>=◌, show_error}
use sdi_plugin.Domain.Ids.{EntityId, Timestamp}
use sdi_plugin.Domain.Verification.{is_exit}
use sdi_plugin.Domain.Run.{Run, RunResult, is_result}
use sdi_plugin.Repo.Db.{Db, order_by, opt_eq}
use sdi_plugin.Repo.Scenarios

pub record Workspace : Type 0 where
  pub sha256_hex : String → String
  pub fingerprint :
      String → List String → List String → List (String × String) → String → Result String

unfoldable pub get_run : Db → EntityId → Result Run
get_run db id = elim (find (λ r. r.id == id) db.runs) [ none ↦ err (not_found id) | some r ↦ ok r ]

-- `contract_hash`
unfoldable pub contract_hash : Workspace → String → String → String → String
contract_hash w given when_clause then_clause =
    w.sha256_hex ("given\0" ⧺ (given ⧺ ("\0when\0" ⧺ (when_clause ⧺ ("\0then\0" ⧺ then_clause)))))

unfoldable pub contract_for_scenario : Workspace → Db → Option EntityId → Result String
unfolding contract_hash
contract_for_scenario w db none = ok ""
contract_for_scenario w db (some sid) = do
  s ← Scenarios.get db sid
  ok (contract_hash w s.given s.when_clause s.then_clause)

abbrev pub opt_items : Option (List String) → List String
opt_items none = []
opt_items (some xs) = xs

abbrev pub require_cwd : Run → Option String → Result String
require_cwd r none = err (validation ("run " ⧺ (r.id ⧺ " recorded no cwd")))
require_cwd r (some cwd) = ok cwd

unfoldable pub current_fingerprint : Workspace → Db → Run → Result String
unfolding contract_for_scenario
current_fingerprint w db r = do
  cwd ← require_cwd r r.cwd
  contract ← contract_for_scenario w db r.scenario_id
  w.fingerprint cwd r.input_globs (opt_items r.command) r.tool_versions contract

pub record Freshness : Type 0 where
  pub recorded : Option String
  pub current : Option String
  pub fresh : Bool
  pub reason : Option String

abbrev pub changed_reason : Bool → Option String
changed_reason true = none
changed_reason false = some "inputs changed since the run (fingerprint mismatch)"

abbrev pub compare_fingerprints : String → Result String → Freshness
compare_fingerprints recorded (ok current) = record {
  recorded = some recorded;
  current = some current;
  fresh = current == recorded;
  reason = changed_reason (current == recorded);
}
compare_fingerprints recorded (err e) = record {
  recorded = some recorded;
  current = none;
  fresh = false;
  reason = some (show_error e);
}

abbrev pub freshness_of : Workspace → Db → Run → Option String → Freshness
freshness_of w db r none = record {
  recorded = none;
  current = none;
  fresh = false;
  reason = some "run recorded no input fingerprint";
}
freshness_of w db r (some recorded) = compare_fingerprints recorded (current_fingerprint w db r)

unfoldable pub freshness : Workspace → Db → Run → Freshness
unfolding current_fingerprint
freshness w db r = freshness_of w db r r.input_fingerprint

abbrev pub opt_le : Option Timestamp → Option Timestamp → Bool
opt_le none b = true
opt_le (some a) none = false
opt_le (some a) (some b) = leb a b

abbrev pub same_scenario : Option EntityId → Option EntityId → Bool
same_scenario none b = false
same_scenario (some a) b = opt_eq b a

-- A finished run of the round, bound to a scenario.
abbrev pub is_finished_in : EntityId → Run → Bool
is_finished_in round_id r =
    opt_eq r.round_id round_id && is_some r.scenario_id && is_some r.finished_at

-- No finished run of the same round and scenario ended later.
abbrev pub is_latest : EntityId → List Run → Run → Bool
is_latest round_id runs r = not (
    any
      (λ q.
        is_finished_in round_id q
        && same_scenario r.scenario_id q.scenario_id
        && not (opt_le q.finished_at r.finished_at))
      runs)

abbrev pub key_le : Option String → Option String → Bool
key_le none b = true
key_le (some a) none = false
key_le (some a) (some b) = text_le a b

unfoldable pub latest_finished_per_scenario_in_round : Db → EntityId → List Run
latest_finished_per_scenario_in_round db round_id =
    order_by (λ a b. key_le a.scenario_id b.scenario_id)
      (select (λ r. is_finished_in round_id r && is_latest round_id db.runs r) db.runs)

-- Newest first.
unfoldable pub passing_runs_for_scenario : Db → EntityId → List Run
passing_runs_for_scenario db scenario_id =
    order_by (λ a b. opt_le b.finished_at a.finished_at)
      (select
        (λ r.
          opt_eq r.scenario_id scenario_id
          && is_some r.finished_at
          && is_result RunResult.success r.result
          && is_exit 0 r.exit_code
          && is_some r.input_fingerprint)
        db.runs)
