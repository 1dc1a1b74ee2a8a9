-- ===== src/Repo/Rounds.antt =====
-- crates/db/src/repo/round.rs: rounds and the scenario verdicts of a round.
pub mod Verdicts
pub mod Keys
pub mod Status
pub mod Stored
pub mod Apart
pub mod History
use sdi_plugin.Prelude.{
  ℕ, ◌+◌, String, Bool, not, ◌&&◌, Option, none, some, List, [], ◌∷◌, ◌++◌, ◌==◌, if◌then◌else◌,
  leb, nat_eq, or_else, any, select, find, update, first,
}
use sdi_plugin.Prelude.Split.{text_le}
use sdi_plugin.Domain.Error.{not_found, Result, ok, err, ◌>>=◌, ◌>>◌, refuse_if}
use sdi_plugin.Domain.Ids.{EntityId, Timestamp}
use sdi_plugin.Domain.Round.{Round, RoundStatus, round_status_eq}
use sdi_plugin.Domain.Scenario.{ScenarioResult}
use sdi_plugin.Repo.Db.{
  Db, RoundRow, ResultRow, not_like_chore, unique_violation, primary_key_violation,
  foreign_key_violation, order_by, known_pattern,
}
use sdi_plugin.Repo.Plans

unfoldable pub find_row : Db → EntityId → Result RoundRow
find_row db id = elim (find (λ r. r.round.id == id) db.rounds) [
  | none ↦ err (not_found id)
  | some r ↦ ok r
]

unfoldable pub get : Db → EntityId → Result Round
unfolding find_row
get db id = do r ← find_row db id; ok r.round

abbrev pub is_active_lane : Round → Bool
is_active_lane r = round_status_eq r.status RoundStatus.active && not_like_chore r.short_code

-- Another row of `uniq_one_active_round_per_plan` for the plan of `r`.
abbrev pub is_rival : Round → RoundRow → Bool
is_rival r q = not (q.round.id == r.id) && q.round.plan_id == r.plan_id && is_active_lane q.round

-- The constraints of an insertion: the keys in the order of their declaration, then the references.
unfoldable pub insert : Round → Db → Result Db
insert r db = do
  refuse_if (any (λ q. q.round.id == r.id) db.rounds) (primary_key_violation "rounds")
  refuse_if
      (any (λ q. q.round.plan_id == r.plan_id && nat_eq q.round.round_number r.round_number)
        db.rounds)
      (unique_violation "rounds" ("plan_id" ∷ "round_number" ∷ []))
  refuse_if
      (any (λ q. q.round.plan_id == r.plan_id && q.round.short_code == r.short_code) db.rounds)
      (unique_violation "rounds" ("plan_id" ∷ "short_code" ∷ []))
  refuse_if (is_active_lane r && any (is_rival r) db.rounds)
      (unique_violation "rounds" ("plan_id" ∷ []))
  refuse_if (not (Plans.has_plan db r.plan_id && known_pattern db r.produced_via_pattern_id))
      foreign_key_violation
  ok (record db {
    rounds =
        db.rounds
        ++ record {
          round = r;
          baseline_json = none;
          baseline_commit = none;
          baseline_snapshot = none;
          baseline_recorded_at = none;
          baseline_decision_id = none;
        }
          ∷ [];
  })

abbrev pub in_plan_with : EntityId → RoundStatus → RoundRow → Bool
in_plan_with plan_id status r = r.round.plan_id == plan_id && round_status_eq r.round.status status

abbrev pub round_of : Option RoundRow → Option Round
round_of none = none
round_of (some r) = some r.round

unfoldable pub find_active_for_plan : Db → EntityId → Option Round
find_active_for_plan db plan_id =
    round_of (find (in_plan_with plan_id RoundStatus.active) db.rounds)

-- `ORDER BY round_number DESC LIMIT 1`
unfoldable pub latest_completed_for_plan : Db → EntityId → Option Round
latest_completed_for_plan db plan_id = round_of (
    first (
      order_by (λ a b. leb b.round.round_number a.round.round_number)
        (select (in_plan_with plan_id RoundStatus.completed) db.rounds)))

abbrev pub max_number : EntityId → List RoundRow → ℕ
max_number plan_id [] = 0
max_number plan_id (r ∷ rs) =
    let rest = max_number plan_id rs in
    if r.round.plan_id == plan_id && leb rest r.round.round_number
    then r.round.round_number
    else rest

-- `COALESCE(MAX(round_number), 0) + 1`
unfoldable pub next_round_number : Db → EntityId → ℕ
next_round_number db plan_id = max_number plan_id db.rounds + 1

abbrev pub with_status :
    RoundStatus → Option Timestamp → Option Timestamp → Timestamp → Round → Round
with_status status activated_at completed_at now r = record r {
  status = status;
  activated_at = or_else activated_at r.activated_at;
  completed_at = or_else completed_at r.completed_at;
  updated_at = now;
}

abbrev pub on_round : (Round → Round) → RoundRow → RoundRow
on_round f q = record q { round = f q.round }

unfoldable pub set_status :
    EntityId → RoundStatus → Option Timestamp → Option Timestamp → Timestamp → Db → Result Db
unfolding get
set_status id status activated_at completed_at now db = do
  r ← get db id
  refuse_if
      (is_active_lane (with_status status activated_at completed_at now r)
        && any (is_rival r) db.rounds)
      (unique_violation "rounds" ("plan_id" ∷ []))
  ok (record db {
    rounds =
        update (λ q. q.round.id == id) (on_round (with_status status activated_at completed_at now))
          db.rounds;
  })

abbrev pub is_result_of : EntityId → EntityId → ResultRow → Bool
is_result_of round_id scenario_id r = r.round_id == round_id && r.scenario_id == scenario_id

abbrev pub put_result : ResultRow → List ResultRow → List ResultRow
put_result row rows =
    if any (is_result_of row.round_id row.scenario_id) rows
    then update (is_result_of row.round_id row.scenario_id) (λ _. row) rows
    else rows ++ row ∷ []

unfoldable pub upsert_result :
    EntityId
    → EntityId
    → ScenarioResult
    → Option String
    → Option String
    → Timestamp
    → Db
    → Result Db
upsert_result round_id scenario_id result note evidence_ref now db = do
  refuse_if
      (not (
        any (λ r. r.round.id == round_id) db.rounds && any (λ s. s.id == scenario_id) db.scenarios))
      foreign_key_violation
  ok (record db {
    results =
        put_result
          (record {
            round_id = round_id;
            scenario_id = scenario_id;
            result = result;
            note = note;
            evidence_ref = evidence_ref;
            updated_at = now;
          })
          db.results;
  })

unfoldable pub list_results : Db → EntityId → List ResultRow
list_results db round_id =
    order_by (λ a b. text_le a.scenario_id b.scenario_id)
      (select (λ r. r.round_id == round_id) db.results)

abbrev pub verdict_of : Option ResultRow → Option ScenarioResult
verdict_of none = none
verdict_of (some r) = some r.result

-- The verdict of a scenario in a round.
unfoldable pub verdict : Db → EntityId → EntityId → Option ScenarioResult
verdict db round_id scenario_id = verdict_of (find (is_result_of round_id scenario_id) db.results)
