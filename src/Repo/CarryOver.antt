-- ===== src/Repo/CarryOver.antt =====
-- crates/db/src/repo/round.rs: `carry_over_results`, the verdicts that a new round takes over from
-- the last completed one.
pub mod Kept
pub mod Trust
use sdi_plugin.Prelude.{
  ℕ, suc, String, Bool, true, false, ◌&&◌, Option, none, some, List, [], ◌∷◌, ◌++◌, ◌==◌,
  if◌then◌else◌, any, select,
}
use sdi_plugin.Prelude.Text.{◌⧺◌}
use sdi_plugin.Domain.Error.{Result, ok, err}
use sdi_plugin.Domain.Ids.{EntityId, Timestamp}
use sdi_plugin.Domain.Round.{Round}
use sdi_plugin.Domain.Scenario.{ScenarioResult, scenario_result_eq}
use sdi_plugin.Domain.Verification.{EvidenceRef, parse_evidence_ref, run_id}
use sdi_plugin.Domain.Run.{Run}
use sdi_plugin.Repo.Db.{Db, ResultRow}
use sdi_plugin.Repo.Action.{Action, settle, resume}
use sdi_plugin.Repo.Rounds
use sdi_plugin.Repo.Runs
use sdi_plugin.Repo.Runs.{Workspace, Freshness}
use sdi_plugin.Repo.Scenarios

pub record DemotedPass : Type 0 where
  pub scenario_id : EntityId
  pub run_id : EntityId
  pub recorded_fingerprint : Option String
  pub current_fingerprint : Option String
  pub reason : String

pub record CarryOver : Type 0 where
  pub carried : ℕ
  pub demoted : List DemotedPass

abbrev pub no_carry_over : CarryOver
no_carry_over = record { carried = 0; demoted = [] }

-- The run that evidences a verdict, if its reference names one.
abbrev pub ref_of : Result EvidenceRef → Option EntityId
ref_of (ok e) = run_id e
ref_of (err _) = none

abbrev pub run_ref : Option String → Option EntityId
run_ref none = none
run_ref (some r) = ref_of (parse_evidence_ref r)

abbrev pub freshness_of_found : Workspace → Db → EntityId → Result Run → Freshness
freshness_of_found w db id (ok r) = Runs.freshness w db r
freshness_of_found w db id (err _) = record {
  recorded = none;
  current = none;
  fresh = false;
  reason = some ("evidence run " ⧺ (id ⧺ " no longer exists"));
}

abbrev pub reason_of : Option String → String
reason_of none = "fingerprint could not be confirmed"
reason_of (some r) = r

abbrev pub stale_note : String → Option String → String
stale_note reason (some n) = "carried pass is stale: " ⧺ (reason ⧺ ("; prior note: " ⧺ n))
stale_note reason none = "carried pass is stale: " ⧺ reason

-- What is carried for one row: the verdict, the note, and the record of a demotion.
pub record Carried : Type 0 where
  pub result : ScenarioResult
  pub note : Option String
  pub demotion : Option DemotedPass

abbrev pub unchanged : ResultRow → Carried
unchanged row = record { result = row.result; note = row.note; demotion = none }

abbrev pub recheck_with : ResultRow → EntityId → Freshness → Carried
recheck_with row id f = if f.fresh then unchanged row else record {
  result = ScenarioResult.needs_verification;
  note = some (stale_note (reason_of f.reason) row.note);
  demotion = some (record {
    scenario_id = row.scenario_id;
    run_id = id;
    recorded_fingerprint = f.recorded;
    current_fingerprint = f.current;
    reason = reason_of f.reason;
  });
}

abbrev pub recheck : Workspace → Db → ResultRow → Option EntityId → Carried
recheck w db row none = unchanged row
recheck w db row (some id) = recheck_with row id (freshness_of_found w db id (Runs.get_run db id))

unfoldable pub carry : Workspace → Db → ResultRow → Carried
unfolding Runs.freshness Runs.get_run
carry w db row =
    if scenario_result_eq row.result ScenarioResult.passing
    then recheck w db row (run_ref row.evidence_ref)
    else unchanged row

abbrev pub report_demotion : Option DemotedPass → List DemotedPass → List DemotedPass
report_demotion none ds = ds
report_demotion (some d) ds = ds ++ d ∷ []

abbrev pub report_carried : Carried → CarryOver → CarryOver
report_carried c report = record {
  carried = suc report.carried;
  demoted = report_demotion c.demotion report.demoted;
}

abbrev pub has_result : Db → EntityId → EntityId → Bool
has_result db round_id scenario_id = any (Rounds.is_result_of round_id scenario_id) db.results

-- The statement that writes a carried row.
abbrev pub write_carried : EntityId → ResultRow → Carried → Timestamp → Db → Result Db
write_carried round_id row c now =
    Rounds.upsert_result round_id row.scenario_id c.result c.note row.evidence_ref now

-- The loop; a row of the new round that is there already is kept.
unfoldable pub carry_rows :
    Workspace → EntityId → Timestamp → List ResultRow → CarryOver → Action CarryOver
unfolding carry
carry_rows w round_id now [] report db = (ok report, db)
carry_rows w round_id now (row ∷ rows) report db = elim (has_result db round_id row.scenario_id) [
  | true ↦ carry_rows w round_id now rows report db
  | false ↦
      resume (settle (write_carried round_id row (carry w db row) now db) db).0
        (λ _. carry_rows w round_id now rows (report_carried (carry w db row) report))
        (settle (write_carried round_id row (carry w db row) now db) db).1
]

-- The join: verdicts of the previous round on live scenarios of the plan.
abbrev pub is_carried : Db → EntityId → EntityId → ResultRow → Bool
is_carried db prev_round_id plan_id r =
    r.round_id == prev_round_id
    && any (λ s. s.id == r.scenario_id && Scenarios.is_live plan_id s) db.scenarios

unfoldable pub carry_over_results : Workspace → Round → EntityId → Timestamp → Action CarryOver
unfolding carry_rows
carry_over_results w new_round prev_round_id now db =
    carry_rows w new_round.id now
      (select (is_carried db prev_round_id new_round.plan_id) db.results) no_carry_over db
