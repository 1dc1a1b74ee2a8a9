-- ===== src/Router/Rounds/Verdicts.antt =====
-- crates/daemon/src/router/round.rs: what the verdict handler and the completion of a round grant.
use sdi_plugin.Prelude.{String, ◌≡◌, refl, ap, Bool, ◌&&◌, Option, some, arith, ◌==◌, if◌then◌else◌}
use sdi_plugin.Domain.Error.{DomainError, Result, ok, err, ◌>>=◌, ◌>>◌}
use sdi_plugin.Domain.Ids.{EntityId, Timestamp}
use sdi_plugin.Domain.Scenario.{ScenarioResult}
use sdi_plugin.Repo.Db.{Db}
use sdi_plugin.Repo.Runs.{Workspace}
use sdi_plugin.Repo
use sdi_plugin.Domain.Round.{Round}
use sdi_plugin.Domain.Scenario.{parse_scenario_result}
use sdi_plugin.Router.Rounds
use sdi_plugin.Router.Gates
use sdi_plugin.Router.Gates.Budget.{Granted, gates-Granted}
use sdi_plugin.Repo.Rounds.Verdicts.{verdict-upsert_result}
use sdi_plugin.Repo.Action.{exec, settle}
use sdi_plugin.Repo.Action.Laws.{▹-query-error, ▹-query-ok}
use sdi_plugin.Domain.Results.{>>-ok, >>=-ok, ok-injective}
use sdi_plugin.Prelude.{◌∙◌}
use mathlib.Core.Path.{subst}

-- The handler's checks.
abbrev after_gate : Db → Round → EntityId → ScenarioResult → Bool → Result ScenarioResult
after_gate db round scenario_id v proven =
    Gates.ensure_completion_budget db round.plan_id scenario_id v proven >> ok v

abbrev after_round :
    Workspace → Db → EntityId → Option String → ScenarioResult → Round → Result ScenarioResult
after_round w db scenario_id evidence_ref v round =
    Gates.check_evidence_ref w db round.plan_id scenario_id v evidence_ref
    >>= after_gate db round scenario_id v

abbrev after_parse :
    Workspace → Db → EntityId → EntityId → Option String → ScenarioResult → Result ScenarioResult
after_parse w db id scenario_id evidence_ref v =
    Repo.Rounds.get db id >>= after_round w db scenario_id evidence_ref v

abbrev checked :
    Workspace → EntityId → EntityId → String → Option String → Db → Result ScenarioResult
checked w id scenario_id result evidence_ref db =
    parse_scenario_result result >>= after_parse w db id scenario_id evidence_ref

exec-error :
    (f : Db → Result Db) (db : Db) (e : DomainError) → (exec f db).0 ≡ err e → (exec f db).1 ≡ db
exec-error f db e h = after (f db) h
  where
    after : (r : Result Db) → (settle r db).0 ≡ err e → (settle r db).1 ≡ db
    after (ok d) k = ground arith
    after (err _) k = refl

exec-ok : (f : Db → Result Db) (db db' : Db) → exec f db ≡ (ok tt, db') → f db ≡ ok db'
exec-ok f db db' h = after (f db) h
  where
    after : (r : Result Db) → settle r db ≡ (ok tt, db') → r ≡ ok db'
    after (ok d) k = ap ok (ap (λ p. p.1) k)
    after (err _) k = ground arith

-- If the handler refuses a verdict, or the table does, nothing is written.
pub post_result-atomic :
    (w : Workspace) (id scenario_id : EntityId) (result : String)
    (remark evidence_ref : Option String) (now : Timestamp) (db : Db) (e : DomainError)
    → (Rounds.post_result w id scenario_id result remark evidence_ref now db).0 ≡ err e
    → (Rounds.post_result w id scenario_id result remark evidence_ref now db).1 ≡ db
unfolding Rounds.post_result
post_result-atomic w id scenario_id result remark evidence_ref now db e h =
    ▹-query-error (checked w id scenario_id result evidence_ref)
      (λ verdict. exec (Repo.Rounds.upsert_result id scenario_id verdict remark evidence_ref now))
      db e
      (λ verdict.
        exec-error (Repo.Rounds.upsert_result id scenario_id verdict remark evidence_ref now) db e)
      h

-- A verdict that is recorded was read from the text, granted by both gates for the plan of the round,
-- and is the verdict of the scenario in the round from then on; all other verdicts stay.
pub post_result-Granted :
    (w : Workspace) (id scenario_id : EntityId) (result : String)
    (remark evidence_ref : Option String) (now : Timestamp) (db db' : Db) (r s : EntityId)
    → Rounds.post_result w id scenario_id result remark evidence_ref now db ≡ (ok tt, db')
    → (verdict : ScenarioResult) × (round : Round) × (parse_scenario_result result ≡ ok verdict)
      × (Repo.Rounds.get db id ≡ ok round)
      × Granted w db round.plan_id scenario_id verdict evidence_ref
      × (Repo.Rounds.verdict db' r s
          ≡ (if id == r && scenario_id == s then some verdict else Repo.Rounds.verdict db r s))
unfolding Rounds.post_result
post_result-Granted w id scenario_id result remark evidence_ref now db db' r s h =
    let (verdict, passed, h1) =
      ▹-query-ok (checked w id scenario_id result evidence_ref)
        (λ v. exec (Repo.Rounds.upsert_result id scenario_id v remark evidence_ref now)) db db' tt
        h in
    let (v, parsed, p1) =
      >>=-ok (parse_scenario_result result) (after_parse w db id scenario_id evidence_ref) verdict
        passed in
    let (round, found, p2) =
      >>=-ok (Repo.Rounds.get db id) (after_round w db scenario_id evidence_ref v) verdict p1 in
    let (proven, gate, p3) =
      >>=-ok (Gates.check_evidence_ref w db round.plan_id scenario_id v evidence_ref)
        (after_gate db round scenario_id v) verdict p2 in
    let (budget, p4) =
      >>-ok (Gates.ensure_completion_budget db round.plan_id scenario_id v proven) (ok v) verdict
        p3 in
    let same = ok-injective v verdict p4 in
    let written =
      exec-ok (Repo.Rounds.upsert_result id scenario_id verdict remark evidence_ref now) db db'
        h1 in
    (
      verdict,
      round,
      parsed ∙ ap ok same,
      found,
      subst (λ x. Granted w db round.plan_id scenario_id x evidence_ref) same
          (gates-Granted w db round.plan_id scenario_id v evidence_ref proven gate budget),
      verdict-upsert_result id scenario_id verdict remark evidence_ref now db db' r s written,
    )
