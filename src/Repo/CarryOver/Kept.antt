-- ===== src/Repo/CarryOver/Kept.antt =====
-- crates/db/src/repo/round.rs: the carry-over keeps the verdicts that are there.
use sdi_plugin.Prelude.{
  ◌≡◌, refl, sym, ap, Bool, true, false, ◌&&◌, Option, none, some, List, [], ◌∷◌, arith, ◌==◌,
  eq_iff, if◌then◌else◌, is_some, select, find,
}
use sdi_plugin.Domain.Error.{Result, ok, err}
use sdi_plugin.Domain.Ids.{EntityId, Timestamp}
use sdi_plugin.Domain.Round.{Round}
use sdi_plugin.Domain.Scenario.{ScenarioResult}
use sdi_plugin.Repo.Db.{Db, ResultRow}
use sdi_plugin.Repo.Action.{Action, resume, settle}
use sdi_plugin.Repo.Rounds
use sdi_plugin.Repo.Runs.{Workspace}
use sdi_plugin.Repo.CarryOver.{
  CarryOver, Carried, carry, has_result, write_carried, carry_rows, report_carried, is_carried,
  no_carry_over, carry_over_results,
}
use sdi_plugin.Repo.Rounds.Verdicts.{verdict-upsert_result}
use sdi_plugin.Prelude.Updates.{any-find}
use sdi_plugin.Prelude.{and-eq-true}
use sdi_plugin.Prelude.{◌∙◌}
use mathlib.Core.Path.{subst}

absent-key :
    (db : Db) (round_id sid r s : EntityId) (v : ScenarioResult)
    → has_result db round_id sid ≡ false
    → Rounds.verdict db r s ≡ some v
    → (round_id == r && sid == s) ≡ false
unfolding Rounds.verdict
absent-key db round_id sid r s v free h = after (round_id == r && sid == s) refl
  where
    nothing : find (Rounds.is_result_of round_id sid) db.results ≡ none
    nothing =
        found (find (Rounds.is_result_of round_id sid) db.results)
          (sym (any-find (Rounds.is_result_of round_id sid) db.results) ∙ free)
      where
        found : (o : Option ResultRow) → is_some o ≡ false → o ≡ none
        found none e = refl
        found (some _) e = ground arith

    after : (b : Bool) → (round_id == r && sid == s) ≡ b → (round_id == r && sid == s) ≡ false
    after false e = e
    after true e =
        let (er, es) = and-eq-true _ _ e in
        let same : find (Rounds.is_result_of r s) db.results ≡ none =
          subst (λ i. find (Rounds.is_result_of i s) db.results ≡ none) ((eq_iff round_id r).0 er)
            (subst (λ i. find (Rounds.is_result_of round_id i) db.results ≡ none)
              ((eq_iff sid s).0 es) nothing) in
        ground (arith, sym (ap Rounds.verdict_of same) ∙ h)

write_carried-keeps :
    (db db' : Db) (round_id : EntityId) (row : ResultRow) (c : Carried) (now : Timestamp)
    (r s : EntityId) (v : ScenarioResult)
    → has_result db round_id row.scenario_id ≡ false
    → Rounds.verdict db r s ≡ some v
    → write_carried round_id row c now db ≡ ok db'
    → Rounds.verdict db' r s ≡ some v
write_carried-keeps db db' round_id row c now r s v free h w =
    verdict-upsert_result round_id row.scenario_id c.result c.note row.evidence_ref now db db' r s w
    ∙ (ap (λ b. if b then some c.result else Rounds.verdict db r s)
          (absent-key db round_id row.scenario_id r s v free h)
        ∙ h)

-- The statement after a written row, whether the row was written or refused.
after_write-keeps :
    (w : Workspace) (round_id : EntityId) (now : Timestamp) (row : ResultRow) (db : Db)
    (r s : EntityId) (v : ScenarioResult) (next : Action CarryOver) (o : Result Db)
    → ((d : Db) → Rounds.verdict d r s ≡ some v → Rounds.verdict (next d).1 r s ≡ some v)
    → has_result db round_id row.scenario_id ≡ false
    → Rounds.verdict db r s ≡ some v
    → write_carried round_id row (carry w db row) now db ≡ o
    → Rounds.verdict (resume (settle o db).0 (λ _. next) (settle o db).1).1 r s ≡ some v
after_write-keeps w round_id now row db r s v next (ok db') ih free h e =
    ih db' (write_carried-keeps db db' round_id row (carry w db row) now r s v free h e)
after_write-keeps w round_id now row db r s v next (err _) ih free h e = h

step-keeps :
    (w : Workspace) (round_id : EntityId) (now : Timestamp) (row : ResultRow) (db : Db)
    (r s : EntityId) (v : ScenarioResult) (skip : Result CarryOver × Db) (next : Action CarryOver)
    (b : Bool)
    → ((d : Db) → Rounds.verdict d r s ≡ some v → Rounds.verdict (next d).1 r s ≡ some v)
    → Rounds.verdict skip.1 r s ≡ some v
    → has_result db round_id row.scenario_id ≡ b
    → Rounds.verdict db r s ≡ some v
    → Rounds.verdict
        (elim b as (λ _. Result CarryOver × Db) [
          | true ↦ skip
          | false ↦
              resume
                (settle (write_carried round_id row (carry w db row) now db) db).0
                (λ _. next)
                (settle (write_carried round_id row (carry w db row) now db) db).1
        ]).1
        r
        s
      ≡ some v
step-keeps w round_id now row db r s v skip next true ih skipped e h = skipped
step-keeps w round_id now row db r s v skip next false ih skipped e h =
    after_write-keeps w round_id now row db r s v next
      (write_carried round_id row (carry w db row) now db) ih e h refl

carry_rows-keeps :
    (w : Workspace) (round_id : EntityId) (now : Timestamp) (rows : List ResultRow)
    (report : CarryOver) (db : Db) (r s : EntityId) (v : ScenarioResult)
    → Rounds.verdict db r s ≡ some v
    → Rounds.verdict (carry_rows w round_id now rows report db).1 r s ≡ some v
unfolding carry_rows
carry_rows-keeps w round_id now [] report db r s v h = h
carry_rows-keeps w round_id now (row ∷ rows) report db r s v h =
    let next = report_carried (carry w db row) report in
    step-keeps w round_id now row db r s v (carry_rows w round_id now rows report db)
      (carry_rows w round_id now rows next) (has_result db round_id row.scenario_id)
      (λ d k. carry_rows-keeps w round_id now rows next d r s v k)
      (carry_rows-keeps w round_id now rows report db r s v h) refl h

-- The carry-over never changes a verdict that is there, of whichever round and scenario, whether it
-- succeeds or stops at an error.
pub carry_over_results-keeps :
    (w : Workspace) (new_round : Round) (prev_round_id : EntityId) (now : Timestamp) (db : Db)
    (r s : EntityId) (v : ScenarioResult)
    → Rounds.verdict db r s ≡ some v
    → Rounds.verdict (carry_over_results w new_round prev_round_id now db).1 r s ≡ some v
unfolding carry_over_results
carry_over_results-keeps w new_round prev_round_id now db r s v h =
    carry_rows-keeps w new_round.id now
      (select (is_carried db prev_round_id new_round.plan_id) db.results) no_carry_over db r s v h
