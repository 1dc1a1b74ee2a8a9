-- ===== src/Repo/Rounds/Verdicts.antt =====
-- crates/db/src/repo/round.rs: the verdict that `upsert_result` stores, and the ones it leaves.
use sdi_plugin.Prelude.{
  String, ◌≡◌, refl, sym, ap, Bool, true, false, ◌&&◌, Option, none, some, List, [], ◌∷◌, ◌++◌,
  arith, ◌==◌, eq_iff, eq_refl, if◌then◌else◌, is_some, any, find, update,
}
use sdi_plugin.Domain.Error.{ok}
use sdi_plugin.Domain.Ids.{EntityId, Timestamp}
use sdi_plugin.Domain.Scenario.{ScenarioResult}
use sdi_plugin.Repo.Db.{Db, ResultRow}
use sdi_plugin.Repo.Rounds
use sdi_plugin.Prelude.Updates.{
  find-update, find-update-other, find-append-none, find-append-other, any-find, map_some,
}
use sdi_plugin.Prelude.{and-eq-true}
use sdi_plugin.Domain.Results.{guard-ok, ok-injective}
use sdi_plugin.Prelude.{◌∙◌}
use mathlib.Core.Path.{subst}

same_key-is_result_of :
    (r1 s1 r2 s2 : EntityId) (row : ResultRow)
    → Rounds.is_result_of r1 s1 row ≡ true
    → (r1 == r2 && s1 == s2) ≡ false
    → Rounds.is_result_of r2 s2 row ≡ false
same_key-is_result_of r1 s1 r2 s2 row h k = ground (
  arith,
  eq_iff row.round_id r1,
  eq_iff row.scenario_id s1,
  eq_iff row.round_id r2,
  eq_iff row.scenario_id s2,
  eq_iff r1 r2,
  eq_iff s1 s2,
)

found-any :
    (p : ResultRow → Bool) (rows : List ResultRow) (row : ResultRow)
    → any p rows ≡ true
    → map_some (λ _. row) (find p rows) ≡ some row
found-any p rows row h = after (find p rows) (sym (any-find p rows) ∙ h)
  where
    after : (o : Option ResultRow) → is_some o ≡ true → map_some (λ _. row) o ≡ some row
    after none k = ground arith
    after (some _) k = refl

put_result-same :
    (row : ResultRow) (rows : List ResultRow)
    → find (Rounds.is_result_of row.round_id row.scenario_id) (Rounds.put_result row rows)
      ≡ some row
put_result-same row rows = either (any (Rounds.is_result_of row.round_id row.scenario_id) rows) refl
  where
    key : Rounds.is_result_of row.round_id row.scenario_id row ≡ true
    key = ground (arith, eq_refl row.round_id, eq_refl row.scenario_id)

    either :
        (b : Bool)
        → any (Rounds.is_result_of row.round_id row.scenario_id) rows ≡ b
        → find (Rounds.is_result_of row.round_id row.scenario_id) (
            if b
            then update (Rounds.is_result_of row.round_id row.scenario_id) (λ _. row) rows
            else rows ++ row ∷ [])
          ≡ some row
    either true h =
        find-update (Rounds.is_result_of row.round_id row.scenario_id) (λ _. row) rows (λ _ _. key)
        ∙ found-any (Rounds.is_result_of row.round_id row.scenario_id) rows row h
    either false h =
        find-append-none (Rounds.is_result_of row.round_id row.scenario_id) rows row h
        ∙ ap (λ b. if b then some row else none) key

put_result-other :
    (row : ResultRow) (rows : List ResultRow) (r s : EntityId)
    → (row.round_id == r && row.scenario_id == s) ≡ false
    → find (Rounds.is_result_of r s) (Rounds.put_result row rows)
      ≡ find (Rounds.is_result_of r s) rows
put_result-other row rows r s k =
    either (any (Rounds.is_result_of row.round_id row.scenario_id) rows)
  where
    either :
        (b : Bool)
        → find (Rounds.is_result_of r s) (
            if b
            then update (Rounds.is_result_of row.round_id row.scenario_id) (λ _. row) rows
            else rows ++ row ∷ [])
          ≡ find (Rounds.is_result_of r s) rows
    either true =
        find-update-other (Rounds.is_result_of r s)
          (Rounds.is_result_of row.round_id row.scenario_id) (λ _. row) rows
          (λ x h. (same_key-is_result_of row.round_id row.scenario_id r s x h k, k))
    either false = find-append-other (Rounds.is_result_of r s) rows row k

find-result :
    (row : ResultRow) (rows : List ResultRow) (r s : EntityId) (b : Bool)
    → (row.round_id == r && row.scenario_id == s) ≡ b
    → Rounds.verdict_of (find (Rounds.is_result_of r s) (Rounds.put_result row rows))
      ≡ (if b then some row.result else Rounds.verdict_of (find (Rounds.is_result_of r s) rows))
find-result row rows r s true h =
    let (er, es) = and-eq-true _ _ h in
    ap Rounds.verdict_of (
      subst (λ i. find (Rounds.is_result_of i s) (Rounds.put_result row rows) ≡ some row)
        ((eq_iff row.round_id r).0 er)
        (subst
          (λ i. find (Rounds.is_result_of row.round_id i) (Rounds.put_result row rows) ≡ some row)
          ((eq_iff row.scenario_id s).0 es) (put_result-same row rows)))
find-result row rows r s false h = ap Rounds.verdict_of (put_result-other row rows r s h)

-- After `upsert_result` the verdict of that scenario in that round is the one given, and every other
-- verdict, of another scenario or in another round, is what it was.
pub verdict-upsert_result :
    (round_id scenario_id : EntityId) (result : ScenarioResult)
    (remark evidence_ref : Option String) (now : Timestamp) (db db' : Db) (r s : EntityId)
    → Rounds.upsert_result round_id scenario_id result remark evidence_ref now db ≡ ok db'
    → Rounds.verdict db' r s
      ≡ (if round_id == r && scenario_id == s then some result else Rounds.verdict db r s)
unfolding Rounds.upsert_result Rounds.verdict
verdict-upsert_result round_id scenario_id result remark evidence_ref now db db' r s h =
    let row : ResultRow = record {
      round_id = round_id;
      scenario_id = scenario_id;
      result = result;
      note = remark;
      evidence_ref = evidence_ref;
      updated_at = now;
    } in
    let (_, written) = guard-ok _ _ _ _ h in
    sym (
      ap (λ d. Rounds.verdict_of (find (Rounds.is_result_of r s) d.results))
        (ok-injective (record db { results = Rounds.put_result row db.results }) db' written))
    ∙ find-result row db.results r s (round_id == r && scenario_id == s) refl
