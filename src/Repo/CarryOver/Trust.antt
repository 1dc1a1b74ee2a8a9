-- ===== src/Repo/CarryOver/Trust.antt =====
-- crates/db/src/repo/round.rs: which passes the carry-over trusts.
use sdi_plugin.Prelude.{
  ◌≡◌, refl, sym, ap, ◌⊎◌, inl, inr, Bool, true, false, Option, none, some, arith, if◌then◌else◌,
}
use sdi_plugin.Domain.Error.{Result, ok, err}
use sdi_plugin.Domain.Ids.{EntityId}
use sdi_plugin.Domain.Run.{Run}
use sdi_plugin.Domain.Scenario.{ScenarioResult, scenario_result_eq}
use sdi_plugin.Repo.Db.{Db, ResultRow}
use sdi_plugin.Repo.Runs
use sdi_plugin.Repo.Runs.{Workspace, Freshness}
use sdi_plugin.Repo.CarryOver.{carry, recheck, recheck_with, unchanged, run_ref, freshness_of_found}
use sdi_plugin.Prelude.{◌∙◌}
use sdi_plugin.Prelude.{◌↔◌, String, Option-cases}
use sdi_plugin.Prelude.Text.{trim, strip_prefix, str_is_empty}
use sdi_plugin.Domain.Error.{evidence_run_invalid, ◌>>◌, refuse_if}
use sdi_plugin.Domain.Verification.{run, parse_evidence_ref, parse_stripped, parse_run_id, run_id}
use sdi_plugin.Domain.Verification.References.{NamesRun, IsFreeText}
use sdi_plugin.Repo.CarryOver.{ref_of}

-- The reference of a row names no run: there is none, it is free text, or it is `run:` with no id.
abbrev pub NoRun : Option String → Type 0
NoRun o =
    (o ≡ none)
    ⊎ ((text : String) × (o ≡ some text) × IsFreeText text)
    ⊎ ((text : String) × (id : EntityId) × (o ≡ some text)
        × NamesRun text id
        × (str_is_empty id ≡ true))

-- The reference of a row names no run, or the run that it names is stored and still has the inputs
-- that it recorded.
abbrev pub IsTrusted : Workspace → Db → ResultRow → Type 0
IsTrusted w db row =
    NoRun row.evidence_ref
    ⊎ ((text : String) × (id : EntityId) × (r : Run) × (row.evidence_ref ≡ some text)
        × NamesRun text id
        × (Runs.get_run db id ≡ ok r)
        × ((Runs.freshness w db r).fresh ≡ true))

-- What the loop reads from a reference that is not free text.
named_run :
    (text : String) (id : EntityId)
    → NamesRun text id
    → run_ref (some text) ≡ (if str_is_empty id then none else some id)
unfolding parse_evidence_ref run_id
named_run text id (rest, stripped, same) =
    ap (λ o. ref_of (parse_stripped (trim text) o)) stripped
    ∙ (ap (λ x. ref_of (parse_run_id x)) same ∙ by_length (str_is_empty id))
  where
    by_length :
        (b : Bool)
        → ref_of (
            refuse_if b (evidence_run_invalid "run reference `run:` carries no run id")
            >> ok (run id))
          ≡ (if b then none else some id)
    by_length true = refl
    by_length false = refl

free_text : (text : String) → IsFreeText text → run_ref (some text) ≡ none
unfolding parse_evidence_ref run_id
free_text text plain = ap (λ o. ref_of (parse_stripped (trim text) o)) plain

NoRun-none : (o : Option String) → NoRun o → run_ref o ≡ none
NoRun-none o (inl e) = ap run_ref e
NoRun-none o (inr (inl (text, e, plain))) = ap run_ref e ∙ free_text text plain
NoRun-none o (inr (inr (text, id, e, named, blank))) =
    ap run_ref e ∙ (named_run text id named ∙ ap (λ b. if b then none else some id) blank)

-- A reference names no run, or the loop looks up the run that it names.
ref_cases :
    (o : Option String)
    → NoRun o
      ⊎ ((text : String) × (id : EntityId) × (o ≡ some text)
          × NamesRun text id
          × (run_ref o ≡ some id))
ref_cases none = inl (inl refl)
ref_cases (some text) = elim (Option-cases (strip_prefix "run:" (trim text))) [
  | inl plain ↦ inl (inr (inl (text, refl, plain)))
  | inr (rest, stripped) ↦ by_length rest stripped (str_is_empty (trim rest)) refl
]
  where
    by_length :
        (rest : String)
        → strip_prefix "run:" (trim text) ≡ some rest
        → (b : Bool) → str_is_empty (trim rest) ≡ b
        → NoRun (some text)
          ⊎ ((t : String) × (id : EntityId) × (some text ≡ some t)
              × NamesRun t id
              × (run_ref (some text) ≡ some id))
    by_length rest stripped true blank =
        inl (inr (inr (text, trim rest, refl, (rest, stripped, refl), blank)))
    by_length rest stripped false blank = inr (
      text,
      trim rest,
      refl,
      (rest, stripped, refl),
      named_run text (trim rest) (rest, stripped, refl)
          ∙ ap (λ b. if b then none else some (trim rest)) blank,
    )

recheck_with-passing :
    (row : ResultRow) (id : EntityId) (f : Freshness)
    → (recheck_with row id f).result ≡ ScenarioResult.passing
    → f.fresh ≡ true
recheck_with-passing row id f h = after f.fresh refl
  where
    after : (b : Bool) → f.fresh ≡ b → f.fresh ≡ true
    after true e = e
    after false e = ground (arith, h)

found_fresh :
    (w : Workspace) (db : Db) (id : EntityId) (o : Result Run)
    → (freshness_of_found w db id o).fresh ≡ true
    → (r : Run) × (o ≡ ok r) × ((Runs.freshness w db r).fresh ≡ true)
found_fresh w db id (ok r) h = (r, refl, h)
found_fresh w db id (err e) h = ground arith

recheck-passing :
    (w : Workspace) (db : Db) (row : ResultRow)
    → (recheck w db row (run_ref row.evidence_ref)).result ≡ ScenarioResult.passing
    → IsTrusted w db row
recheck-passing w db row h = elim (ref_cases row.evidence_ref) [
  | inl unnamed ↦ inl unnamed
  | inr (text, id, given, named, looked_up) ↦
      let (r, found, fresh) = found_fresh w db id (Runs.get_run db id) (
        recheck_with-passing row id (freshness_of_found w db id (Runs.get_run db id))
          (sym (ap (λ o. (recheck w db row o).result) looked_up) ∙ h)) in
      inr (text, id, r, given, named, found, fresh)
]

recheck-some-trusted :
    (w : Workspace) (db : Db) (row : ResultRow) (id : EntityId) (r : Run)
    → Runs.get_run db id ≡ ok r
    → (Runs.freshness w db r).fresh ≡ true
    → (recheck w db row (some id)).result ≡ row.result
recheck-some-trusted w db row id r found fresh =
    ap (λ o. (recheck_with row id (freshness_of_found w db id o)).result) found
    ∙ kept (Runs.freshness w db r) fresh
  where
    kept : (f : Freshness) → f.fresh ≡ true → (recheck_with row id f).result ≡ row.result
    kept f e = ground (arith, e)

recheck-trusted :
    (w : Workspace) (db : Db) (row : ResultRow)
    → IsTrusted w db row
    → (recheck w db row (run_ref row.evidence_ref)).result ≡ row.result
recheck-trusted w db row (inl unnamed) =
    ap (λ o. (recheck w db row o).result) (NoRun-none row.evidence_ref unnamed)
recheck-trusted w db row (inr (text, id, r, given, named, found, fresh)) =
    ap (λ o. (recheck w db row o).result) (ap run_ref given ∙ named_run text id named)
    ∙ by_length (str_is_empty id)
  where
    by_length : (b : Bool) → (recheck w db row (if b then none else some id)).result ≡ row.result
    by_length true = refl
    by_length false = recheck-some-trusted w db row id r found fresh

passing-eq :
    (v : ScenarioResult) (b : Bool)
    → scenario_result_eq v ScenarioResult.passing ≡ b
    → v ≡ ScenarioResult.passing
    → b ≡ true
passing-eq v b h p = sym h ∙ ap (λ x. scenario_result_eq x ScenarioResult.passing) p

passing-true :
    (v : ScenarioResult)
    → scenario_result_eq v ScenarioResult.passing ≡ true
    → v ≡ ScenarioResult.passing
passing-true ScenarioResult.passing h = refl
passing-true ScenarioResult.failing h = ground arith
passing-true ScenarioResult.impacted h = ground arith
passing-true ScenarioResult.retired h = ground arith
passing-true ScenarioResult.needs_verification h = ground arith

carry-trusted :
    (w : Workspace) (db : Db) (row : ResultRow)
    → row.result ≡ ScenarioResult.passing
    → IsTrusted w db row
    → (carry w db row).result ≡ ScenarioResult.passing
unfolding carry
carry-trusted w db row p trusted =
    ap (λ b. (if b then recheck w db row (run_ref row.evidence_ref) else unchanged row).result)
      (ap (λ v. scenario_result_eq v ScenarioResult.passing) p)
    ∙ (recheck-trusted w db row trusted ∙ p)

carry-passing :
    (w : Workspace) (db : Db) (row : ResultRow)
    → (carry w db row).result ≡ ScenarioResult.passing
    → (row.result ≡ ScenarioResult.passing) × IsTrusted w db row
unfolding carry
carry-passing w db row h = after (scenario_result_eq row.result ScenarioResult.passing) refl h
  where
    after :
        (b : Bool)
        → scenario_result_eq row.result ScenarioResult.passing ≡ b
        → (if b then recheck w db row (run_ref row.evidence_ref) else unchanged row).result
          ≡ ScenarioResult.passing
        → (row.result ≡ ScenarioResult.passing) × IsTrusted w db row
    after true e k = (passing-true row.result e, recheck-passing w db row k)
    after false e k = ground (arith, passing-eq row.result false e k)

-- A verdict is carried as `passing` exactly if it was `passing` and is to be trusted: its reference
-- names no run (there is no reference, it is free text, or it is `run:` with no id), or the run that
-- it names is stored and its recorded inputs are the current ones.
pub carry-passing_iff :
    (w : Workspace) (db : Db) (row : ResultRow)
    → ((carry w db row).result ≡ ScenarioResult.passing)
      ↔ ((row.result ≡ ScenarioResult.passing) × IsTrusted w db row)
carry-passing_iff w db row = (carry-passing w db row, λ h. carry-trusted w db row h.0 h.1)
