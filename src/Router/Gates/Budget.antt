-- ===== src/Router/Gates/Budget.antt =====
-- crates/daemon/src/router/verification.rs: what the budget gate and the reference gate ask of a verdict.
use sdi_plugin.Prelude.{
  String, ◌≡◌, refl, sym, ap, ◌≢◌, ◌⊎◌, inl, inr, Bool, true, false, Option, none, some, List, [],
  ◌∷◌, arith, first,
}
use sdi_plugin.Domain.Error.{ok, accept}
use sdi_plugin.Domain.Ids.{EntityId}
use sdi_plugin.Domain.Results.{>>=-ok}
use sdi_plugin.Prelude.Text.{trim, strip_prefix}
use sdi_plugin.Domain.Scenario.{ScenarioResult}
use sdi_plugin.Domain.Verification.{EvidenceRef, run, free, parse_evidence_ref, RetryBudget}
use sdi_plugin.Domain.Run.{Run}
use sdi_plugin.Repo.Db.{Db}
use sdi_plugin.Repo.Runs.{Workspace}
use sdi_plugin.Repo.Runs
use sdi_plugin.Repo.Budgets
use sdi_plugin.Router.Gates
use sdi_plugin.Domain.Verification.References.{NamesRun, IsFreeText, parse_stripped-read}
use sdi_plugin.Prelude.Int.{ℤ}
use sdi_plugin.Repo.Budgets.Spent.{is_spent, exhausted_for-unspent}
use sdi_plugin.Router.Gates.Evidence.{Evidences, validate_run_evidence-Evidences}
use sdi_plugin.Prelude.{◌∙◌}

-- The verdict is proven by a stored run.
abbrev pub ProvenBy : Workspace → Db → EntityId → EntityId → ScenarioResult → Option String → Type 0
ProvenBy w db plan_id scenario_id verdict raw =
    (text : String) × (id : EntityId) × (r : Run) × (raw ≡ some text)
    × (parse_evidence_ref text ≡ ok (run id))
    × (Runs.get_run db id ≡ ok r)
    × Evidences w db plan_id scenario_id verdict r

check_parsed-proven :
    (w : Workspace) (db : Db) (plan_id scenario_id : EntityId) (verdict : ScenarioResult)
    (text : String) (e : EvidenceRef)
    → parse_evidence_ref text ≡ ok e
    → Gates.check_parsed w db plan_id scenario_id verdict e ≡ ok true
    → ProvenBy w db plan_id scenario_id verdict (some text)
check_parsed-proven w db plan_id scenario_id verdict text (run id) p h =
    let (r, valid, _) = >>=-ok _ _ _ h in
    let (found, e) = validate_run_evidence-Evidences w db plan_id scenario_id verdict id r valid in
    (text, id, r, refl, p, found, e)
check_parsed-proven w db plan_id scenario_id verdict text (free _) p h = ground arith

check_raw-proven :
    (w : Workspace) (db : Db) (plan_id scenario_id : EntityId) (verdict : ScenarioResult)
    (raw : Option String)
    → Gates.check_raw w db plan_id scenario_id verdict raw ≡ ok true
    → ProvenBy w db plan_id scenario_id verdict raw
check_raw-proven w db plan_id scenario_id verdict none h = ground arith
check_raw-proven w db plan_id scenario_id verdict (some text) h =
    let (e, parsed, h1) = >>=-ok _ _ _ h in
    check_parsed-proven w db plan_id scenario_id verdict text e parsed h1

check_evidence_ref-ok :
    (w : Workspace) (db : Db) (plan_id scenario_id : EntityId) (verdict : ScenarioResult)
    (raw : Option String) (b : Bool)
    → Gates.check_evidence_ref w db plan_id scenario_id verdict raw ≡ ok b
    → (verdict ≢ ScenarioResult.needs_verification)
      × (Gates.check_raw w db plan_id scenario_id verdict raw ≡ ok b)
unfolding Gates.check_evidence_ref
check_evidence_ref-ok w db plan_id scenario_id ScenarioResult.passing raw b h = (ground arith, h)
check_evidence_ref-ok w db plan_id scenario_id ScenarioResult.failing raw b h = (ground arith, h)
check_evidence_ref-ok w db plan_id scenario_id ScenarioResult.impacted raw b h = (ground arith, h)
check_evidence_ref-ok w db plan_id scenario_id ScenarioResult.retired raw b h = (ground arith, h)
check_evidence_ref-ok w db plan_id scenario_id ScenarioResult.needs_verification raw b h =
    ground arith

-- The reference gate answers `true` only for a reference to a stored run that evidences the verdict
-- for this scenario and this plan.
pub check_evidence_ref-proven :
    (w : Workspace) (db : Db) (plan_id scenario_id : EntityId) (verdict : ScenarioResult)
    (raw : Option String)
    → Gates.check_evidence_ref w db plan_id scenario_id verdict raw ≡ ok true
    → ProvenBy w db plan_id scenario_id verdict raw
check_evidence_ref-proven w db plan_id scenario_id verdict raw h =
    check_raw-proven w db plan_id scenario_id verdict raw
      (check_evidence_ref-ok w db plan_id scenario_id verdict raw true h).1

spend-ok :
    (verdict : ScenarioResult) (proven : Bool) (xs : List RetryBudget)
    → Gates.spend verdict proven (first xs) ≡ accept
    → (xs ≡ []) ⊎ ((verdict ≡ ScenarioResult.passing) × (proven ≡ true))
spend-ok verdict proven [] h = inl refl
spend-ok ScenarioResult.passing true (x ∷ xs) h = inr (refl, refl)
spend-ok ScenarioResult.passing false (x ∷ xs) h = ground arith
spend-ok ScenarioResult.failing p (x ∷ xs) h = ground arith
spend-ok ScenarioResult.impacted p (x ∷ xs) h = ground arith
spend-ok ScenarioResult.retired p (x ∷ xs) h = ground arith
spend-ok ScenarioResult.needs_verification p (x ∷ xs) h = ground arith

pub ensure_completion_budget-ok :
    (db : Db) (plan_id scenario_id : EntityId) (verdict : ScenarioResult) (proven : Bool)
    → Gates.ensure_completion_budget db plan_id scenario_id verdict proven ≡ accept
    → (Budgets.exhausted_for db plan_id (scenario_id ∷ []) ≡ ok [])
      ⊎ ((verdict ≡ ScenarioResult.passing) × (proven ≡ true))
unfolding Gates.ensure_completion_budget
ensure_completion_budget-ok db plan_id scenario_id verdict proven h =
    let (xs, listed, h1) = >>=-ok _ _ _ h in
    elim (spend-ok verdict proven xs h1) [
      | inl none_left ↦ inl (listed ∙ ap ok none_left)
      | inr proof ↦ inr proof
    ]

-- The reference of a verdict, if it has one, is free text, or it names a stored run that evidences
-- the verdict for this scenario and this plan.
abbrev pub Vouched : Workspace → Db → EntityId → EntityId → ScenarioResult → Option String → Type 0
Vouched w db plan_id scenario_id verdict raw =
    (raw ≡ none)
    ⊎ ((text : String) × (raw ≡ some text) × IsFreeText text)
    ⊎ ((text : String) × (id : EntityId) × (r : Run) × (raw ≡ some text)
        × NamesRun text id
        × (Runs.get_run db id ≡ ok r)
        × Evidences w db plan_id scenario_id verdict r)

check_parsed-run :
    (w : Workspace) (db : Db) (plan_id scenario_id : EntityId) (verdict : ScenarioResult)
    (id : EntityId) (b : Bool)
    → Gates.check_parsed w db plan_id scenario_id verdict (run id) ≡ ok b
    → (r : Run) × (Runs.get_run db id ≡ ok r) × Evidences w db plan_id scenario_id verdict r
check_parsed-run w db plan_id scenario_id verdict id b h =
    let (r, valid, _) = >>=-ok _ _ _ h in
    let (found, e) = validate_run_evidence-Evidences w db plan_id scenario_id verdict id r valid in
    (r, found, e)

check_raw-Vouched :
    (w : Workspace) (db : Db) (plan_id scenario_id : EntityId) (verdict : ScenarioResult)
    (raw : Option String) (b : Bool)
    → Gates.check_raw w db plan_id scenario_id verdict raw ≡ ok b
    → Vouched w db plan_id scenario_id verdict raw
unfolding parse_evidence_ref
check_raw-Vouched w db plan_id scenario_id verdict none b h = inl refl
check_raw-Vouched w db plan_id scenario_id verdict (some text) b h =
    let (e, parsed, h1) =
      >>=-ok (parse_evidence_ref text) (Gates.check_parsed w db plan_id scenario_id verdict) b h in
    elim (parse_stripped-read (trim text) (strip_prefix "run:" (trim text)) e parsed) [
      | inl (plain, _) ↦ inr (inl (text, refl, plain))
      | inr (rest, named, same) ↦
          let (r, found, evidence) =
            check_parsed-run w db plan_id scenario_id verdict (trim rest) b
              (ap (Gates.check_parsed w db plan_id scenario_id verdict) (sym same) ∙ h1) in
          inr (inr (text, trim rest, r, refl, (rest, named, refl), found, evidence))
    ]

-- What the two gates together grant a verdict: it is not the daemon's own; its reference is vouched
-- for; and either no counter of the scenario has reached the cap of the plan, or the verdict is `passing` and proven by a
-- stored run.
pub record Granted (w : Workspace) (db : Db) (plan_id scenario_id : EntityId)
    (verdict : ScenarioResult) (raw : Option String) : Type 0 where
  pub callers : verdict ≢ ScenarioResult.needs_verification
  pub vouched : Vouched w db plan_id scenario_id verdict raw
  pub paid :
      ((cap : ℤ) × (Budgets.cap_for_plan db plan_id ≡ ok cap)
        × (is_spent plan_id cap scenario_id db ≡ false))
      ⊎ ((verdict ≡ ScenarioResult.passing) × ProvenBy w db plan_id scenario_id verdict raw)

pub gates-Granted :
    (w : Workspace) (db : Db) (plan_id scenario_id : EntityId) (verdict : ScenarioResult)
    (raw : Option String) (proven : Bool)
    → Gates.check_evidence_ref w db plan_id scenario_id verdict raw ≡ ok proven
    → Gates.ensure_completion_budget db plan_id scenario_id verdict proven ≡ accept
    → Granted w db plan_id scenario_id verdict raw
gates-Granted w db plan_id scenario_id verdict raw proven h k = record {
  callers = (check_evidence_ref-ok w db plan_id scenario_id verdict raw proven h).0;
  vouched =
      check_raw-Vouched w db plan_id scenario_id verdict raw proven
        (check_evidence_ref-ok w db plan_id scenario_id verdict raw proven h).1;
  paid = elim (ensure_completion_budget-ok db plan_id scenario_id verdict proven k) [
    | inl available ↦ inl (exhausted_for-unspent db plan_id scenario_id available)
    | inr (v, p) ↦
        inr (v, check_evidence_ref-proven w db plan_id scenario_id verdict raw (h ∙ ap ok p))
  ];
}
