-- ===== src/Repo/Budgets/Release.antt =====
-- crates/db/src/repo/retry_budget.rs: what a release rests on and which counters it resets.
use sdi_plugin.Prelude.{
  ℕ, suc, ◌<◌, String, ◌≡◌, ◌≢◌, refl, sym, ap, ◌⊎◌, inl, inr, Bool, true, false, Option, none,
  some, List, [], ◌∷◌, arith, eq_iff, if◌then◌else◌, ◌==◌, any, update, count, Bool-cases,
  and-eq-true,
}
use sdi_plugin.Domain.Error.{Result, ok, err}
use sdi_plugin.Domain.Ids.{EntityId, Timestamp}
use sdi_plugin.Repo.Db.{Db, BudgetRow}
use sdi_plugin.Repo.Budgets
use sdi_plugin.Repo.Decisions
use sdi_plugin.Domain.Decision.{Decision, DecisionStatus, decision_status_eq}
use sdi_plugin.Domain.Results.{guard-ok, >>=-ok, not-false, ok-injective}
use sdi_plugin.Prelude.{◌∙◌}
use mathlib.Core.Path.{subst}

-- The signature that a release is asked for: any, or the one given.
abbrev pub Asked : Option String → String → Type 0
Asked none s = Unit {0}
Asked (some t) s = s ≡ t

abbrev pub NotAsked : Option String → String → Type 0
NotAsked none s = ⊥
NotAsked (some t) s = s ≢ t

-- The counters before and after a release, row by row, and how many were reset: a counter of the
-- scenario and of the signature starts again from 0 and records who released it and when, with all
-- else kept, the total of failures too; any other row is what it was.
pub data Resets (plan_id scenario_id : EntityId) (signature : Option String)
    (decision_id : EntityId) (now : Timestamp) : List BudgetRow → List BudgetRow → ℕ → Type 0 where
  done : Resets plan_id scenario_id signature decision_id now [] [] 0
  reset :
      {b : BudgetRow} {bs cs : List BudgetRow} {n : ℕ}
      → b.plan_id ≡ plan_id
      → b.scenario_id ≡ scenario_id
      → Asked signature b.failure_signature
      → Resets plan_id scenario_id signature decision_id now bs cs n
      → Resets plan_id scenario_id signature decision_id now
          (b ∷ bs)
          (record b {
            count = 0;
            released_by_decision_id = some decision_id;
            released_at = some now;
          }
            ∷ cs)
          (suc n)
  spared :
      {b : BudgetRow} {bs cs : List BudgetRow} {n : ℕ}
      → (b.plan_id ≢ plan_id)
        ⊎ (b.scenario_id ≢ scenario_id)
        ⊎ NotAsked signature b.failure_signature
      → Resets plan_id scenario_id signature decision_id now bs cs n
      → Resets plan_id scenario_id signature decision_id now (b ∷ bs) (b ∷ cs) n

to_release-true :
    (plan_id scenario_id : EntityId) (signature : Option String) (b : BudgetRow)
    → Budgets.to_release plan_id scenario_id signature b ≡ true
    → (b.plan_id ≡ plan_id) × (b.scenario_id ≡ scenario_id) × Asked signature b.failure_signature
to_release-true plan_id scenario_id none b h =
    let (p, s) = and-eq-true _ _ h in
    ((eq_iff b.plan_id plan_id).0 p, (eq_iff b.scenario_id scenario_id).0 s, tt)
to_release-true plan_id scenario_id (some t) b h =
    let (ps, f) = and-eq-true _ _ h in
    let (p, s) = and-eq-true _ _ ps in
    (
      (eq_iff b.plan_id plan_id).0 p,
      (eq_iff b.scenario_id scenario_id).0 s,
      (eq_iff b.failure_signature t).0 f,
    )

to_release-false :
    (plan_id scenario_id : EntityId) (signature : Option String) (b : BudgetRow)
    → Budgets.to_release plan_id scenario_id signature b ≡ false
    → (b.plan_id ≢ plan_id) ⊎ (b.scenario_id ≢ scenario_id) ⊎ NotAsked signature b.failure_signature
to_release-false plan_id scenario_id signature b h = elim (Bool-cases (b.plan_id == plan_id)) [
  | inr p ↦ inl (λ e. ground (arith, p, (eq_iff b.plan_id plan_id).1 e))
  | inl p ↦ elim (Bool-cases (b.scenario_id == scenario_id)) [
    | inr s ↦ inr (inl (λ e. ground (arith, s, (eq_iff b.scenario_id scenario_id).1 e)))
    | inl s ↦ inr (inr (unasked signature p s h))
  ]
]
  where
    unasked :
        (o : Option String)
        → (b.plan_id == plan_id) ≡ true
        → (b.scenario_id == scenario_id) ≡ true
        → Budgets.to_release plan_id scenario_id o b ≡ false
        → NotAsked o b.failure_signature
    unasked none p s k = ground (arith, p, s, k)
    unasked (some t) p s k = λ e. ground (arith, p, s, k, (eq_iff b.failure_signature t).1 e)

update-Resets :
    (plan_id scenario_id : EntityId) (signature : Option String) (decision_id : EntityId)
    (now : Timestamp) (rows : List BudgetRow)
    → Resets plan_id scenario_id signature decision_id now rows
        (update
          (Budgets.to_release plan_id scenario_id signature)
          (Budgets.reset decision_id now)
          rows)
        (count (Budgets.to_release plan_id scenario_id signature) rows)
update-Resets plan_id scenario_id signature decision_id now [] = done
update-Resets plan_id scenario_id signature decision_id now (b ∷ bs) =
    head (Budgets.to_release plan_id scenario_id signature b) refl
      (update-Resets plan_id scenario_id signature decision_id now bs)
  where
    head :
        (t : Bool)
        → Budgets.to_release plan_id scenario_id signature b ≡ t
        → Resets plan_id scenario_id signature decision_id now bs
            (update
              (Budgets.to_release plan_id scenario_id signature)
              (Budgets.reset decision_id now)
              bs)
            (count (Budgets.to_release plan_id scenario_id signature) bs)
        → Resets plan_id scenario_id signature decision_id now
            (b ∷ bs)
            ((if t then Budgets.reset decision_id now b else b)
              ∷ update
                  (Budgets.to_release plan_id scenario_id signature)
                  (Budgets.reset decision_id now)
                  bs)
            (if t
              then suc (count (Budgets.to_release plan_id scenario_id signature) bs)
              else count (Budgets.to_release plan_id scenario_id signature) bs)
    head true h rest =
        let (p, s, f) = to_release-true plan_id scenario_id signature b h in reset p s f rest
    head false h rest = spared (to_release-false plan_id scenario_id signature b h) rest

any-count : (p : BudgetRow → Bool) (rows : List BudgetRow) → any p rows ≡ true → 0 < count p rows
any-count p [] h = ground arith
any-count p (b ∷ bs) h = ground (arith, Bool-cases (p b), any-count p bs)

-- What a release rests on and what it changes.
pub record Released (plan_id scenario_id : EntityId) (signature : Option String)
    (decision_id : EntityId) (now : Timestamp) (db db' : Db) (released : ℕ) : Type 0 where
  pub decision : Decision
  pub stored : Decisions.get db decision_id ≡ ok decision
  pub same_plan : decision.plan_id ≡ plan_id
  pub in_effect : decision.status ≢ DecisionStatus.superseded
  pub resets : Resets plan_id scenario_id signature decision_id now db.budgets db'.budgets released
  pub some_reset : 0 < released
  pub elsewhere : record db { budgets = db'.budgets } ≡ db'

speaking-ok :
    (id : EntityId) (r : Result Decision) (d : Decision)
    → Budgets.speaking_decision id r ≡ ok d
    → r ≡ ok d
speaking-ok id (ok c) d h = h
speaking-ok id (err e) d h = ground arith

not-superseded :
    (s : DecisionStatus)
    → decision_status_eq s DecisionStatus.superseded ≡ false
    → s ≢ DecisionStatus.superseded
not-superseded s h e =
    ground (arith, sym (ap (λ x. decision_status_eq x DecisionStatus.superseded) e) ∙ h)

-- A release goes through only with a stored decision of the same plan that is not superseded. Then
-- the counters of the scenario (of the signature, if one is given) stand at 0 under that decision
-- and keep their totals, at least one of them; every other row and every other table is what it was;
-- and the answer is the number of counters that were reset.
pub release-Released :
    (plan_id scenario_id : EntityId) (signature : Option String) (decision_id : EntityId)
    (now : Timestamp) (db db' : Db) (released : ℕ)
    → Budgets.release plan_id scenario_id signature decision_id now db ≡ ok (db', released)
    → Released plan_id scenario_id signature decision_id now db db' released
unfolding Budgets.release
release-Released plan_id scenario_id signature decision_id now db db' released h =
    let (d, found, h1) =
      >>=-ok (Budgets.speaking_decision decision_id (Decisions.get db decision_id)) _
        (db', released) h in
    let (plan, h2) = guard-ok _ _ _ _ h1 in
    let (status, h3) = guard-ok _ _ _ _ h2 in
    let (hit, h4) = guard-ok _ _ _ _ h3 in
    let p = Budgets.to_release plan_id scenario_id signature in
    let new : Db = record db { budgets = update p (Budgets.reset decision_id now) db.budgets } in
    let facts : Released plan_id scenario_id signature decision_id now db new (count p db.budgets) =
      record {
        decision = d;
        stored = speaking-ok decision_id (Decisions.get db decision_id) d found;
        same_plan = (eq_iff d.plan_id plan_id).0 (not-false _ plan);
        in_effect = not-superseded d.status status;
        resets = update-Resets plan_id scenario_id signature decision_id now db.budgets;
        some_reset = any-count p db.budgets (not-false _ hit);
        elsewhere = refl;
      } in
    subst (λ a. Released plan_id scenario_id signature decision_id now db a.0 a.1)
      (ok-injective (new, count p db.budgets) (db', released) h4) facts
