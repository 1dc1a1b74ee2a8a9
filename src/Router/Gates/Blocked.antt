-- ===== src/Router/Gates/Blocked.antt =====
-- crates/daemon/src/router/verification.rs: the runs that the gate on the completion of a round
-- stops at, in terms of the table of runs.
use sdi_plugin.Prelude.{
  ◌≤◌, String, ◌≡◌, ◌≢◌, refl, sym, ap, ◌⊎◌, inl, inr, Bool, true, false, not, ◌&&◌, ◌||◌, Option,
  none, some, List, [], ◌∷◌, arith, eq_iff, eq_refl, ◌==◌, is_some, any, is_empty, select, Has, All,
  Bool-cases,
}
use sdi_plugin.Domain.Error.{accept}
use sdi_plugin.Domain.Ids.{EntityId, Timestamp}
use sdi_plugin.Domain.Run.{Run}
use sdi_plugin.Domain.Verification.{FailureClass, is_infrastructure}
use sdi_plugin.Domain.Results.{refuse_if-ok}
use sdi_plugin.Repo.Db.{Db, opt_eq, order_by}
use sdi_plugin.Repo.Db.Order.{any-order_by, any-select, select-empty}
use sdi_plugin.Repo.Runs
use sdi_plugin.Repo.Scenarios
use sdi_plugin.Router.Gates
use sdi_plugin.Prelude.{◌∙◌}

-- The run is not one that finished in the round for the scenario after the given time.
abbrev pub NotLater : EntityId → EntityId → Timestamp → Run → Type 0
NotLater round_id scenario_id at q =
    (q.round_id ≢ some round_id)
    ⊎ (q.scenario_id ≢ some scenario_id)
    ⊎ (q.finished_at ≡ none)
    ⊎ ((u : Timestamp) × (q.finished_at ≡ some u) × (u ≤ at))

-- The run finished in the round for a scenario that is not retired, as a failure of the harness or
-- of the environment, and no run of the scenario in the round finished later.
pub record Blocking (db : Db) (round_id : EntityId) (r : Run) : Type 0 where
  pub scenario_id : EntityId
  pub at : Timestamp
  pub of_round : r.round_id ≡ some round_id
  pub of_scenario : r.scenario_id ≡ some scenario_id
  pub finished : r.finished_at ≡ some at
  pub live : Scenarios.is_retired_now db scenario_id ≡ false
  pub infrastructure :
      (r.failure_class ≡ some FailureClass.harness)
      ⊎ (r.failure_class ≡ some FailureClass.environment)
  pub latest : All (NotLater round_id scenario_id at) db.runs

opt_eq-some : (o : Option String) (s : String) → o ≡ some s → opt_eq o s ≡ true
opt_eq-some o s h = ap (λ x. opt_eq x s) h ∙ eq_refl s

opt_eq-false : (o : Option String) (s : String) → o ≢ some s → opt_eq o s ≡ false
opt_eq-false none s h = refl
opt_eq-false (some t) s h = elim (Bool-cases (t == s)) [
  | inl e ↦ absurd (h (ap some ((eq_iff t s).0 e)))
  | inr e ↦ e
]

-- The tests of the query on a row `q`, against a run of the scenario that finished at `at`.
abbrev later : EntityId → EntityId → Timestamp → Run → Bool
later round_id scenario_id at q =
    Runs.is_finished_in round_id q
    && Runs.same_scenario (some scenario_id) q.scenario_id
    && not (Runs.opt_le q.finished_at (some at))

later-false :
    (round_id scenario_id : EntityId) (at : Timestamp) (q : Run)
    → NotLater round_id scenario_id at q
    → later round_id scenario_id at q ≡ false
later-false round_id scenario_id at q (inl e) = ground (arith, opt_eq-false q.round_id round_id e)
later-false round_id scenario_id at q (inr (inl e)) =
    ground (arith, opt_eq-false q.scenario_id scenario_id e)
later-false round_id scenario_id at q (inr (inr (inl e))) = ground (arith, e)
later-false round_id scenario_id at q (inr (inr (inr (u, e, le)))) = ground (arith, e, le)

any-later :
    (round_id scenario_id : EntityId) (at : Timestamp) (runs : List Run)
    → All (NotLater round_id scenario_id at) runs
    → any (later round_id scenario_id at) runs ≡ false
any-later round_id scenario_id at [] all = refl
any-later round_id scenario_id at (q ∷ qs) all =
    ground (
      arith,
      later-false round_id scenario_id at q all.0,
      any-later round_id scenario_id at qs all.1,
    )

-- What the query and the loop test of a run.
abbrev tested : Db → EntityId → Run → Bool
tested db round_id r =
    (Runs.is_finished_in round_id r && Runs.is_latest round_id db.runs r) && Gates.blocks db r

infrastructure-true :
    (o : Option FailureClass)
    → (o ≡ some FailureClass.harness) ⊎ (o ≡ some FailureClass.environment)
    → Gates.has_infrastructure_class o ≡ true
unfolding is_infrastructure
infrastructure-true o (inl e) = ap Gates.has_infrastructure_class e
infrastructure-true o (inr e) = ap Gates.has_infrastructure_class e

Blocking-tested :
    (db : Db) (round_id : EntityId) (r : Run) → Blocking db round_id r → tested db round_id r ≡ true
Blocking-tested db round_id r b =
    let in_round = opt_eq-some r.round_id round_id b.of_round in
    let bound = ap (λ o. is_some o) b.of_scenario in
    let ended = ap (λ o. is_some o) b.finished in
    let newest : Runs.is_latest round_id db.runs r ≡ true =
      ap
        (λ o. not (
          any
            (λ q.
              Runs.is_finished_in round_id q
              && Runs.same_scenario o q.scenario_id
              && not (Runs.opt_le q.finished_at r.finished_at))
            db.runs))
        b.of_scenario
      ∙ ap
          (λ o. not (
            any
              (λ q.
                Runs.is_finished_in round_id q
                && Runs.same_scenario (some b.scenario_id) q.scenario_id
                && not (Runs.opt_le q.finished_at o))
              db.runs))
          b.finished
      ∙ ap not (any-later round_id b.scenario_id b.at db.runs b.latest) in
    let of_class = infrastructure-true r.failure_class b.infrastructure in
    let live = ap (Gates.bound_and_live db) b.of_scenario ∙ ap not b.live in
    all_true (opt_eq r.round_id round_id) (is_some r.scenario_id) (is_some r.finished_at)
      (Runs.is_latest round_id db.runs r) (Gates.has_infrastructure_class r.failure_class)
      (Gates.bound_and_live db r.scenario_id) in_round bound ended newest of_class live
  where
    all_true :
        (a b c d e f : Bool)
        → a ≡ true
        → b ≡ true
        → c ≡ true
        → d ≡ true
        → e ≡ true
        → f ≡ true
        → (((a && b && c) && d) && (e && f)) ≡ true
    all_true a b c d e f p q r s t u = ground arith

none-Has :
    (db : Db) (round_id : EntityId) (runs : List Run)
    → any (tested db round_id) runs ≡ false
    → ¬ Has (Blocking db round_id) runs
none-Has db round_id [] h b = b
none-Has db round_id (r ∷ rs) h (inl b) = ground (arith, h, Blocking-tested db round_id r b)
none-Has db round_id (r ∷ rs) h (inr b) =
    none-Has db round_id rs (rest (tested db round_id r) (any (tested db round_id) rs) h) b
  where
    rest : (p q : Bool) → (p || q) ≡ false → q ≡ false
    rest p q k = ground arith

not_empty : (xs : List Run) → not (is_empty xs) ≡ false → xs ≡ []
not_empty [] h = refl
not_empty (x ∷ xs) h = ground arith

-- If the gate on infrastructure failures accepts, no run blocks the round.
pub gate-unblocked :
    (db : Db) (round_id : EntityId)
    → Gates.ensure_no_unresolved_infrastructure_failures db round_id ≡ accept
    → ¬ Has (Blocking db round_id) db.runs
unfolding Gates.ensure_no_unresolved_infrastructure_failures
    Runs.latest_finished_per_scenario_in_round
gate-unblocked db round_id h =
    let listed =
      select (λ r. Runs.is_finished_in round_id r && Runs.is_latest round_id db.runs r) db.runs in
    let ordered = order_by (λ a b. Runs.key_le a.scenario_id b.scenario_id) listed in
    let nothing =
      (select-empty (Gates.blocks db) ordered).0
        (not_empty (select (Gates.blocks db) ordered) (refuse_if-ok _ _ h)) in
    none-Has db round_id db.runs (
      sym (
        any-select (Gates.blocks db)
          (λ r. Runs.is_finished_in round_id r && Runs.is_latest round_id db.runs r) db.runs)
      ∙ (sym
            (any-order_by (Gates.blocks db) (λ a b. Runs.key_le a.scenario_id b.scenario_id) listed)
          ∙ nothing))
