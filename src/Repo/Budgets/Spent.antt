-- ===== src/Repo/Budgets/Spent.antt =====
-- crates/db/src/repo/retry_budget.rs: the gate on exhausted budgets against the raw counters.
use sdi_plugin.Prelude.{
  ◌≡◌, refl, sym, ap, Bool, false, ◌&&◌, some, List, [], ◌∷◌, ◌++◌, map, arith, any, select, first,
  All,
}
use sdi_plugin.Domain.Error.{ok, ◌>>=◌, accept}
use sdi_plugin.Domain.Ids.{EntityId}
use sdi_plugin.Repo.Db.{Db, order_by}
use sdi_plugin.Repo.Db.Order.{any-order_by, any-select, any-map, select-empty}
use sdi_plugin.Repo.Budgets
use sdi_plugin.Prelude.Int.{ℤ, pos, int_le}
use sdi_plugin.Domain.Verification.{RetryBudget}
use sdi_plugin.Domain.Results.{>>=-ok, ok-injective}
use sdi_plugin.Prelude.{◌∙◌}

-- A counter of the scenario has reached the cap.
abbrev pub is_spent : EntityId → ℤ → EntityId → Db → Bool
is_spent plan_id cap sid db =
    any (λ b. Budgets.matches plan_id (some sid) b && int_le cap (pos b.count)) db.budgets

spent-listed :
    (db : Db) (plan_id sid : EntityId) (cap : ℤ) (bs : List RetryBudget)
    → Budgets.cap_for_plan db plan_id ≡ ok cap
    → Budgets.list_budgets db plan_id (some sid) ≡ ok bs
    → any (λ b. b.exhausted) bs ≡ is_spent plan_id cap sid db
unfolding Budgets.list_budgets Budgets.row_to_budget
spent-listed db plan_id sid cap bs capped h =
    let rows =
      order_by Budgets.budget_le (select (Budgets.matches plan_id (some sid)) db.budgets) in
    let (c, read, h1) =
      >>=-ok (Budgets.cap_for_plan db plan_id) (λ c. ok (map (Budgets.row_to_budget c) rows)) bs
        h in
    let same = ok-injective c cap (sym read ∙ capped) in
    sym
      (ap (λ l. any (λ b. b.exhausted) l) (ok-injective (map (Budgets.row_to_budget c) rows) bs h1))
    ∙ (ap (λ k. any (λ b. b.exhausted) (map (Budgets.row_to_budget k) rows)) same
        ∙ (any-map (λ b. b.exhausted) (Budgets.row_to_budget cap) rows
            ∙ (any-order_by (λ b. int_le cap (pos b.count)) Budgets.budget_le
                  (select (Budgets.matches plan_id (some sid)) db.budgets)
                ∙ any-select (λ b. int_le cap (pos b.count)) (Budgets.matches plan_id (some sid))
                    db.budgets)))

append-empty : {A : Type 0} (xs ys : List A) → xs ++ ys ≡ [] → (xs ≡ []) × (ys ≡ [])
append-empty [] ys h = (refl, h)
append-empty (x ∷ xs) ys h = ground arith

exhausted_for-none :
    (db : Db) (plan_id : EntityId) (cap : ℤ) (sids : List EntityId)
    → Budgets.cap_for_plan db plan_id ≡ ok cap
    → Budgets.exhausted_for db plan_id sids ≡ ok []
    → All (λ sid. is_spent plan_id cap sid db ≡ false) sids
unfolding Budgets.exhausted_for
exhausted_for-none db plan_id cap [] capped h = tt
exhausted_for-none db plan_id cap (sid ∷ sids) capped h =
    let (bs, listed, h1) =
      >>=-ok (Budgets.list_budgets db plan_id (some sid))
        (λ budgets. Budgets.exhausted_for db plan_id sids >>= λ rest.
          ok (select (λ b. b.exhausted) budgets ++ rest))
        [] h in
    let (rest, later, h2) =
      >>=-ok (Budgets.exhausted_for db plan_id sids)
        (λ rest. ok (select (λ b. b.exhausted) bs ++ rest)) [] h1 in
    let (here, there) =
      append-empty (select (λ b. b.exhausted) bs) rest
        (ok-injective (select (λ b. b.exhausted) bs ++ rest) [] h2) in
    (
      sym (spent-listed db plan_id sid cap bs capped listed)
          ∙ (select-empty (λ b. b.exhausted) bs).0 here,
      exhausted_for-none db plan_id cap sids capped (later ∙ ap ok there),
    )

-- A listing of a single scenario that finds nothing exhausted: the plan has a cap, and no counter of
-- the scenario has reached it.
pub exhausted_for-unspent :
    (db : Db) (plan_id sid : EntityId)
    → Budgets.exhausted_for db plan_id (sid ∷ []) ≡ ok []
    → (cap : ℤ) × (Budgets.cap_for_plan db plan_id ≡ ok cap) × (is_spent plan_id cap sid db ≡ false)
unfolding Budgets.exhausted_for Budgets.list_budgets
exhausted_for-unspent db plan_id sid h =
    let (bs, listed, _) =
      >>=-ok (Budgets.list_budgets db plan_id (some sid))
        (λ budgets. Budgets.exhausted_for db plan_id [] >>= λ rest.
          ok (select (λ b. b.exhausted) budgets ++ rest))
        [] h in
    let (cap, capped, _) = >>=-ok (Budgets.cap_for_plan db plan_id) _ bs listed in
    (cap, capped, (exhausted_for-none db plan_id cap (sid ∷ []) capped h).0)

refuse-none : (xs : List RetryBudget) → Budgets.refuse_exhausted (first xs) ≡ accept → xs ≡ []
refuse-none [] h = refl
refuse-none (x ∷ xs) h = ground arith

-- If budget is available for the scenarios, then no counter of any of them has reached the cap of
-- the plan.
pub ensure_available-unspent :
    (db : Db) (plan_id : EntityId) (cap : ℤ) (sids : List EntityId)
    → Budgets.cap_for_plan db plan_id ≡ ok cap
    → Budgets.ensure_available db plan_id sids ≡ accept
    → All (λ sid. is_spent plan_id cap sid db ≡ false) sids
unfolding Budgets.ensure_available
ensure_available-unspent db plan_id cap sids capped h =
    let (xs, listed, h1) =
      >>=-ok (Budgets.exhausted_for db plan_id sids) (λ xs. Budgets.refuse_exhausted (first xs)) tt
        h in
    exhausted_for-none db plan_id cap sids capped (listed ∙ ap ok (refuse-none xs h1))
