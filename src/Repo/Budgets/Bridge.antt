-- ===== src/Repo/Budgets/Bridge.antt =====
-- crates/db/src/repo/retry_budget.rs: the counter that a diagnosed failure still has to be booked on.
use sdi_plugin.Prelude.{
  String, Bool, true, false, not, ◌&&◌, Option, none, some, ◌==◌, if◌then◌else◌, ltb, nat_eq, any,
  select, first,
}
use sdi_plugin.Prelude.Split.{text_le}
use sdi_plugin.Prelude.Text.{has_prefix}
use sdi_plugin.Domain.Error.{Result, ok, ◌>>=◌}
use sdi_plugin.Domain.Ids.{EntityId}
use sdi_plugin.Repo.Db.{Db, order_by, opt_eq}
use sdi_plugin.Domain.Run.{FailureIdentity}
use sdi_plugin.Domain.Verification.{FailureClass, failure_class_eq, RetryBudget}
use sdi_plugin.Repo.Budgets.{list_budgets}

abbrev pub is_precise : String → Option FailureIdentity → Bool
is_precise signature none = false
is_precise signature (some i) =
    nat_eq i.computed.version 2
    && i.computed.basis == "primary-diagnostic"
    && i.computed.signature == signature

abbrev pub is_class : FailureClass → Option FailureClass → Bool
is_class class none = false
is_class class (some c) = failure_class_eq c class

-- The run that opened the counter holds the diagnosis that the counter is named after.
unfoldable pub opened_precisely : Db → RetryBudget → Bool
opened_precisely db b =
    any
      (λ r.
        opt_eq b.first_run_id r.id
        && opt_eq r.plan_id b.plan_id
        && opt_eq r.scenario_id b.scenario_id
        && is_class b.failure_class r.failure_class
        && opt_eq r.failure_signature b.failure_signature
        && is_precise b.failure_signature r.failure_identity)
      db.runs

unfoldable pub is_diagnosed : Db → Bool → RetryBudget → Bool
unfolding opened_precisely
is_diagnosed db diagnostic_unavailable b =
    not diagnostic_unavailable
    && has_prefix "sig:v2:" b.failure_signature
    && not (has_prefix "sig:v2:fallback:" b.failure_signature)
    && opened_precisely db b

abbrev pub is_outstanding : Db → FailureClass → Bool → RetryBudget → Bool
is_outstanding db class diagnostic_unavailable b =
    failure_class_eq b.failure_class class
    && not (nat_eq b.count 0)
    && not (is_diagnosed db diagnostic_unavailable b)

-- Exhausted ones first, then the higher count, then the smaller signature.
abbrev pub bridge_le : RetryBudget → RetryBudget → Bool
bridge_le a b =
    if a.exhausted && not b.exhausted
    then true
    else if b.exhausted && not a.exhausted
    then false
    else if ltb b.count a.count
    then true
    else if ltb a.count b.count
    then false
    else text_le a.failure_signature b.failure_signature

unfoldable pub compatibility_bucket :
    Db → EntityId → EntityId → FailureClass → Bool → Result (Option RetryBudget)
unfolding list_budgets is_diagnosed
compatibility_bucket db plan_id scenario_id class diagnostic_unavailable = do
  budgets ← list_budgets db plan_id (some scenario_id)
  ok (first (order_by bridge_le (select (is_outstanding db class diagnostic_unavailable) budgets)))
