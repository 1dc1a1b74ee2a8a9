-- ===== src/Repo/Reviews.antt =====
-- crates/db/src/repo/disruption.rs: disruption reviews.
pub mod Laws
use sdi_plugin.Prelude.{
  ℕ, zero, suc, ◌+◌, ◌-◌, ◌≤◌, ◌<◌, String, ◌≡◌, refl, sym, ap, ◌≢◌, ◌↔◌, ◌⊎◌, inl, inr, Bool, true,
  false, not, ◌&&◌, ◌||◌, Option, none, some, List, [], ◌∷◌, ◌++◌, map, arith, ◌==◌, eq_iff,
  eq_refl, if◌then◌else◌, ltb, leb, nat_eq, is_some, is_none, or_else, length, any, is_empty,
  select, find, update, count, first, All, Has, Bool-cases, Option-cases,
}
use sdi_plugin.Prelude.Split.{text_le}
use sdi_plugin.Prelude.Text.{
  ◌⧺◌, is_blank, trim, strip_prefix, has_prefix, contains, any_char, show_ℕ, show_ℤ, str_is_empty,
}
use sdi_plugin.Domain.Error.{
  DomainError, invalid_transition, validation, not_found, scenarios_required, gwt_empty,
  evidence_required, invalid_round_mode, disruption_pending, snapshot_violation, conflict,
  consensus_missing_critique, autonomy_gate_blocked, retry_budget_exhausted, evidence_run_invalid,
  evidence_stale, baseline_locked, harness_failure_unresolved, Result, ok, err, ◌>>=◌, ◌>>◌, accept,
  refuse_if, show_error,
}
use sdi_plugin.Domain.Ids.{EntityId, Timestamp}
use sdi_plugin.Repo.Db.{
  Db, foreign_key_violation, primary_key_violation, unique_violation, order_by, opt_eq,
}
use sdi_plugin.Repo.Action.{Action, ◌▹◌, ◌▸◌, pure, exec, query, transaction}
use sdi_plugin.Prelude.Int.{ℤ, pos, negsuc}
use sdi_plugin.Prelude.{◌*◌, and-eq-true}
use sdi_plugin.Domain.Disruption.{
  DisruptionReview, DisruptionReviewStatus, disruption_review_status_eq, DisruptionResolution,
}

unfoldable pub get : Db → EntityId → Result DisruptionReview
get db id = elim (find (λ r. r.id == id) db.reviews) [ none ↦ err (not_found id) | some r ↦ ok r ]

unfoldable pub validate_create : DisruptionReview → Result (Unit {0})
validate_create r =
    refuse_if (is_empty r.impacted_scenario_ids)
      (validation "disruption review requires at least one impacted scenario")

unfoldable pub insert : DisruptionReview → Db → Result Db
unfolding validate_create
insert r db = do
  validate_create r
  refuse_if (any (λ q. q.id == r.id) db.reviews) (primary_key_violation "disruption_reviews")
  refuse_if (not (any (λ p. p.id == r.plan_id) db.plans)) foreign_key_violation
  ok (record db { reviews = db.reviews ++ r ∷ [] })

abbrev pub has_status : Option DisruptionReviewStatus → DisruptionReview → Bool
has_status none r = true
has_status (some s) r = disruption_review_status_eq r.status s

unfoldable pub list_by_plan : Db → EntityId → Option DisruptionReviewStatus → List DisruptionReview
list_by_plan db plan_id status =
    order_by (λ a b. leb a.created_at b.created_at)
      (select (λ r. r.plan_id == plan_id && has_status status r) db.reviews)

unfoldable pub has_pending : Db → EntityId → Bool
has_pending db plan_id =
    any
      (λ r.
        r.plan_id == plan_id && disruption_review_status_eq r.status DisruptionReviewStatus.pending)
      db.reviews

abbrev pub settle_as :
    Option DisruptionResolution → Option String → Timestamp → DisruptionReview → DisruptionReview
settle_as resolution remark now r = record r {
  status = DisruptionReviewStatus.resolved;
  resolution = resolution;
  note = remark;
  resolved_at = some now;
}

unfoldable pub resolve :
    EntityId → Option DisruptionResolution → Option String → Timestamp → Db → Result Db
unfolding get
resolve id resolution remark now db = do
  existing ← get db id
  refuse_if (disruption_review_status_eq existing.status DisruptionReviewStatus.resolved)
      (invalid_transition "disruption_review" "resolved" "resolved")
  ok (record db { reviews = update (λ r. r.id == id) (settle_as resolution remark now) db.reviews })
