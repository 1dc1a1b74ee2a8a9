-- ===== src/Repo/Reviews/Laws.antt =====
-- crates/db/src/repo/disruption.rs: a review is settled once, and a plan with all reviews settled is
-- not held back.
use sdi_plugin.Prelude.{String, ◌≡◌, ap, false, Option, none, some, arith, ◌==◌, find, update}
use sdi_plugin.Domain.Error.{invalid_transition, not_found, Result, ok, err, ◌>>=◌, ◌>>◌, refuse_if}
use sdi_plugin.Domain.Ids.{EntityId, Timestamp}
use sdi_plugin.Repo.Db.{Db}
use sdi_plugin.Domain.Results.{guard-ok, >>=-ok, ok-injective}
use sdi_plugin.Prelude.{◌∙◌}
use mathlib.Core.Path.{subst}
use sdi_plugin.Domain.Disruption.{
  DisruptionReview, DisruptionReviewStatus, disruption_review_status_eq, DisruptionResolution,
}
use sdi_plugin.Repo.Reviews.{get, resolve, settle_as}
use sdi_plugin.Prelude.Updates.{find-update, map_some}

read_review :
    (db : Db) (id : EntityId) (r : DisruptionReview)
    → get db id ≡ ok r
    → find (λ x. x.id == id) db.reviews ≡ some r
unfolding get
read_review db id r h = after (find (λ x. x.id == id) db.reviews) h
  where
    after :
        (o : Option DisruptionReview)
        → elim o [ none ↦ err (not_found id) | some x ↦ ok x ] ≡ ok r
        → o ≡ some r
    after none k = ground arith
    after (some x) k = ap some (ok-injective x r k)

resolved_db : EntityId → Option DisruptionResolution → Option String → Timestamp → Db → Db
resolved_db id resolution remark now db = record db {
  reviews = update (λ r. r.id == id) (settle_as resolution remark now) db.reviews;
}

resolve-written :
    (id : EntityId) (resolution : Option DisruptionResolution) (remark : Option String)
    (now : Timestamp) (db db' : Db)
    → resolve id resolution remark now db ≡ ok db'
    → (r : DisruptionReview) × (get db id ≡ ok r)
      × (disruption_review_status_eq r.status DisruptionReviewStatus.resolved ≡ false)
      × (resolved_db id resolution remark now db ≡ db')
unfolding resolve resolved_db
resolve-written id resolution remark now db db' h =
    let (r, found, h1) = >>=-ok (get db id) _ db' h in
    let (pending, h2) = guard-ok _ _ _ _ h1 in (r, found, pending, ok-injective _ db' h2)

settled-get :
    (id : EntityId) (resolution : Option DisruptionResolution) (remark : Option String)
    (now : Timestamp) (db : Db) (r : DisruptionReview)
    → get db id ≡ ok r
    → get (resolved_db id resolution remark now db) id ≡ ok (settle_as resolution remark now r)
unfolding get resolved_db
settled-get id resolution remark now db r h =
    ap (λ (o : Option DisruptionReview). elim o [ none ↦ err (not_found id) | some x ↦ ok x ])
      (find-update (λ x. x.id == id) (settle_as resolution remark now) db.reviews (λ x k. k)
        ∙ ap (map_some (settle_as resolution remark now)) (read_review db id r h))

-- A review that was settled says how it was settled from then on: settling it again is refused, with
-- whatever verdict.
pub resolve-once :
    (id : EntityId) (resolution again : Option DisruptionResolution)
    (remark remark' : Option String) (now later : Timestamp) (db db' : Db)
    → resolve id resolution remark now db ≡ ok db'
    → ((r : DisruptionReview) × (get db' id ≡ ok (settle_as resolution remark now r)))
      × (resolve id again remark' later db'
          ≡ err (invalid_transition "disruption_review" "resolved" "resolved"))
unfolding resolve
resolve-once id resolution again remark remark' now later db db' h =
    let (r, found, _, written) = resolve-written id resolution remark now db db' h in
    let settled =
      subst (λ d. get d id ≡ ok (settle_as resolution remark now r)) written
        (settled-get id resolution remark now db r found) in
    (
      (r, settled),
      ap
          (λ (x : Result DisruptionReview). x >>= λ existing.
            refuse_if (disruption_review_status_eq existing.status DisruptionReviewStatus.resolved)
              (invalid_transition "disruption_review" "resolved" "resolved")
            >> ok (record db' {
              reviews = update (λ q. q.id == id) (settle_as again remark' later) db'.reviews;
            }))
          settled,
    )
