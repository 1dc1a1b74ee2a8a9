-- ===== src/Repo/Decisions.antt =====
-- crates/db/src/repo/decision.rs: the append-only log of decisions.
pub mod Negotiation
use sdi_plugin.Prelude.{
  Bool, true, not, ◌&&◌, Option, none, some, List, [], ◌∷◌, ◌++◌, map, ◌==◌, if◌then◌else◌, leb,
  is_some, any, select, find, update,
}
use sdi_plugin.Prelude.Text.{◌⧺◌}
use sdi_plugin.Domain.Error.{validation, not_found, Result, ok, err, ◌>>=◌, ◌>>◌, refuse_if}
use sdi_plugin.Domain.Ids.{EntityId}
use sdi_plugin.Domain.Decision.{
  Decision, DecisionStatus, decision_status_eq, DecisionKind, decision_kind_eq, show_decision_kind,
  validate_blast_radius_score, validate_stage_transition,
}
use sdi_plugin.Repo.Db.{
  Db, unique_violation, primary_key_violation, foreign_key_violation, order_by, known_pattern,
  opt_eq,
}
use sdi_plugin.Repo.Plans

unfoldable pub get : Db → EntityId → Result Decision
get db id = elim (find (λ d. d.id == id) db.decisions) [ none ↦ err (not_found id) | some d ↦ ok d ]

abbrev pub answers : EntityId → Decision → Bool
answers proposal_id d = opt_eq d.proposal_id proposal_id

unfoldable pub list_kinds_by_proposal : Db → EntityId → List DecisionKind
list_kinds_by_proposal db proposal_id =
    map (λ d. d.kind)
      (order_by (λ a b. leb a.created_at b.created_at) (select (answers proposal_id) db.decisions))

-- A reference to a decision, the new row among them.
abbrev pub known_decision : List Decision → Option EntityId → Bool
known_decision ds none = true
known_decision ds (some id) = any (λ d. d.id == id) ds

-- The constraints of the table: the keys first, then the references.
unfoldable pub check_row : Db → Decision → Result (Unit {0})
check_row db d = do
  refuse_if (any (λ e. e.id == d.id) db.decisions) (primary_key_violation "decisions")
  refuse_if (any (λ e. e.plan_id == d.plan_id && e.short_code == d.short_code) db.decisions)
      (unique_violation "decisions" ("plan_id" ∷ "short_code" ∷ []))
  refuse_if
      (not (
        Plans.has_plan db d.plan_id
        && known_pattern db d.produced_via_pattern_id
        && known_decision (db.decisions ++ d ∷ []) d.supersedes_id
        && known_decision (db.decisions ++ d ∷ []) d.proposal_id
        && known_decision (db.decisions ++ d ∷ []) d.reversal_of))
      foreign_key_violation

abbrev pub check_rollback : Decision → Result (Unit {0})
check_rollback d = do
  refuse_if (not (decision_kind_eq d.kind DecisionKind.consensus))
      (validation "reversal_of is only valid on consensus decisions")
  refuse_if (is_some d.proposal_id) (validation "rollback decisions must not carry proposal_id")

abbrev pub check_stage : Db → Decision → Option EntityId → Result (Unit {0})
check_stage db d none =
    err (validation (show_decision_kind d.kind ⧺ " decision requires proposal_id"))
check_stage db d (some proposal_id) =
    validate_stage_transition d.kind (list_kinds_by_proposal db proposal_id) d.proposal_id

-- The gate: rollback rows, the stages that answer a proposal, and proposals.
unfoldable pub check_gate : Db → Decision → Result (Unit {0})
unfolding list_kinds_by_proposal validate_stage_transition
check_gate db d =
    if is_some d.reversal_of
    then check_rollback d
    else if not (decision_kind_eq d.kind DecisionKind.proposal)
    then check_stage db d d.proposal_id
    else refuse_if (is_some d.proposal_id)
        (validation "proposal decision must not carry proposal_id")

abbrev pub mark_superseded : Option EntityId → List Decision → List Decision
mark_superseded none ds = ds
mark_superseded (some prev) ds =
    update (λ e. e.id == prev) (λ e. record e { status = DecisionStatus.superseded }) ds

unfoldable pub insert : Decision → Db → Result Db
unfolding validate_blast_radius_score check_gate check_row
insert d db = do
  validate_blast_radius_score d.blast_radius_score
  check_gate db d
  check_row db d
  ok (record db { decisions = mark_superseded d.supersedes_id (db.decisions ++ d ∷ []) })

unfoldable pub set_status : EntityId → DecisionStatus → Db → Result Db
unfolding get
set_status id status db = do
  d ← get db id
  ok (record db {
    decisions = update (λ e. e.id == id) (λ e. record e { status = status }) db.decisions;
  })

abbrev pub is_open : EntityId → Decision → Bool
is_open plan_id d =
    d.plan_id == plan_id && not (decision_status_eq d.status DecisionStatus.superseded)

unfoldable pub supersede_open : EntityId → Db → Db
supersede_open plan_id db = record db {
  decisions =
      update (is_open plan_id) (λ e. record e { status = DecisionStatus.superseded }) db.decisions;
}

-- #16: decisions in effect that carry a revisit trigger.
unfoldable pub list_provisional : Db → EntityId → List Decision
list_provisional db plan_id =
    order_by (λ a b. leb a.created_at b.created_at)
      (select (λ d. is_open plan_id d && is_some d.supersede_when) db.decisions)
