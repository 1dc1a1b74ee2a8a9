-- ===== src/Repo/Relations.antt =====
-- crates/db/src/repo/run.rs: the relations between tasks and the walks along the `parent` ones.
pub mod Walks
pub mod Found
pub mod Kinship
use sdi_plugin.Prelude.{
  ℕ, zero, suc, ◌+◌, ◌-◌, ◌≤◌, ◌<◌, String, ◌≡◌, refl, sym, ap, ◌≢◌, ◌↔◌, ◌⊎◌, inl, inr, Bool, true,
  false, not, ◌&&◌, ◌||◌, Option, none, some, List, [], ◌∷◌, ◌++◌, map, arith, ◌==◌, eq_iff,
  eq_refl, if◌then◌else◌, ltb, leb, nat_eq, is_some, is_none, or_else, length, any, is_empty,
  select, find, update, count, first, All, Has, Bool-cases, Option-cases,
}
use sdi_plugin.Prelude.Split.{text_le}
use sdi_plugin.Prelude.Text.{
  ◌⧺◌, is_blank, trim, strip_prefix, has_prefix, contains, any_char, show_ℕ, show_ℤ, str_is_empty,
}
use sdi_plugin.Domain.Error.{
  DomainError, invalid_transition, validation, not_found, scenarios_required, gwt_empty,
  evidence_required, invalid_round_mode, disruption_pending, snapshot_violation, conflict,
  consensus_missing_critique, autonomy_gate_blocked, retry_budget_exhausted, evidence_run_invalid,
  evidence_stale, baseline_locked, harness_failure_unresolved, Result, ok, err, ◌>>=◌, ◌>>◌, accept,
  refuse_if, show_error,
}
use sdi_plugin.Domain.Ids.{EntityId, Timestamp}
use sdi_plugin.Repo.Db.{
  Db, foreign_key_violation, primary_key_violation, unique_violation, order_by, opt_eq,
}
use sdi_plugin.Repo.Action.{Action, ◌▹◌, ◌▸◌, pure, exec, query, transaction}
use sdi_plugin.Prelude.Int.{ℤ, pos, negsuc}
use sdi_plugin.Prelude.{◌*◌, and-eq-true}
use sdi_plugin.Domain.Run.{TaskRelation, RelationKind, relation_kind_eq}

abbrev pub same_relation : TaskRelation → TaskRelation → Bool
same_relation r q =
    r.parent_id == q.parent_id && r.child_id == q.child_id && relation_kind_eq r.kind q.kind

abbrev pub known_task : Db → EntityId → Bool
known_task db id = any (λ t. t.id == id) db.tasks

unfoldable pub insert_relation : TaskRelation → Db → Result Db
insert_relation r db = do
  refuse_if (r.parent_id == r.child_id) (validation "task relation cannot point at itself")
  refuse_if (any (λ q. q.id == r.id) db.relations) (primary_key_violation "task_relations")
  refuse_if (any (same_relation r) db.relations)
      (unique_violation "task_relations" ("parent_id" ∷ "child_id" ∷ "kind" ∷ []))
  refuse_if (not (known_task db r.parent_id && known_task db r.child_id)) foreign_key_violation
  ok (record db { relations = db.relations ++ r ∷ [] })

unfoldable pub delete_relation : EntityId → Db → Result Db
delete_relation id db = do
  refuse_if (not (any (λ r. r.id == id) db.relations)) (not_found id)
  ok (record db { relations = select (λ r. not (r.id == id)) db.relations })

unfoldable pub list_relations_for_task : Db → EntityId → List TaskRelation
list_relations_for_task db task_id =
    order_by (λ a b. leb a.created_at b.created_at)
      (select (λ r. r.parent_id == task_id || r.child_id == task_id) db.relations)

-- `SELECT parent_id … WHERE child_id = ? AND kind = 'parent'`
unfoldable pub parents : Db → EntityId → List EntityId
parents db id =
    map (λ r. r.parent_id)
      (select (λ r. r.child_id == id && relation_kind_eq r.kind RelationKind.parent) db.relations)

-- `SELECT child_id … WHERE parent_id = ? AND kind = 'parent'`
unfoldable pub children : Db → EntityId → List EntityId
children db id =
    map (λ r. r.child_id)
      (select (λ r. r.parent_id == id && relation_kind_eq r.kind RelationKind.parent) db.relations)

-- The variables of the loop. `seen` is a set, here the ids in the order of insertion, newest first.
pub record Walk : Type 0 where
  pub frontier : List EntityId
  pub seen : List EntityId
  pub out : List EntityId

abbrev pub mem : EntityId → List EntityId → Bool
mem id ids = any (λ i. i == id) ids

-- `if seen.insert(p) { out.push(p); frontier.push_back(p) }`
abbrev pub visit : EntityId → Walk → Walk
visit p w =
    if mem p w.seen
    then w
    else record { frontier = w.frontier ++ p ∷ []; seen = p ∷ w.seen; out = w.out ++ p ∷ [] }

abbrev pub visit_all : List EntityId → Walk → Walk
visit_all [] w = w
visit_all (p ∷ ps) w = visit_all ps (visit p w)

-- `while let Some(cur) = frontier.pop_front()`, on fuel: `none` if the fuel ends first.
unfoldable pub walk : (EntityId → List EntityId) → ℕ → List EntityId → Walk → Option (List EntityId)
walk next fuel [] w = some w.out
walk next zero (cur ∷ rest) w = none
walk next (suc fuel) (cur ∷ rest) w =
    let v = visit_all (next cur) (record w { frontier = rest }) in walk next fuel v.frontier v

abbrev pub start_at : EntityId → Walk
start_at task_id = record { frontier = task_id ∷ []; seen = task_id ∷ []; out = [] }

-- Every round of the loop but the first is for an id that another relation names.
abbrev pub enough : Db → ℕ
enough db = suc (length db.relations)

unfoldable pub ancestors : Db → EntityId → Option (List EntityId)
unfolding walk parents
ancestors db task_id = walk (parents db) (enough db) (task_id ∷ []) (start_at task_id)

unfoldable pub descendants : Db → EntityId → Option (List EntityId)
unfolding walk children
descendants db task_id = walk (children db) (enough db) (task_id ∷ []) (start_at task_id)
