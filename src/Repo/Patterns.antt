-- ===== src/Repo/Patterns.antt =====
-- crates/db/src/repo/pattern.rs: collaboration patterns. The four JSON columns hold values, as the
-- other columns do.
use sdi_plugin.Prelude.{
  String, Bool, true, false, not, ◌&&◌, Option, none, some, List, [], ◌∷◌, ◌++◌, ◌==◌,
  if◌then◌else◌, leb, or_else, any, select, find, update,
}
use sdi_plugin.Domain.Error.{not_found, Result, ok, ◌>>◌, refuse_if}
use sdi_plugin.Domain.Ids.{EntityId, Timestamp}
use sdi_plugin.Repo.Db.{
  Db, foreign_key_violation, primary_key_violation, unique_violation, order_by, opt_eq,
}
use sdi_plugin.Repo.Db.{known_pattern}
use sdi_plugin.Domain.Pattern.{PatternLifecycle, is_terminal}
use sdi_plugin.Domain.Pattern.Shape.{CollaborationPattern}

-- The primary key, the unique code of a plan, and the references.
unfoldable pub insert : CollaborationPattern → Db → Result Db
insert p db = do
  refuse_if (any (λ q. q.id == p.id) db.patterns) (primary_key_violation "collaboration_patterns")
  refuse_if (any (λ q. q.plan_id == p.plan_id && q.short_code == p.short_code) db.patterns)
      (unique_violation "collaboration_patterns" ("plan_id" ∷ "short_code" ∷ []))
  refuse_if (not (any (λ q. q.id == p.plan_id) db.plans && known_pattern db p.parent_pattern_id))
      foreign_key_violation
  ok (record db { patterns = db.patterns ++ p ∷ [] })

abbrev pub decided_now : PatternLifecycle → Timestamp → Option Timestamp
decided_now lifecycle now = if is_terminal lifecycle then some now else none

abbrev pub moved :
    PatternLifecycle → Option String → Timestamp → CollaborationPattern → CollaborationPattern
moved lifecycle reason now p = record p {
  lifecycle = lifecycle;
  decided_at = or_else (decided_now lifecycle now) p.decided_at;
  decided_reason = or_else reason p.decided_reason;
  updated_at = now;
}

unfoldable pub update_lifecycle :
    EntityId → PatternLifecycle → Option String → Timestamp → Db → Result Db
unfolding is_terminal
update_lifecycle id lifecycle reason now db = do
  refuse_if (not (any (λ p. p.id == id) db.patterns)) (not_found id)
  ok (record db { patterns = update (λ p. p.id == id) (moved lifecycle reason now) db.patterns })

unfoldable pub get : Db → EntityId → Option CollaborationPattern
get db id = find (λ p. p.id == id) db.patterns

unfoldable pub get_by_short_code : Db → EntityId → String → Option CollaborationPattern
get_by_short_code db plan_id short_code =
    find (λ p. p.plan_id == plan_id && p.short_code == short_code) db.patterns

abbrev pub created_first : CollaborationPattern → CollaborationPattern → Bool
created_first a b = leb a.created_at b.created_at

unfoldable pub list_by_plan : Db → EntityId → List CollaborationPattern
list_by_plan db plan_id = order_by created_first (select (λ p. p.plan_id == plan_id) db.patterns)

abbrev pub is_active : CollaborationPattern → Bool
is_active p = elim p.lifecycle [ PatternLifecycle.active ↦ true | _ ↦ false ]

-- `JOIN plans p ON p.id = cp.plan_id`, for a project.
abbrev pub in_project : Db → Option EntityId → CollaborationPattern → Bool
in_project db none p = true
in_project db (some project_id) p =
    any (λ q. q.id == p.plan_id && q.project_id == project_id) db.plans

unfoldable pub list_active : Db → Option EntityId → List CollaborationPattern
list_active db project_id =
    order_by created_first (select (λ p. is_active p && in_project db project_id p) db.patterns)

unfoldable pub list_children : Db → EntityId → List CollaborationPattern
list_children db parent_id =
    order_by created_first (select (λ p. opt_eq p.parent_pattern_id parent_id) db.patterns)
