-- ===== src/Repo/Policies.antt =====
-- crates/db/src/repo/autonomy_policy.rs: the policies per scope, their resolution and the circuit
-- breaker.
pub mod Laws
pub mod Breaker
use sdi_plugin.Prelude.{
  ℕ, String, Bool, true, not, ◌&&◌, Option, none, some, List, [], ◌∷◌, ◌++◌, ◌==◌, if◌then◌else◌,
  or_else, any, find, update, count,
}
use sdi_plugin.Prelude.Text.{◌⧺◌, show_ℤ}
use sdi_plugin.Domain.Error.{DomainError, validation, Result, ok, ◌>>◌, refuse_if, accept}
use sdi_plugin.Domain.Ids.{EntityId, Timestamp}
use sdi_plugin.Prelude.Int.{ℤ, pos, int_le}
use sdi_plugin.Domain.Autonomy.{
  AutonomyPolicy, AutonomyScopeKind, autonomy_scope_kind_eq, AutonomyMode, autonomy_mode_eq,
  demoted, is_pattern_kind, validate_scope, validate_mode_against_kind,
}
use sdi_plugin.Repo.Db.{Db, foreign_key_violation, primary_key_violation}

abbrev pub coalesce : Option String → String
coalesce none = ""
coalesce (some s) = s

-- `WHERE project_id = .. AND scope_kind = .. AND COALESCE(..) = ..`
abbrev pub in_scope :
    EntityId → AutonomyScopeKind → String → String → String → AutonomyPolicy → Bool
in_scope project_id scope_kind plan_id decision_kind pattern_kind p =
    p.project_id == project_id
    && autonomy_scope_kind_eq p.scope_kind scope_kind
    && coalesce p.plan_id == plan_id
    && coalesce p.decision_kind == decision_kind
    && coalesce p.pattern_kind == pattern_kind

unfoldable pub scope_lookup :
    Db
    → EntityId
    → AutonomyScopeKind
    → Option EntityId
    → Option String
    → Option String
    → Option AutonomyPolicy
scope_lookup db project_id scope_kind for_plan for_decision for_pattern =
    find
      (in_scope project_id scope_kind (coalesce for_plan) (coalesce for_decision)
        (coalesce for_pattern))
      db.policies

-- A level of the search is tried only where its key is given.
abbrev pub when_given : Option String → (String → Option AutonomyPolicy) → Option AutonomyPolicy
when_given none f = none
when_given (some key) f = f key

unfoldable pub resolve :
    Db → EntityId → Option EntityId → Option String → Option String → Option AutonomyPolicy
unfolding scope_lookup
resolve db project_id for_plan for_decision for_pattern =
    or_else
      (when_given for_plan
        λ k. scope_lookup db project_id AutonomyScopeKind.plan (some k) none none)
      (or_else
        (when_given for_pattern
          λ k. scope_lookup db project_id AutonomyScopeKind.pattern_kind none none (some k))
        (or_else
          (when_given for_decision
            λ k. scope_lookup db project_id AutonomyScopeKind.decision_kind none (some k) none)
          (scope_lookup db project_id AutonomyScopeKind.global none none none)))

abbrev pub same_scope : AutonomyPolicy → AutonomyPolicy → Bool
same_scope p =
    in_scope p.project_id p.scope_kind (coalesce p.plan_id) (coalesce p.decision_kind)
      (coalesce p.pattern_kind)

-- `DO UPDATE SET`: the key, the id and `created_at` of the old row stay.
abbrev pub overwrite : AutonomyPolicy → AutonomyPolicy → AutonomyPolicy
overwrite p old = record old {
  mode = p.mode;
  l5_threshold = p.l5_threshold;
  pattern_depth_cap = p.pattern_depth_cap;
  retry_budget_cap = p.retry_budget_cap;
  plan_single_session_lock = p.plan_single_session_lock;
  external_surface = p.external_surface;
  timeout_ms = p.timeout_ms;
  forced = p.forced;
  set_at = p.set_at;
  set_by = p.set_by;
  reason = p.reason;
  updated_at = p.updated_at;
}

abbrev pub write : AutonomyPolicy → List AutonomyPolicy → List AutonomyPolicy
write p rows =
    if any (same_scope p) rows then update (same_scope p) (overwrite p) rows else rows ++ p ∷ []

abbrev pub between : ℕ → ℕ → ℤ → Bool
between low high n = int_le (pos low) n && int_le n (pos high)

abbrev pub check_failed : String → DomainError
check_failed text = validation ("sqlite: CHECK constraint failed: " ⧺ text)

abbrev pub opt_pattern_kind : Option String → Bool
opt_pattern_kind none = true
opt_pattern_kind (some k) = is_pattern_kind k

-- The CHECKs of the columns that a value of the struct can fail; those on the scope and on the retry
-- cap repeat what `upsert` has checked before the statement.
unfoldable pub check_columns : AutonomyPolicy → Result (Unit {0})
check_columns p = do
  refuse_if (not (opt_pattern_kind p.pattern_kind)) (
      check_failed
        "pattern_kind IS NULL OR pattern_kind IN ('workflow','graph','swarm','agents-as-tools','direct')")
  refuse_if (not (between 0 10 p.l5_threshold)) (check_failed "l5_threshold BETWEEN 0 AND 10")
  refuse_if (not (between 1 10 p.pattern_depth_cap))
      (check_failed "pattern_depth_cap BETWEEN 1 AND 10")

abbrev pub known_plan : Db → Option EntityId → Bool
known_plan db none = true
known_plan db (some id) = any (λ q. q.id == id) db.plans

-- The primary key and the references of a new row.
unfoldable pub check_new_row : AutonomyPolicy → Db → Result (Unit {0})
check_new_row p db = do
  refuse_if (any (λ q. q.id == p.id) db.policies) (primary_key_violation "autonomy_policies")
  refuse_if (not (any (λ q. q.id == p.project_id) db.projects && known_plan db p.plan_id))
      foreign_key_violation

-- `INSERT .. ON CONFLICT(..) DO UPDATE`: the CHECKs are tested on the row given; a conflict of the
-- scope is looked for before the other keys, and then the old row keeps its key and its references.
unfoldable pub insert_or_update : AutonomyPolicy → Db → Result Db
unfolding check_columns check_new_row
insert_or_update p db = do
  check_columns p
  if any (same_scope p) db.policies then accept else check_new_row p db
  ok (record db { policies = write p db.policies })

unfoldable pub upsert : AutonomyPolicy → Db → Result Db
unfolding validate_scope validate_mode_against_kind insert_or_update
upsert p db = do
  validate_scope p.scope_kind p.plan_id p.decision_kind p.pattern_kind
  validate_mode_against_kind p.scope_kind p.decision_kind p.mode
  refuse_if (not (between 1 100 p.retry_budget_cap))
      (validation ("retry_budget_cap must be within 1..=100, got " ⧺ show_ℤ p.retry_budget_cap))
  insert_or_update p db

abbrev pub is_loose : EntityId → AutonomyPolicy → Bool
is_loose project_id p = p.project_id == project_id && not (autonomy_mode_eq p.mode AutonomyMode.l3)

abbrev pub demote : String → String → Timestamp → AutonomyPolicy → AutonomyPolicy
demote actor reason at p = record p {
  mode = demoted;
  set_at = at;
  set_by = actor;
  reason = some reason;
  updated_at = at;
}

-- D18: the new tables and the number of rows that changed.
unfoldable pub circuit_breaker : EntityId → String → String → Timestamp → Db → Db × ℕ
circuit_breaker project_id actor reason at db = (
  record db { policies = update (is_loose project_id) (demote actor reason at) db.policies },
  count (is_loose project_id) db.policies,
)
