-- ===== src/Router/Provenance.antt =====
-- crates/daemon/src/router/provenance.rs: the pattern that stands for work without a pattern. The id
-- that the daemon draws and the clock are arguments.
pub mod Sentinel
use sdi_plugin.Prelude.{
  ℕ, zero, suc, ◌+◌, ◌-◌, ◌≤◌, ◌<◌, String, ◌≡◌, refl, sym, ap, ◌≢◌, ◌↔◌, ◌⊎◌, inl, inr, Bool, true,
  false, not, ◌&&◌, ◌||◌, Option, none, some, List, [], ◌∷◌, ◌++◌, map, arith, ◌==◌, eq_iff,
  eq_refl, if◌then◌else◌, ltb, leb, nat_eq, is_some, is_none, or_else, length, any, is_empty,
  select, find, update, count, first, All, Has, Bool-cases, Option-cases,
}
use sdi_plugin.Prelude.Split.{text_le}
use sdi_plugin.Prelude.Text.{
  ◌⧺◌, is_blank, trim, strip_prefix, has_prefix, contains, any_char, show_ℕ, show_ℤ, str_is_empty,
}
use sdi_plugin.Domain.Error.{
  DomainError, invalid_transition, validation, not_found, scenarios_required, gwt_empty,
  evidence_required, invalid_round_mode, disruption_pending, snapshot_violation, conflict,
  consensus_missing_critique, autonomy_gate_blocked, retry_budget_exhausted, evidence_run_invalid,
  evidence_stale, baseline_locked, harness_failure_unresolved, Result, ok, err, ◌>>=◌, ◌>>◌, accept,
  refuse_if, show_error,
}
use sdi_plugin.Domain.Ids.{EntityId, Timestamp}
use sdi_plugin.Repo.Db.{
  Db, foreign_key_violation, primary_key_violation, unique_violation, order_by, opt_eq,
}
use sdi_plugin.Repo.Action.{Action, ◌▹◌, ◌▸◌, pure, exec, query, transaction}
use sdi_plugin.Prelude.Int.{ℤ, pos, negsuc}
use sdi_plugin.Prelude.{◌*◌, and-eq-true}
use sdi_plugin.Domain.Pattern.{PatternKind, PatternLifecycle, AppliesTo}
use sdi_plugin.Domain.Pattern.Shape.{CollaborationPattern}
use sdi_plugin.Repo.Plans
use sdi_plugin.Repo.Patterns
use sdi_plugin.Domain.Plan.{Plan}

unfoldable pub sentinel_short_code : String → String
sentinel_short_code plan_short_code = "DIRECT-" ⧺ plan_short_code

abbrev pub direct_row : EntityId → String → EntityId → Timestamp → CollaborationPattern
direct_row id short_code plan_id now = record {
  id = id;
  short_code = short_code;
  plan_id = plan_id;
  kind = PatternKind.direct;
  applies_to = AppliesTo.plan;
  scope_id = plan_id;
  parent_pattern_id = none;
  depth = 0;
  lifecycle = PatternLifecycle.active;
  steps = none;
  reviewers = none;
  fan_out = none;
  peer_registration = none;
  decided_at = none;
  decided_reason = some "solo-flow marker — produced without a collaboration pattern (D23)";
  created_at = now;
  updated_at = now;
}

-- The row that won, for a conflict; any other error is passed on.
abbrev pub on_conflict : DomainError → Option CollaborationPattern → String → Result String
on_conflict (conflict _) (some p) short_code = ok p.id
on_conflict (conflict _) none short_code = err (not_found short_code)
on_conflict e _ short_code = err e

abbrev pub inserted_or_won : Result Db → EntityId → String → EntityId → Db → Result String × Db
inserted_or_won (ok db') id short_code plan_id db = (ok id, db')
inserted_or_won (err e) id short_code plan_id db =
    (on_conflict e (Patterns.get_by_short_code db plan_id short_code) short_code, db)

abbrev pub existing_or_new :
    Option CollaborationPattern → EntityId → String → EntityId → Timestamp → Action String
existing_or_new (some p) id short_code plan_id now db = (ok p.id, db)
existing_or_new none id short_code plan_id now db =
    inserted_or_won (Patterns.insert (direct_row id short_code plan_id now) db) id short_code
      plan_id db

abbrev pub ensure_for : EntityId → EntityId → Timestamp → Plan → Action String
ensure_for plan_id id now plan db =
    existing_or_new (Patterns.get_by_short_code db plan_id (sentinel_short_code plan.short_code)) id
      (sentinel_short_code plan.short_code) plan_id now db

unfoldable pub ensure_direct_pattern : EntityId → EntityId → Timestamp → Action String
unfolding Plans.get Patterns.get_by_short_code Patterns.insert sentinel_short_code
ensure_direct_pattern plan_id id now =
    query (λ db. Plans.get db plan_id) ▹ ensure_for plan_id id now
