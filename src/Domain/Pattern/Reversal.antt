-- ===== src/Domain/Pattern/Reversal.antt =====
-- crates/core/src/pattern.rs: the reversal plans of D28. serde_json parses the stored blob and
-- owns the values of `action_spec`, so both are parameters.
use sdi_plugin.Prelude.{String, Bool, ◌||◌, List}
use sdi_plugin.Prelude.Text.{is_blank}
use sdi_plugin.Domain.Error.{validation, Result, ok, ◌>>=◌, ◌>>◌, refuse_if}

pub data ReversalPlan (V : Type 0) : Type 0 where
  migration_sql : (sql : String) (dependencies : List String) → ReversalPlan V
  git_revert : (sha : String) → ReversalPlan V
  fs_snapshot : (snapshot_ref : String) → ReversalPlan V
  compensating_action : (action_spec : V) → ReversalPlan V

module _ {V : Type 0} (is_null is_empty_object : V → Bool) where
  -- The `match` on the parsed plan.
  unfoldable pub check_plan : ReversalPlan V → Result (Unit {0})
  check_plan (migration_sql sql _) =
      refuse_if (is_blank sql) (validation "reversal_plan migration_sql.sql must be non-empty")
  check_plan (git_revert sha) =
      refuse_if (is_blank sha) (validation "reversal_plan git_revert.sha must be non-empty")
  check_plan (fs_snapshot snapshot_ref) =
      refuse_if (is_blank snapshot_ref)
        (validation "reversal_plan fs_snapshot.snapshot_ref must be non-empty")
  check_plan (compensating_action action_spec) =
      refuse_if (is_null action_spec || is_empty_object action_spec)
        (validation "reversal_plan compensating_action.action_spec must be non-empty")

  unfoldable pub validate_reversal_plan_json :
      (String → Result (ReversalPlan V)) → String → Result (ReversalPlan V)
  unfolding check_plan
  validate_reversal_plan_json from_json s = do plan ← from_json s; check_plan plan; ok plan
