-- ===== src/Repo/Leases.antt =====
-- crates/db/src/repo/run.rs: the leases on tasks. A timestamp counts nanoseconds, as the clock
-- (chrono) does, and a lease that would expire before the origin of time expires at the origin.
pub mod Rows
pub mod Lock
pub mod Refinement
pub mod Exclusive
use sdi_plugin.Prelude.{
  ℕ, zero, suc, ◌+◌, ◌-◌, ◌≤◌, ◌<◌, String, ◌≡◌, refl, sym, ap, ◌≢◌, ◌↔◌, ◌⊎◌, inl, inr, Bool, true,
  false, not, ◌&&◌, ◌||◌, Option, none, some, List, [], ◌∷◌, ◌++◌, map, arith, ◌==◌, eq_iff,
  eq_refl, if◌then◌else◌, ltb, leb, nat_eq, is_some, is_none, or_else, length, any, is_empty,
  select, find, update, count, first, All, Has, Bool-cases, Option-cases,
}
use sdi_plugin.Prelude.Split.{text_le}
use sdi_plugin.Prelude.Text.{
  ◌⧺◌, is_blank, trim, strip_prefix, has_prefix, contains, any_char, show_ℕ, show_ℤ, str_is_empty,
}
use sdi_plugin.Domain.Error.{
  DomainError, invalid_transition, validation, not_found, scenarios_required, gwt_empty,
  evidence_required, invalid_round_mode, disruption_pending, snapshot_violation, conflict,
  consensus_missing_critique, autonomy_gate_blocked, retry_budget_exhausted, evidence_run_invalid,
  evidence_stale, baseline_locked, harness_failure_unresolved, Result, ok, err, ◌>>=◌, ◌>>◌, accept,
  refuse_if, show_error,
}
use sdi_plugin.Domain.Ids.{EntityId, Timestamp}
use sdi_plugin.Repo.Db.{
  Db, foreign_key_violation, primary_key_violation, unique_violation, order_by, opt_eq,
}
use sdi_plugin.Repo.Action.{Action, ◌▹◌, ◌▸◌, pure, exec, query, transaction}
use sdi_plugin.Prelude.Int.{ℤ, pos, negsuc}
use sdi_plugin.Prelude.{◌*◌, and-eq-true}
use sdi_plugin.Domain.Run.{TaskLease}

abbrev pub after_seconds : Timestamp → ℤ → Timestamp
after_seconds now (pos s) = now + s * 1_000_000_000
after_seconds now (negsuc s) = now - (s + 1) * 1_000_000_000

abbrev pub is_lease_of : EntityId → TaskLease → Bool
is_lease_of task_id l = l.task_id == task_id

abbrev pub is_held_by : EntityId → String → TaskLease → Bool
is_held_by task_id holder l = l.task_id == task_id && l.holder == holder

abbrev pub is_expired_of : EntityId → Timestamp → TaskLease → Bool
is_expired_of task_id now l = l.task_id == task_id && ltb l.expires_at now

unfoldable pub get_lease : Db → EntityId → Option TaskLease
get_lease db task_id = find (is_lease_of task_id) db.leases

abbrev pub fresh_lease : EntityId → String → ℤ → Timestamp → TaskLease
fresh_lease task_id holder ttl_seconds now = record {
  task_id = task_id;
  holder = holder;
  acquired_at = now;
  heartbeat_at = now;
  expires_at = after_seconds now ttl_seconds;
}

-- The row that the overwriting UPDATE leaves.
abbrev pub overwrite : String → ℤ → Timestamp → TaskLease → TaskLease
overwrite holder ttl_seconds now l = record l {
  holder = holder;
  acquired_at = now;
  heartbeat_at = now;
  expires_at = after_seconds now ttl_seconds;
}

abbrev pub refresh : ℤ → Timestamp → TaskLease → TaskLease
refresh ttl_seconds now l = record l {
  heartbeat_at = now;
  expires_at = after_seconds now ttl_seconds;
}

-- `INSERT OR IGNORE`: the row of another lease is not overwritten, and the statement reports how
-- many rows it wrote. An unknown task is not ignored.
unfoldable pub insert_or_ignore : TaskLease → Action ℕ
insert_or_ignore l db =
    if any (is_lease_of l.task_id) db.leases
    then (ok 0, db)
    else if any (λ t. t.id == l.task_id) db.tasks
    then (ok 1, record db { leases = db.leases ++ l ∷ [] })
    else (err foreign_key_violation, db)

unfoldable pub overwrite_expired : EntityId → String → ℤ → Timestamp → Action ℕ
overwrite_expired task_id holder ttl_seconds now db = (
  ok (count (is_expired_of task_id now) db.leases),
  record db {
    leases = update (is_expired_of task_id now) (overwrite holder ttl_seconds now) db.leases;
  },
)

abbrev pub after_insert : EntityId → String → ℤ → Timestamp → ℕ → Action Bool
after_insert task_id holder ttl_seconds now inserted =
    if nat_eq inserted 1
    then pure true
    else overwrite_expired task_id holder ttl_seconds now ▹ λ updated. pure (nat_eq updated 1)

unfoldable pub acquire_lease : EntityId → String → ℤ → Timestamp → Action Bool
unfolding insert_or_ignore overwrite_expired
acquire_lease task_id holder ttl_seconds now =
    insert_or_ignore (fresh_lease task_id holder ttl_seconds now)
    ▹ after_insert task_id holder ttl_seconds now

unfoldable pub heartbeat_lease : EntityId → String → ℤ → Timestamp → Action Bool
heartbeat_lease task_id holder ttl_seconds now db = (
  ok (nat_eq (count (is_held_by task_id holder) db.leases) 1),
  record db { leases = update (is_held_by task_id holder) (refresh ttl_seconds now) db.leases },
)

unfoldable pub release_lease : EntityId → String → Action Bool
release_lease task_id holder db = (
  ok (nat_eq (count (is_held_by task_id holder) db.leases) 1),
  record db { leases = select (λ l. not (is_held_by task_id holder l)) db.leases },
)
