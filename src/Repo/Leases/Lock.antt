-- ===== src/Repo/Leases/Lock.antt =====
-- crates/db/src/repo/run.rs: the lease operations as operations of a lock on each task.
use sdi_plugin.Prelude.{
  ℕ, String, ◌≡◌, refl, sym, ap, inl, inr, Bool, true, false, Option, none, some, List, [], ◌∷◌,
  ◌++◌, ◌==◌, if◌then◌else◌, ltb, nat_eq, any, update, count, Bool-cases,
}
use sdi_plugin.Domain.Error.{Result, ok, err}
use sdi_plugin.Domain.Ids.{EntityId, Timestamp}
use mathlib.Core.Path.{subst}
use sdi_plugin.Repo.Db.{Db, foreign_key_violation}
use sdi_plugin.Repo.Action.{Action, ◌▹◌}
use sdi_plugin.Prelude.Int.{ℤ}
use sdi_plugin.Domain.Run.{TaskLease}
use sdi_plugin.Repo.Leases.{
  is_lease_of, is_held_by, is_expired_of, fresh_lease, overwrite, refresh, after_insert,
  acquire_lease, insert_or_ignore, overwrite_expired, heartbeat_lease, release_lease,
}
use sdi_plugin.Repo.Leases.Rows.{
  OnePerTask, update-OnePerTask, select-OnePerTask, append-OnePerTask,
}
use sdi_plugin.Repo.Action.{resume}

pub data LeaseOp : Type 0 where
  acquire : EntityId → String → ℤ → LeaseOp
  heartbeat : EntityId → String → ℤ → LeaseOp
  release : EntityId → String → LeaseOp

abbrev pub task_of : LeaseOp → EntityId
task_of (LeaseOp.acquire task_id _ _) = task_id
task_of (LeaseOp.heartbeat task_id _ _) = task_id
task_of (LeaseOp.release task_id _) = task_id

abbrev pub caller_of : LeaseOp → String
caller_of (LeaseOp.acquire _ holder _) = holder
caller_of (LeaseOp.heartbeat _ holder _) = holder
caller_of (LeaseOp.release _ holder) = holder

abbrev pub run_op : LeaseOp → Timestamp → Action Bool
run_op (LeaseOp.acquire task_id holder ttl) now = acquire_lease task_id holder ttl now
run_op (LeaseOp.heartbeat task_id holder ttl) now = heartbeat_lease task_id holder ttl now
run_op (LeaseOp.release task_id holder) now = release_lease task_id holder

-- The lock of one task: nobody's, or held until a time.
abbrev pub lock_op : LeaseOp → Timestamp → Option TaskLease → Bool × Option TaskLease
lock_op (LeaseOp.acquire task_id holder ttl) now none =
    (true, some (fresh_lease task_id holder ttl now))
lock_op (LeaseOp.acquire task_id holder ttl) now (some l) =
    if ltb l.expires_at now
    then (true, some (fresh_lease task_id holder ttl now))
    else (false, some l)
lock_op (LeaseOp.heartbeat task_id holder ttl) now none = (false, none)
lock_op (LeaseOp.heartbeat task_id holder ttl) now (some l) =
    if l.holder == holder then (true, some (refresh ttl now l)) else (false, some l)
lock_op (LeaseOp.release task_id holder) now none = (false, none)
lock_op (LeaseOp.release task_id holder) now (some l) =
    if l.holder == holder then (true, none) else (false, some l)

abbrev pub knows_task : EntityId → Db → Bool
knows_task task_id db = any (λ t. t.id == task_id) db.tasks

abbrev pub with_leases : Db → List TaskLease → Db
with_leases db ls = record db { leases = ls }

abbrev Answer : Type 0
Answer = Result ℕ × Db

resumed :
    (m : Action ℕ) (k : ℕ → Action Bool) (db : Db) (r : Answer)
    → m db ≡ r
    → (m ▹ k) db ≡ resume r.0 k r.1
resumed m k db r h = ap (λ (x : Answer). resume x.0 k x.1) h

pub acquire-present :
    (t : EntityId) (h : String) (ttl : ℤ) (now : Timestamp) (db : Db)
    → any (is_lease_of t) db.leases ≡ true
    → acquire_lease t h ttl now db ≡ (
      ok (nat_eq (count (is_expired_of t now) db.leases) 1),
      with_leases db (update (is_expired_of t now) (overwrite h ttl now) db.leases),
    )
unfolding acquire_lease insert_or_ignore overwrite_expired
acquire-present t h ttl now db k =
    resumed (insert_or_ignore (fresh_lease t h ttl now)) (after_insert t h ttl now) db (ok 0, db)
      (rw k refl)

pub acquire-absent :
    (t : EntityId) (h : String) (ttl : ℤ) (now : Timestamp) (db : Db)
    → any (is_lease_of t) db.leases ≡ false
    → knows_task t db ≡ true
    → acquire_lease t h ttl now db
      ≡ (ok true, with_leases db (db.leases ++ fresh_lease t h ttl now ∷ []))
unfolding acquire_lease insert_or_ignore overwrite_expired
acquire-absent t h ttl now db k known =
    resumed (insert_or_ignore (fresh_lease t h ttl now)) (after_insert t h ttl now) db
      (ok 1, with_leases db (db.leases ++ fresh_lease t h ttl now ∷ [])) (rw k (rw known refl))

pub acquire-unknown :
    (t : EntityId) (h : String) (ttl : ℤ) (now : Timestamp) (db : Db)
    → any (is_lease_of t) db.leases ≡ false
    → knows_task t db ≡ false
    → acquire_lease t h ttl now db ≡ (err foreign_key_violation, db)
unfolding acquire_lease insert_or_ignore overwrite_expired
acquire-unknown t h ttl now db k known =
    resumed (insert_or_ignore (fresh_lease t h ttl now)) (after_insert t h ttl now) db
      (err foreign_key_violation, db) (rw k (rw known refl))

-- No operation leaves two rows for one task.
pub run_op-OnePerTask :
    (op : LeaseOp) (now : Timestamp) (db : Db)
    → OnePerTask db.leases
    → OnePerTask (run_op op now db).1.leases
unfolding heartbeat_lease release_lease
run_op-OnePerTask (LeaseOp.acquire t h ttl) now db u =
    elim (Bool-cases (any (is_lease_of t) db.leases)) [
      | inl k ↦
          subst Good (sym (acquire-present t h ttl now db k))
            (update-OnePerTask (is_expired_of t now) (overwrite h ttl now) db.leases (λ _. refl) u)
      | inr k ↦ elim (Bool-cases (knows_task t db)) [
        | inl c ↦
            subst Good (sym (acquire-absent t h ttl now db k c))
              (append-OnePerTask (fresh_lease t h ttl now) db.leases k u)
        | inr c ↦ subst Good (sym (acquire-unknown t h ttl now db k c)) u
      ]
    ]
  where
    Good : Result Bool × Db → Type 0
    Good r = OnePerTask r.1.leases
run_op-OnePerTask (LeaseOp.heartbeat t h ttl) now db u =
    update-OnePerTask (is_held_by t h) (refresh ttl now) db.leases (λ _. refl) u
run_op-OnePerTask (LeaseOp.release t h) now db u = select-OnePerTask (is_held_by t h) db.leases u
