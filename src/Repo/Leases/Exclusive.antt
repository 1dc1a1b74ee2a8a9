-- ===== src/Repo/Leases/Exclusive.antt =====
-- crates/db/src/repo/run.rs: a lease over several operations: who keeps it, and until when.
use sdi_plugin.Prelude.{
  suc, ◌≤◌, String, ◌≡◌, refl, sym, ap, inl, inr, true, false, Option, none, some, List, [], ◌∷◌,
  arith, ◌==◌, eq_iff, any, All, Bool-cases,
}
use sdi_plugin.Domain.Error.{ok}
use sdi_plugin.Domain.Ids.{EntityId, Timestamp}
use sdi_plugin.Prelude.{◌∙◌}
use sdi_plugin.Repo.Db.{Db}
use sdi_plugin.Prelude.Int.{ℤ}
use sdi_plugin.Domain.Run.{TaskLease}
use sdi_plugin.Repo.Leases.{
  is_lease_of, get_lease, fresh_lease, acquire_lease, heartbeat_lease, release_lease,
}
use sdi_plugin.Repo.Leases.Rows.{OnePerTask}
use sdi_plugin.Repo.Leases.Lock.{
  LeaseOp, task_of, caller_of, run_op, lock_op, knows_task, acquire-present, acquire-absent,
  acquire-unknown, run_op-OnePerTask,
}
use sdi_plugin.Repo.Leases.Refinement.{run_op-Simulates}

run_op-tasks :
    (op : LeaseOp) (now : Timestamp) (db : Db)
    → OnePerTask db.leases
    → (run_op op now db).1.tasks ≡ db.tasks
unfolding heartbeat_lease release_lease
run_op-tasks (LeaseOp.acquire t h ttl) now db u =
    elim (Bool-cases (any (is_lease_of t) db.leases)) [
      | inl k ↦ ap (λ r. r.1.tasks) (acquire-present t h ttl now db k)
      | inr k ↦ elim (Bool-cases (knows_task t db)) [
        | inl c ↦ ap (λ r. r.1.tasks) (acquire-absent t h ttl now db k c)
        | inr c ↦ ap (λ r. r.1.tasks) (acquire-unknown t h ttl now db k c)
      ]
    ]
run_op-tasks (LeaseOp.heartbeat t h ttl) now db u = refl
run_op-tasks (LeaseOp.release t h) now db u = refl

-- An operation at a time, and several in sequence.
abbrev pub run_ops : List (LeaseOp × Timestamp) → Db → Db
run_ops [] db = db
run_ops ((op, now) ∷ ops) db = run_ops ops (run_op op now db).1

-- Calls of others than the holder, on tasks that exist, until the lease expires.
abbrev pub FromOthers : TaskLease → Db → LeaseOp × Timestamp → Type 0
FromOthers l db (op, now) =
    (knows_task (task_of op) db ≡ true)
    × ((caller_of op == l.holder) ≡ false)
    × (now ≤ l.expires_at)

lock-Others :
    (op : LeaseOp) (now : Timestamp) (l : TaskLease)
    → (caller_of op == l.holder) ≡ false
    → now ≤ l.expires_at
    → lock_op op now (some l) ≡ (false, some l)
lock-Others (LeaseOp.acquire t h ttl) now l k d = ground arith
lock-Others (LeaseOp.heartbeat t h ttl) now l k d =
    ground (arith, eq_iff l.holder h, eq_iff h l.holder)
lock-Others (LeaseOp.release t h) now l k d = ground (arith, eq_iff l.holder h, eq_iff h l.holder)

step-held :
    (op : LeaseOp) (now : Timestamp) (db : Db) (t : EntityId) (l : TaskLease)
    → OnePerTask db.leases
    → get_lease db t ≡ some l
    → FromOthers l db (op, now)
    → get_lease (run_op op now db).1 t ≡ some l
step-held op now db t l u held (known, other, early) =
    let (_, own, frame) = run_op-Simulates op now db u known in
    elim (Bool-cases (task_of op == t)) [
      | inl e ↦
          let same = (eq_iff (task_of op) t).0 e in
          ap (get_lease (run_op op now db).1) (sym same)
          ∙ (own
              ∙ (ap (λ o. (lock_op op now o).1) (ap (get_lease db) same ∙ held)
                  ∙ ap (λ p. p.1) (lock-Others op now l other early)))
      | inr e ↦ frame t e ∙ held
    ]

others-tasks :
    (l : TaskLease) (db db' : Db) (ops : List (LeaseOp × Timestamp))
    → db'.tasks ≡ db.tasks
    → All (FromOthers l db) ops
    → All (FromOthers l db') ops
others-tasks l db db' [] same h = tt
others-tasks l db db' ((op, now) ∷ ops) same ((known, other, early), hs) = (
  (ap (any (λ t. t.id == task_of op)) same ∙ known, other, early),
  others-tasks l db db' ops same hs,
)

-- A lease is exclusive: whatever others ask for until it expires, in any order and number, the
-- holder still has it.
pub run_ops-exclusive :
    (ops : List (LeaseOp × Timestamp)) (db : Db) (t : EntityId) (l : TaskLease)
    → OnePerTask db.leases
    → get_lease db t ≡ some l
    → All (FromOthers l db) ops
    → get_lease (run_ops ops db) t ≡ some l
run_ops-exclusive [] db t l u held h = held
run_ops-exclusive ((op, now) ∷ ops) db t l u held (here, later) =
    run_ops-exclusive ops (run_op op now db).1 t l (run_op-OnePerTask op now db u)
      (step-held op now db t l u held here)
      (others-tasks l db (run_op op now db).1 ops (run_op-tasks op now db u) later)

abbrev free_from : Option TaskLease → Timestamp
free_from none = 0
free_from (some l) = suc l.expires_at

lock-free :
    (t : EntityId) (h : String) (ttl : ℤ) (now : Timestamp) (o : Option TaskLease)
    → free_from o ≤ now
    → lock_op (LeaseOp.acquire t h ttl) now o ≡ (true, some (fresh_lease t h ttl now))
lock-free t h ttl now none d = refl
lock-free t h ttl now (some l) d = ground arith

-- A lease never blocks a task for good: there is a time from which on any caller acquires it, and
-- has it then.
pub acquire_lease-Live :
    (db : Db) (t : EntityId)
    → OnePerTask db.leases
    → knows_task t db ≡ true
    → (from : Timestamp) × ((h : String) (ttl : ℤ) (now : Timestamp)
        → from ≤ now
        → ((acquire_lease t h ttl now db).0 ≡ ok true)
          × (get_lease (acquire_lease t h ttl now db).1 t ≡ some (fresh_lease t h ttl now)))
acquire_lease-Live db t u known = (
  free_from (get_lease db t),
  λ h ttl now d.
      let (answer, row, _) = run_op-Simulates (LeaseOp.acquire t h ttl) now db u known in
      let open_now = lock-free t h ttl now (get_lease db t) d in
      (answer ∙ ap (λ p. ok p.0) open_now, row ∙ ap (λ p. p.1) open_now),
)
