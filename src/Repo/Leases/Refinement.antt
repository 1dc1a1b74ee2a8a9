-- ===== src/Repo/Leases/Refinement.antt =====
-- crates/db/src/repo/run.rs: the table of leases implements a lock for each task.
use sdi_plugin.Prelude.{
  String, ◌≡◌, refl, sym, ap, inl, inr, Bool, true, false, Option, none, some, arith, ◌==◌, eq_iff,
  eq_refl, if◌then◌else◌, ltb, nat_eq, is_some, any, find, Bool-cases,
}
use sdi_plugin.Domain.Error.{Result, ok}
use sdi_plugin.Domain.Ids.{EntityId, Timestamp}
use sdi_plugin.Prelude.{◌∙◌}
use mathlib.Core.Path.{subst}
use sdi_plugin.Repo.Db.{Db}
use sdi_plugin.Prelude.Int.{ℤ}
use sdi_plugin.Domain.Run.{TaskLease}
use sdi_plugin.Repo.Leases.{
  is_lease_of, get_lease, fresh_lease, overwrite, refresh, heartbeat_lease, release_lease,
}
use sdi_plugin.Repo.Leases.Rows.{
  OnePerTask, one_if, change_if, drop_if, count-row, find-drop, find-change, find-drop-other,
  find-change-other,
}
use sdi_plugin.Prelude.Updates.{find-true, find-append-none, find-append-other, any-find}
use sdi_plugin.Repo.Leases.Lock.{
  LeaseOp, task_of, run_op, lock_op, knows_task, acquire-present, acquire-absent,
}

-- The rows of the table, one for each task, are the locks: what an operation answers, and the row
-- that it leaves for its task, are the lock's.
abbrev pub Simulates : LeaseOp → Timestamp → Db → Result Bool × Db → Type 0
Simulates op now db r =
    (r.0 ≡ ok (lock_op op now (get_lease db (task_of op))).0)
    × (get_lease r.1 (task_of op) ≡ (lock_op op now (get_lease db (task_of op))).1)
    × ((s : EntityId) → (task_of op == s) ≡ false → get_lease r.1 s ≡ get_lease db s)

lease_task : (db : Db) (t : EntityId) (l : TaskLease) → get_lease db t ≡ some l → l.task_id ≡ t
unfolding get_lease
lease_task db t l h = (eq_iff l.task_id t).0 (find-true (is_lease_of t) db.leases l h)

abbrev is_expired : Timestamp → TaskLease → Bool
is_expired now l = ltb l.expires_at now

abbrev is_holder : String → TaskLease → Bool
is_holder holder l = l.holder == holder

acquire-answer :
    (t : EntityId) (h : String) (ttl : ℤ) (now : Timestamp) (o : Option TaskLease)
    → is_some o ≡ true
    → nat_eq (one_if (is_expired now) o) 1 ≡ (lock_op (LeaseOp.acquire t h ttl) now o).0
acquire-answer t h ttl now none k = ground arith
acquire-answer t h ttl now (some l) k = ground (arith, Bool-cases (ltb l.expires_at now))

overwrite-fresh :
    (t : EntityId) (h : String) (ttl : ℤ) (now : Timestamp) (l : TaskLease)
    → l.task_id ≡ t
    → overwrite h ttl now l ≡ fresh_lease t h ttl now
overwrite-fresh t h ttl now l k = ap (λ i. fresh_lease i h ttl now) k

acquire-row :
    (t : EntityId) (h : String) (ttl : ℤ) (now : Timestamp) (o : Option TaskLease)
    → is_some o ≡ true
    → ((l : TaskLease) → o ≡ some l → l.task_id ≡ t)
    → change_if (is_expired now) (overwrite h ttl now) o
      ≡ (lock_op (LeaseOp.acquire t h ttl) now o).1
acquire-row t h ttl now none k of_task = ground arith
acquire-row t h ttl now (some l) k of_task =
    ground
      (arith, Bool-cases (ltb l.expires_at now), overwrite-fresh t h ttl now l (of_task l refl))

heartbeat-answer :
    (t : EntityId) (h : String) (ttl : ℤ) (now : Timestamp) (o : Option TaskLease)
    → nat_eq (one_if (is_holder h) o) 1 ≡ (lock_op (LeaseOp.heartbeat t h ttl) now o).0
heartbeat-answer t h ttl now none = refl
heartbeat-answer t h ttl now (some l) = ground (arith, Bool-cases (l.holder == h))

heartbeat-row :
    (t : EntityId) (h : String) (ttl : ℤ) (now : Timestamp) (o : Option TaskLease)
    → change_if (is_holder h) (refresh ttl now) o ≡ (lock_op (LeaseOp.heartbeat t h ttl) now o).1
heartbeat-row t h ttl now none = refl
heartbeat-row t h ttl now (some l) = ground (arith, Bool-cases (l.holder == h))

release-answer :
    (t : EntityId) (h : String) (now : Timestamp) (o : Option TaskLease)
    → nat_eq (one_if (is_holder h) o) 1 ≡ (lock_op (LeaseOp.release t h) now o).0
release-answer t h now none = refl
release-answer t h now (some l) = ground (arith, Bool-cases (l.holder == h))

release-row :
    (t : EntityId) (h : String) (now : Timestamp) (o : Option TaskLease)
    → drop_if (is_holder h) o ≡ (lock_op (LeaseOp.release t h) now o).1
release-row t h now none = refl
release-row t h now (some l) = ground (arith, Bool-cases (l.holder == h))

present : (b : Bool) (o : Option TaskLease) → b ≡ is_some o → b ≡ false → o ≡ none
present b none h k = refl
present b (some l) h k = ground arith

present_lease :
    (t : EntityId) (db : Db) → any (is_lease_of t) db.leases ≡ false → get_lease db t ≡ none
unfolding get_lease
present_lease t db k =
    present (any (is_lease_of t) db.leases) (find (is_lease_of t) db.leases)
      (any-find (is_lease_of t) db.leases) k

pub run_op-Simulates :
    (op : LeaseOp) (now : Timestamp) (db : Db)
    → OnePerTask db.leases
    → knows_task (task_of op) db ≡ true
    → Simulates op now db (run_op op now db)
unfolding get_lease heartbeat_lease release_lease
run_op-Simulates (LeaseOp.acquire t h ttl) now db u known =
    elim (Bool-cases (any (is_lease_of t) db.leases)) [
      | inl k ↦
          let there = sym (any-find (is_lease_of t) db.leases) ∙ k in
          subst Good (sym (acquire-present t h ttl now db k)) (
            ap ok (
                ap (λ n. nat_eq n 1) (count-row t (is_expired now) db.leases u)
                ∙ acquire-answer t h ttl now (get_lease db t) there),
            find-change t (is_expired now) (overwrite h ttl now) db.leases (λ _. refl)
                ∙ acquire-row t h ttl now (get_lease db t) there (lease_task db t),
            λ s apart.
                find-change-other t (is_expired now) s (overwrite h ttl now) db.leases (λ _. refl)
                  apart,
          )
      | inr k ↦
          let gone = present_lease t db k in
          subst Good (sym (acquire-absent t h ttl now db k known)) (
            ap ok (sym (ap (λ o. (lock_op (LeaseOp.acquire t h ttl) now o).0) gone)),
            find-append-none (is_lease_of t) db.leases (fresh_lease t h ttl now) k
                ∙ (ap (λ b. if b then some (fresh_lease t h ttl now) else none) (eq_refl t)
                    ∙ sym (ap (λ o. (lock_op (LeaseOp.acquire t h ttl) now o).1) gone)),
            λ s apart. find-append-other (is_lease_of s) db.leases (fresh_lease t h ttl now) apart,
          )
    ]
  where
    Good : Result Bool × Db → Type 0
    Good = Simulates (LeaseOp.acquire t h ttl) now db
run_op-Simulates (LeaseOp.heartbeat t h ttl) now db u known = (
  ap ok (
      ap (λ n. nat_eq n 1) (count-row t (is_holder h) db.leases u)
      ∙ heartbeat-answer t h ttl now (get_lease db t)),
  find-change t (is_holder h) (refresh ttl now) db.leases (λ _. refl)
      ∙ heartbeat-row t h ttl now (get_lease db t),
  λ s apart. find-change-other t (is_holder h) s (refresh ttl now) db.leases (λ _. refl) apart,
)
run_op-Simulates (LeaseOp.release t h) now db u known = (
  ap ok (
      ap (λ n. nat_eq n 1) (count-row t (is_holder h) db.leases u)
      ∙ release-answer t h now (get_lease db t)),
  find-drop t (is_holder h) db.leases u ∙ release-row t h now (get_lease db t),
  λ s apart. find-drop-other t (is_holder h) s db.leases apart,
)
