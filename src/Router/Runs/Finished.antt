-- ===== src/Router/Runs/Finished.antt =====
-- crates/daemon/src/router/run.rs: a run that the finish handler ends, and what it books.
use sdi_plugin.Prelude.{
  String, ◌≡◌, refl, ap, Bool, true, false, not, ◌&&◌, Option, none, some, arith, if◌then◌else◌,
  is_some, is_none,
}
use sdi_plugin.Domain.Error.{DomainError, Result, ok, err}
use sdi_plugin.Domain.Ids.{EntityId, Timestamp}
use sdi_plugin.Repo.Db.{Db}
use sdi_plugin.Repo.Action.{◌▹◌, pure, query, transaction}
use sdi_plugin.Domain.Results.{guard-ok, >>=-ok, ok-injective}
use sdi_plugin.Prelude.{◌∙◌}
use mathlib.Core.Path.{subst}
use sdi_plugin.Domain.Run.{Run, RunResult}
use sdi_plugin.Repo.Runs.{get_run}
use sdi_plugin.Repo.Runs.Finish.{
  RunFinish, insert_run, list_runs_by_task, list_runs_by_session, list_runs_by_scenario,
}
use sdi_plugin.Repo.Runs.Finish
use sdi_plugin.Router.Runs.{Host, FinishRunBody, is_structured, assess}
use sdi_plugin.Router.Runs.Booking.{
  unfinished_run, finish_by, finish_plainly, finish_and_book, finish_run, write_plain, plain_result,
  without_budget,
}
use sdi_plugin.Repo.Runs.Finish.{close, close_structured, is_open_run}
use sdi_plugin.Repo.Runs.Frozen.{closed_in, get_run-closed}
use sdi_plugin.Repo.Action.Laws.{▹-query-error, ▹-query-error-of, exec-▸-error, transaction-error}
use sdi_plugin.Repo.Action.{resume}

unfinished-found :
    (db : Db) (id : EntityId) (r : Run)
    → unfinished_run db id ≡ ok r
    → (get_run db id ≡ ok r) × (is_some r.finished_at ≡ false)
unfinished-found db id r h =
    let (q, found, h1) = >>=-ok (get_run db id) _ r h in
    let (open_one, h2) = guard-ok _ _ _ _ h1 in
    let same = ok-injective q r h2 in
    (found ∙ ap ok same, subst (λ x. is_some x.finished_at ≡ false) same open_one)

none-of : {A : Type 0} (o : Option A) → is_some o ≡ false → is_none o ≡ true
none-of none h = refl
none-of (some a) h = ground arith

-- The plain end of a run: the row that was read is closed, and read again.
plain-written :
    (id : EntityId) (result : RunResult) (notes : Option String) (now : Timestamp) (db mid : Db)
    (r : Run)
    → get_run db id ≡ ok r
    → is_some r.finished_at ≡ false
    → Finish.finish_run id result notes now db ≡ ok mid
    → get_run mid id ≡ ok (close result notes now r)
unfolding Finish.finish_run
plain-written id result notes now db mid r found unfinished h =
    let (_, written) = guard-ok _ _ _ _ h in
    subst (λ d. get_run d id ≡ ok (close result notes now r))
      (ok-injective (closed_in id (close result notes now) db) mid written)
      (get_run-closed id (close result notes now) db r (λ _. refl) found
        (none-of r.finished_at unfinished))

read-fails :
    (r : Result Run) (q : Run) (db : Db) (e : DomainError)
    → r ≡ ok q
    → (resume r (λ x. pure (without_budget x)) db).0 ≡ err e
    → ⊥
read-fails (ok x) q db e h k = clash k
  where
    clash : {A : Type 0} {a : A} → ok a ≡ err e → ⊥
    clash k = ground arith
read-fails (err _) q db e h k = clash h
  where
    clash : {A : Type 0} {a : A} {d : DomainError} → err d ≡ ok a → ⊥
    clash k = ground arith

plain-atomic :
    (id : EntityId) (b : FinishRunBody) (now : Timestamp) (r : Run) (db : Db) (e : DomainError)
    → get_run db id ≡ ok r
    → is_some r.finished_at ≡ false
    → (finish_plainly id b now db).0 ≡ err e
    → (finish_plainly id b now db).1 ≡ db
unfolding finish_plainly
plain-atomic id b now r db e found unfinished h =
    ▹-query-error (λ _. plain_result b.result) (write_plain id b now) db e
      (λ result k.
        exec-▸-error (Finish.finish_run id result b.notes now)
          (query (λ d. get_run d id) ▹ λ x. pure (without_budget x)) db e
          (λ mid written q.
            read-fails (get_run mid id) (close result b.notes now r) mid e
              (plain-written id result b.notes now db mid r found unfinished written) q)
          k)
      h

by-error :
    (host : Host) (id : EntityId) (b : FinishRunBody) (now : Timestamp) (r : Run) (db : Db)
    (e : DomainError) (plainly : Bool)
    → get_run db id ≡ ok r
    → is_some r.finished_at ≡ false
    → ((if plainly
          then finish_plainly id b now
          else query (λ _. assess host r b) ▹ λ a. transaction (finish_and_book host id r a b now))
        db).0
      ≡ err e
    → ((if plainly
          then finish_plainly id b now
          else query (λ _. assess host r b) ▹ λ a. transaction (finish_and_book host id r a b now))
        db).1
      ≡ db
by-error host id b now r db e true found unfinished h =
    plain-atomic id b now r db e found unfinished h
by-error host id b now r db e false found unfinished h =
    ▹-query-error (λ _. assess host r b) (λ a. transaction (finish_and_book host id r a b now)) db e
      (λ a k. transaction-error (finish_and_book host id r a b now) db e k) h

-- If the finish handler answers an error, the run is as unfinished as it was, no failure is booked
-- and no other row changes.
pub finish_run-atomic :
    (host : Host) (id : EntityId) (b : FinishRunBody) (now : Timestamp) (db : Db) (e : DomainError)
    → (finish_run host id b now db).0 ≡ err e
    → (finish_run host id b now db).1 ≡ db
unfolding finish_run
finish_run-atomic host id b now db e h =
    ▹-query-error-of (λ d. unfinished_run d id) (finish_by host id b now) db e
      (λ r k q.
        let (found, unfinished) = unfinished-found db id r k in
        by-error host id b now r db e (not (is_structured b) && is_none r.command) found unfinished
          q)
      h
