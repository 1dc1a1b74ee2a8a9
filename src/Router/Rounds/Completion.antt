-- ===== src/Router/Rounds/Completion.antt =====
-- crates/daemon/src/router/round.rs: what the completion of a round rests on.
use sdi_plugin.Prelude.{
  String, ◌≡◌, refl, ◌≢◌, ◌⊎◌, inl, inr, Bool, true, false, Option, none, some, arith,
}
use sdi_plugin.Domain.Error.{
  DomainError, disruption_pending, Result, ok, err, ◌>>=◌, ◌>>◌, accept, refuse_if,
}
use sdi_plugin.Domain.Ids.{EntityId, Timestamp}
use sdi_plugin.Repo.Db.{Db}
use sdi_plugin.Repo.Runs.{Workspace}
use sdi_plugin.Repo
use sdi_plugin.Domain
use sdi_plugin.Domain.Round.{Round, RoundStatus, round_status_eq}
use sdi_plugin.Router.Rounds
use sdi_plugin.Repo.Reviews.{has_pending}
use sdi_plugin.Router.Gates
use sdi_plugin.Repo.Action.{◌▸◌, exec, query}
use sdi_plugin.Repo.Action.Laws.{▹-query-ok, ▹-query-stop, ▸-query-error}
use sdi_plugin.Domain.Results.{>>-ok, >>=-ok, refuse_if-ok, not-false}
use sdi_plugin.Router.Gates.Blocked.{Blocking, gate-unblocked}
use sdi_plugin.Repo.Rounds.Stored.{set_status-stored}
use sdi_plugin.Repo.Action.Laws.{exec-▸-ok, query-ok}
use sdi_plugin.Prelude.{Has, sym, ◌∙◌}
use sdi_plugin.Domain.Results.{ok-injective}
use mathlib.Core.Path.{subst}

completed-ok :
    (round : Round)
    → Domain.Round.check_can_complete round ≡ accept
    → round.status ≡ RoundStatus.active
unfolding Domain.Round.check_can_complete
completed-ok round h = active round.status (not-false _ (refuse_if-ok _ _ h))
  where
    active :
        (s : RoundStatus) → round_status_eq s RoundStatus.active ≡ true → s ≡ RoundStatus.active
    active RoundStatus.active k = refl
    active RoundStatus.planning k = ground arith
    active RoundStatus.completed k = ground arith

abbrev checks : EntityId → Db → Result (Unit {0})
checks id db = Repo.Rounds.get db id >>= λ round.
    Domain.Round.check_can_complete round
    >> Gates.ensure_no_unresolved_infrastructure_failures db id

-- If a round is completed, then it was active, and no run blocks it: none that finished in the round
-- for a live scenario as a failure of the harness or the environment, and after which no run of the
-- scenario in the round finished. The answer is the round as it was, completed now, and it is stored.
pub complete-unblocked :
    (id : EntityId) (now : Timestamp) (db db' : Db) (r : Round)
    → Rounds.complete id now db ≡ (ok r, db')
    → (round : Round) × (Repo.Rounds.get db id ≡ ok round)
      × (round.status ≡ RoundStatus.active)
      × (¬ Has (Blocking db id) db.runs)
      × (r ≡ record round {
        status = RoundStatus.completed;
        completed_at = some now;
        updated_at = now;
      })
      × (Repo.Rounds.get db' id ≡ ok r)
unfolding Rounds.complete
complete-unblocked id now db db' r h =
    let (_, passed, h0) =
      ▹-query-ok (checks id)
        (λ _.
          exec (Repo.Rounds.set_status id RoundStatus.completed none (some now) now)
          ▸ query (λ d. Repo.Rounds.get d id))
        db db' r h in
    let (round, found, h1) =
      >>=-ok (Repo.Rounds.get db id)
        (λ round.
          Domain.Round.check_can_complete round
          >> Gates.ensure_no_unresolved_infrastructure_failures db id)
        tt passed in
    let (active, gate) =
      >>-ok (Domain.Round.check_can_complete round)
        (Gates.ensure_no_unresolved_infrastructure_failures db id) tt h1 in
    let (mid, written, h2) =
      exec-▸-ok (Repo.Rounds.set_status id RoundStatus.completed none (some now) now)
        (query (λ d. Repo.Rounds.get d id)) db db' r h0 in
    let (read, same) = query-ok (λ d. Repo.Rounds.get d id) mid db' r h2 in
    let stored =
      set_status-stored id RoundStatus.completed none (some now) now db mid round found written in
    (
      round,
      found,
      completed-ok round active,
      gate-unblocked db id gate,
      sym (ok-injective _ r (sym stored ∙ read)),
      subst (λ d. Repo.Rounds.get d id ≡ ok r) same read,
    )

can_activate-ok :
    (round : Round)
    → Domain.Round.check_can_activate round ≡ accept
    → round.status ≡ RoundStatus.planning
unfolding Domain.Round.check_can_activate
can_activate-ok round h = planning round.status (not-false _ (refuse_if-ok _ _ h))
  where
    planning :
        (s : RoundStatus) → round_status_eq s RoundStatus.planning ≡ true → s ≡ RoundStatus.planning
    planning RoundStatus.planning k = refl
    planning RoundStatus.active k = ground arith
    planning RoundStatus.completed k = ground arith

refused_check :
    (c : Result (Unit {0})) (pending : Bool)
    → (pending ≡ true) ⊎ (c ≢ accept)
    → (e : DomainError) × ((c >> refuse_if pending disruption_pending) ≡ err e)
refused_check (err e) b h = (e, refl)
refused_check (ok _) true h = (disruption_pending, refl)
refused_check (ok _) false (inl p) = ground arith
refused_check (ok _) false (inr n) = ex_falso (n refl)
  where
    ex_falso : ⊥ → (e : DomainError) × (accept ≡ err e)
    ex_falso x = ground arith

-- If a disruption review of the plan is pending, or the round is not in planning, then its activation
-- writes nothing.
pub activate-refused :
    (w : Workspace) (id : EntityId) (body head : Option String) (now : Timestamp) (db : Db)
    (round : Round)
    → Repo.Rounds.get db id ≡ ok round
    → (has_pending db round.plan_id ≡ true) ⊎ (round.status ≢ RoundStatus.planning)
    → (Rounds.activate w id body head now db).1 ≡ db
unfolding Rounds.activate
activate-refused w id body head now db round found refusal =
    let (e, refused) =
      refused_check (Domain.Round.check_can_activate round) (has_pending db round.plan_id)
        (elim refusal [ inl p ↦ inl p | inr n ↦ inr (λ k. n (can_activate-ok round k)) ]) in
    ▹-query-stop (λ d. Repo.Rounds.get d id) _ db round found
      (▸-query-error (λ d. Rounds.check_activation d round) _ db e refused)
