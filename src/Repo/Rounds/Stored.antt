-- ===== src/Repo/Rounds/Stored.antt =====
-- crates/db/src/repo/round.rs: what a change of status stores.
use sdi_plugin.Prelude.{◌≡◌, ap, ◌&&◌, Option, none, some, [], ◌∷◌, ◌==◌, any, update}
use sdi_plugin.Domain.Error.{not_found, Result, ok, err, ◌>>=◌, ◌>>◌, refuse_if}
use sdi_plugin.Domain.Ids.{EntityId, Timestamp}
use sdi_plugin.Domain.Round.{Round, RoundStatus}
use sdi_plugin.Domain.Results.{guard-ok, >>=-ok, ok-injective}
use sdi_plugin.Prelude.Updates.{find-update, map_some}
use sdi_plugin.Repo.Db.{Db, RoundRow, unique_violation}
use sdi_plugin.Repo.Rounds
use sdi_plugin.Repo.Rounds.Status.{get-row}
use sdi_plugin.Prelude.{◌∙◌}
use mathlib.Core.Path.{subst}

abbrev found : EntityId → Option RoundRow → Result Round
found id o =
    (elim o as (λ _. Result RoundRow) [ none ↦ err (not_found id) | some q ↦ ok q ]) >>= λ q.
    ok q.round

-- A change of status that succeeds: the round of that id is stored with the new status and times.
pub set_status-stored :
    (id : EntityId) (status : RoundStatus) (activated_at completed_at : Option Timestamp)
    (now : Timestamp) (db db' : Db) (r : Round)
    → Rounds.get db id ≡ ok r
    → Rounds.set_status id status activated_at completed_at now db ≡ ok db'
    → Rounds.get db' id ≡ ok (Rounds.with_status status activated_at completed_at now r)
unfolding Rounds.set_status Rounds.get Rounds.find_row
set_status-stored id status activated_at completed_at now db db' r got h =
    let change = Rounds.with_status status activated_at completed_at now in
    let test = λ (q : RoundRow). q.round.id == id in
    let new : Db = record db { rounds = update test (Rounds.on_round change) db.rounds } in
    let (s, _, h1) =
      >>=-ok (Rounds.get db id)
        (λ r.
          refuse_if (Rounds.is_active_lane (change r) && any (Rounds.is_rival r) db.rounds)
            (unique_violation "rounds" ("plan_id" ∷ []))
          >> ok new)
        db' h in
    let (_, h2) = guard-ok _ _ _ _ h1 in
    let (q, row, same) = get-row db id r got in
    let moved = find-update test (Rounds.on_round change) db.rounds (λ _ e. e) in
    subst (λ d. Rounds.get d id ≡ ok (change r)) (ok-injective new db' h2)
      (ap (found id) (moved ∙ ap (map_some (Rounds.on_round change)) row)
        ∙ ap (λ x. ok (change x)) same)
