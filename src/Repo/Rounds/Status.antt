-- ===== src/Repo/Rounds/Status.antt =====
-- crates/db/src/repo/round.rs: a change of status keeps the keys of `rounds`.
use sdi_plugin.Prelude.{
  ◌≡◌, refl, sym, ap, ◌⊎◌, inl, inr, Bool, true, false, ◌&&◌, ◌||◌, Option, none, some, List, [],
  ◌∷◌, arith, ◌==◌, eq_iff, eq_refl, if◌then◌else◌, nat_eq, any, find, update, All, Bool-cases,
}
use sdi_plugin.Domain.Error.{not_found, Result, ok, err, ◌>>=◌, ◌>>◌, refuse_if}
use sdi_plugin.Domain.Ids.{EntityId, Timestamp}
use sdi_plugin.Domain.Round.{Round}
use sdi_plugin.Repo.Db.{Db, RoundRow}
use sdi_plugin.Repo.Rounds
use sdi_plugin.Prelude.{or-eq-false}
use sdi_plugin.Domain.Results.{guard-ok, >>=-ok, ok-injective}
use sdi_plugin.Prelude.{◌∙◌}
use mathlib.Core.Path.{subst}
use sdi_plugin.Domain.Round.{RoundStatus}
use sdi_plugin.Repo.Rounds.Keys.{collide, AreKeyed, All-zip, none-any-and}
use sdi_plugin.Prelude.Updates.{find-true}
use sdi_plugin.Repo.Db.{unique_violation}

-- The row of an id is the only one with it.
abbrev OnlyRow : EntityId → RoundRow → RoundRow → Type 0
OnlyRow id r q = ((q.round.id == id) ≡ false) ⊎ (q ≡ r)

collide-parts :
    (x q : RoundRow)
    → collide x.round q.round ≡ false
    → ((q.round.id == x.round.id) ≡ false)
      × ((q.round.plan_id == x.round.plan_id && nat_eq q.round.round_number x.round.round_number)
          ≡ false)
      × ((q.round.plan_id == x.round.plan_id && q.round.short_code == x.round.short_code) ≡ false)
collide-parts x q h =
    let lanes =
      q.round.plan_id == x.round.plan_id
      && (Rounds.is_active_lane q.round && Rounds.is_active_lane x.round) in
    let codes = q.round.plan_id == x.round.plan_id && q.round.short_code == x.round.short_code in
    let numbers =
      q.round.plan_id == x.round.plan_id && nat_eq q.round.round_number x.round.round_number in
    let (a, h1) = or-eq-false (q.round.id == x.round.id) (numbers || (codes || lanes)) h in
    let (b, h2) = or-eq-false numbers (codes || lanes) h1 in (a, b, (or-eq-false codes lanes h2).0)

collide-ids :
    (x q : RoundRow) (id : EntityId)
    → collide x.round q.round ≡ false
    → (q.round.id == id) ≡ true
    → (x.round.id == id) ≡ false
collide-ids x q id h e =
    let apart = (collide-parts x q h).0 in
    ground
      (arith, apart, e, eq_iff q.round.id id, eq_iff x.round.id id, eq_iff q.round.id x.round.id)

others :
    (rows : List RoundRow) (id : EntityId) (r q : RoundRow)
    → (q.round.id == id) ≡ true
    → All (λ x. collide x.round q.round ≡ false) rows
    → All (OnlyRow id r) rows
others [] id r q e a = tt
others (x ∷ xs) id r q e a = (inl (collide-ids x q id a.0 e), others xs id r q e a.1)

first_row :
    (q r : RoundRow) (rest : Option RoundRow) (b : Bool)
    → (if b then some q else rest) ≡ some r
    → b ≡ true
    → q ≡ r
first_row q r rest true h e = content q r h
  where
    content : (c d : RoundRow) → some c ≡ some d → c ≡ d
    content c d p = ground arith
first_row q r rest false h e = ground arith

later_row :
    (q r : RoundRow) (rest : Option RoundRow) (b : Bool)
    → (if b then some q else rest) ≡ some r
    → b ≡ false
    → rest ≡ some r
later_row q r rest true h e = ground arith
later_row q r rest false h e = h

find-OnlyRow :
    (rows : List RoundRow) (id : EntityId) (r : RoundRow)
    → AreKeyed rows
    → find (λ q. q.round.id == id) rows ≡ some r
    → All (OnlyRow id r) rows
find-OnlyRow [] id r keyed h = tt
find-OnlyRow (q ∷ qs) id r keyed h = elim (Bool-cases (q.round.id == id)) [
  | inl e ↦ (
    inr (first_row q r (find (λ x. x.round.id == id) qs) (q.round.id == id) h e),
    others qs id r q e keyed.0,
  )
  | inr e ↦ (
    inl e,
    find-OnlyRow qs id r keyed.1
        (later_row q r (find (λ x. x.round.id == id) qs) (q.round.id == id) h e),
  )
]

module _ (status : RoundStatus) (activated_at completed_at : Option Timestamp)
    (now : Timestamp) where
  abbrev moved : Round → Round
  moved = Rounds.with_status status activated_at completed_at now

  abbrev touched : EntityId → RoundRow → RoundRow
  touched id q = if q.round.id == id then Rounds.on_round moved q else q

  collide-earlier :
      (x r : RoundRow)
      → collide x.round r.round ≡ false
      → (x.round.id == r.round.id) ≡ false
      → (Rounds.is_active_lane (moved r.round) && Rounds.is_rival r.round x) ≡ false
      → collide x.round (moved r.round) ≡ false
  collide-earlier x r h e n =
      let (a, b, c) = collide-parts x r h in
      ground (
        arith,
        a,
        b,
        c,
        e,
        n,
        eq_iff x.round.plan_id r.round.plan_id,
        eq_iff r.round.plan_id x.round.plan_id,
      )

  collide-later :
      (q r : RoundRow)
      → collide r.round q.round ≡ false
      → (q.round.id == r.round.id) ≡ false
      → (Rounds.is_active_lane (moved r.round) && Rounds.is_rival r.round q) ≡ false
      → collide (moved r.round) q.round ≡ false
  collide-later q r h e n = let (a, b, c) = collide-parts r q h in ground (arith, a, b, c, e, n)

  -- What a row is to the updated one: another row and no rival of it, or the row itself.
  abbrev Fits : EntityId → RoundRow → RoundRow → Type 0
  Fits id r q =
      OnlyRow id r q
      × ((Rounds.is_active_lane (moved r.round) && Rounds.is_rival r.round q) ≡ false)

  touched-apart :
      (id : EntityId) (r x q : RoundRow)
      → r.round.id ≡ id
      → collide x.round q.round ≡ false
      → Fits id r x
      → Fits id r q
      → collide (touched id x).round (touched id q).round ≡ false
  touched-apart id r x q own h (inl ex, _) (inl eq, _) =
      ap (λ b. collide (if b then Rounds.on_round moved x else x).round (touched id q).round) ex
      ∙ (ap (λ b. collide x.round (if b then Rounds.on_round moved q else q).round) eq ∙ h)
  touched-apart id r x q own h (inl ex, nx) (inr pq, _) =
      let own_row = (eq_iff r.round.id id).1 own in
      let for_r =
        ap (λ b. collide (if b then Rounds.on_round moved x else x).round (touched id r).round) ex
        ∙ (ap (λ b. collide x.round (if b then Rounds.on_round moved r else r).round) own_row
            ∙ collide-earlier x r (subst (λ y. collide x.round y.round ≡ false) pq h)
                (subst (λ i. (x.round.id == i) ≡ false) (sym own) ex) nx) in
      subst (λ y. collide (touched id x).round (touched id y).round ≡ false) (sym pq) for_r
  touched-apart id r x q own h (inr px, _) (inl eq, nq) =
      let own_row = (eq_iff r.round.id id).1 own in
      let for_r =
        ap (λ b. collide (touched id r).round (if b then Rounds.on_round moved q else q).round) eq
        ∙ (ap (λ b. collide (if b then Rounds.on_round moved r else r).round q.round) own_row
            ∙ collide-later q r (subst (λ y. collide y.round q.round ≡ false) px h)
                (subst (λ i. (q.round.id == i) ≡ false) (sym own) eq) nq) in
      subst (λ y. collide (touched id y).round (touched id q).round ≡ false) (sym px) for_r
  touched-apart id r x q own h (inr px, _) (inr pq, _) =
      let both =
        subst (λ y. collide r.round y.round ≡ false) pq
          (subst (λ y. collide y.round q.round ≡ false) px h) in
      ground (arith, (collide-parts r r both).0, eq_refl r.round.id)

  All-touched :
      (id : EntityId) (r q : RoundRow) (qs : List RoundRow)
      → r.round.id ≡ id
      → Fits id r q
      → All (Fits id r) qs
      → All (λ x. collide x.round q.round ≡ false) qs
      → All
          (λ x. collide x.round (touched id q).round ≡ false)
          (update (λ y. y.round.id == id) (Rounds.on_round moved) qs)
  All-touched id r q [] own fq fits apart = tt
  All-touched id r q (x ∷ xs) own fq fits apart =
      (touched-apart id r x q own apart.0 fits.0 fq, All-touched id r q xs own fq fits.1 apart.1)

  AreKeyed-update :
      (id : EntityId) (r : RoundRow) (rows : List RoundRow)
      → r.round.id ≡ id
      → All (Fits id r) rows
      → AreKeyed rows
      → AreKeyed (update (λ y. y.round.id == id) (Rounds.on_round moved) rows)
  AreKeyed-update id r [] own fits keyed = tt
  AreKeyed-update id r (q ∷ qs) own fits keyed =
      (All-touched id r q qs own fits.0 fits.1 keyed.0, AreKeyed-update id r qs own fits.1 keyed.1)

found_row :
    (o : Option RoundRow) (id : EntityId) (r : Round)
    → ((elim o as (λ _. Result RoundRow) [ none ↦ err (not_found id) | some q ↦ ok q ]) >>= λ q.
        ok q.round)
      ≡ ok r
    → (q : RoundRow) × (o ≡ some q) × (q.round ≡ r)
found_row none id r h = ground arith
found_row (some q) id r h = (q, refl, ok-injective q.round r h)

pub get-row :
    (db : Db) (id : EntityId) (r : Round)
    → Rounds.get db id ≡ ok r
    → (q : RoundRow) × (find (λ q. q.round.id == id) db.rounds ≡ some q) × (q.round ≡ r)
unfolding Rounds.get Rounds.find_row
get-row db id r h = found_row (find (λ q. q.round.id == id) db.rounds) id r h

-- A change of status keeps the keys: from a table in which no two rounds collide, it makes one of
-- the same kind; in particular no round becomes active beside another active one of its plan.
pub set_status-AreKeyed :
    (id : EntityId) (status : RoundStatus) (activated_at completed_at : Option Timestamp)
    (now : Timestamp) (db db' : Db)
    → AreKeyed db.rounds
    → Rounds.set_status id status activated_at completed_at now db ≡ ok db'
    → AreKeyed db'.rounds
unfolding Rounds.set_status
set_status-AreKeyed id status activated_at completed_at now db db' keyed h =
    let change = Rounds.with_status status activated_at completed_at now in
    let new : Db = record db {
      rounds = update (λ q. q.round.id == id) (Rounds.on_round change) db.rounds;
    } in
    let (r, got, h1) =
      >>=-ok (Rounds.get db id)
        (λ r.
          refuse_if (Rounds.is_active_lane (change r) && any (Rounds.is_rival r) db.rounds)
            (unique_violation "rounds" ("plan_id" ∷ []))
          >> ok new)
        db' h in
    let (free, h2) = guard-ok _ _ _ _ h1 in
    let (q, found, same) = get-row db id r got in
    let free_q =
      subst (λ x. (Rounds.is_active_lane (change x) && any (Rounds.is_rival x) db.rounds) ≡ false)
        (sym same) free in
    let rivals =
      none-any-and (Rounds.is_active_lane (change q.round)) (Rounds.is_rival q.round) db.rounds
        free_q in
    let only = find-OnlyRow db.rounds id q keyed found in
    let fits =
      All-zip (OnlyRow id q)
        (λ x. (Rounds.is_active_lane (change q.round) && Rounds.is_rival q.round x) ≡ false)
        (Fits status activated_at completed_at now id q) db.rounds (λ x a b. (a, b)) only rivals in
    let own = (eq_iff q.round.id id).0 (find-true (λ x. x.round.id == id) db.rounds q found) in
    subst (λ d. AreKeyed d.rounds) (ok-injective new db' h2)
      (AreKeyed-update status activated_at completed_at now id q db.rounds own fits keyed)
