-- ===== src/Repo/Rounds/Keys.antt =====
-- crates/db/src/repo/round.rs: the unique keys of `rounds`, one active round per plan among them.
use sdi_plugin.Prelude.{
  ◌≡◌, refl, Bool, true, false, not, ◌&&◌, ◌||◌, List, [], ◌∷◌, ◌++◌, arith, ◌==◌, nat_eq, any, All,
}
use sdi_plugin.Domain.Error.{ok}
use sdi_plugin.Domain.Round.{Round}
use sdi_plugin.Repo.Db.{Db, RoundRow}
use sdi_plugin.Repo.Rounds
use sdi_plugin.Prelude.{or-eq-false}
use sdi_plugin.Domain.Results.{guard-ok, ok-injective}
use mathlib.Core.Path.{subst}

-- Two rows that the keys of the table do not allow together: the primary key, the number and the
-- short code within a plan, and the index of one active round per plan.
abbrev pub collide : Round → Round → Bool
collide r q =
    q.id == r.id
    || ((q.plan_id == r.plan_id && nat_eq q.round_number r.round_number)
        || ((q.plan_id == r.plan_id && q.short_code == r.short_code)
            || (q.plan_id == r.plan_id && (Rounds.is_active_lane q && Rounds.is_active_lane r))))

-- No two rows collide.
abbrev pub AreKeyed : List RoundRow → Type 0
AreKeyed [] = Unit
AreKeyed (q ∷ qs) = All (λ x. collide x.round q.round ≡ false) qs × AreKeyed qs

none-any :
    (p : RoundRow → Bool) (rows : List RoundRow) → any p rows ≡ false → All (λ q. p q ≡ false) rows
none-any p [] h = tt
none-any p (q ∷ qs) h = let (a, b) = or-eq-false _ _ h in (a, none-any p qs b)

pub All-zip :
    (P Q R : RoundRow → Type 0) (rows : List RoundRow)
    → ((q : RoundRow) → P q → Q q → R q)
    → All P rows
    → All Q rows
    → All R rows
All-zip P Q R [] f a b = tt
All-zip P Q R (q ∷ qs) f a b = (f q a.0 b.0, All-zip P Q R qs f a.1 b.1)

All-append :
    (P : RoundRow → Type 0) (rows : List RoundRow) (q : RoundRow)
    → All P rows
    → P q
    → All P (rows ++ q ∷ [])
All-append P [] q a h = (h, tt)
All-append P (x ∷ xs) q a h = (a.0, All-append P xs q a.1 h)

AreKeyed-append :
    (rows : List RoundRow) (n : RoundRow)
    → AreKeyed rows
    → All (λ q. collide n.round q.round ≡ false) rows
    → AreKeyed (rows ++ n ∷ [])
AreKeyed-append [] n keyed apart = (tt, tt)
AreKeyed-append (q ∷ qs) n keyed apart = (
  All-append (λ x. collide x.round q.round ≡ false) qs n keyed.0 apart.0,
  AreKeyed-append qs n keyed.1 apart.1,
)

pub none-any-and :
    (b : Bool) (p : RoundRow → Bool) (rows : List RoundRow)
    → (b && any p rows) ≡ false
    → All (λ q. (b && p q) ≡ false) rows
none-any-and true p rows h = none-any p rows h
none-any-and false p [] h = tt
none-any-and false p (q ∷ qs) h = (refl, none-any-and false p qs refl)

abbrev NoId : Round → RoundRow → Type 0
NoId r q = (q.round.id == r.id) ≡ false

abbrev NoNumber : Round → RoundRow → Type 0
NoNumber r q = (q.round.plan_id == r.plan_id && nat_eq q.round.round_number r.round_number) ≡ false

abbrev NoCode : Round → RoundRow → Type 0
NoCode r q = (q.round.plan_id == r.plan_id && q.round.short_code == r.short_code) ≡ false

abbrev NoRival : Round → RoundRow → Type 0
NoRival r q = (Rounds.is_active_lane r && Rounds.is_rival r q) ≡ false

-- Booleans: the fourth disjunct of a collision is a rival.
apart-bools :
    (i n c p lr lq : Bool)
    → i ≡ false
    → n ≡ false
    → c ≡ false
    → (lr && (not i && p && lq)) ≡ false
    → (i || (n || (c || (p && (lq && lr))))) ≡ false
apart-bools false false false p lr lq a b c h = ground (arith, h)
apart-bools true n c p lr lq a b d h = ground arith
apart-bools false true c p lr lq a b d h = ground arith
apart-bools false false true p lr lq a b d h = ground arith

apart-row :
    (r : Round) (q : RoundRow)
    → NoId r q
    → NoNumber r q
    → NoCode r q
    → NoRival r q
    → collide r q.round ≡ false
apart-row r q a b c d =
    apart-bools (q.round.id == r.id)
      (q.round.plan_id == r.plan_id && nat_eq q.round.round_number r.round_number)
      (q.round.plan_id == r.plan_id && q.round.short_code == r.short_code)
      (q.round.plan_id == r.plan_id) (Rounds.is_active_lane r) (Rounds.is_active_lane q.round) a b c
      d

-- Insertion keeps the keys: from a table in which no two rounds collide, it makes one of the same
-- kind; in particular a plan never has two active rounds outside the chore lane.
pub insert-AreKeyed :
    (r : Round) (db db' : Db)
    → AreKeyed db.rounds
    → Rounds.insert r db ≡ ok db'
    → AreKeyed db'.rounds
unfolding Rounds.insert
insert-AreKeyed r db db' keyed h =
    let (id, h1) = guard-ok _ _ _ _ h in
    let (number, h2) = guard-ok _ _ _ _ h1 in
    let (code, h3) = guard-ok _ _ _ _ h2 in
    let (active, h4) = guard-ok _ _ _ _ h3 in
    let (_, h5) = guard-ok _ _ _ _ h4 in
    let ids = none-any (λ q. q.round.id == r.id) db.rounds id in
    let numbers =
      none-any (λ q. q.round.plan_id == r.plan_id && nat_eq q.round.round_number r.round_number)
        db.rounds number in
    let codes =
      none-any (λ q. q.round.plan_id == r.plan_id && q.round.short_code == r.short_code) db.rounds
        code in
    let rivals = none-any-and (Rounds.is_active_lane r) (Rounds.is_rival r) db.rounds active in
    let keys =
      All-zip (NoId r) (NoNumber r) (λ q. NoId r q × NoNumber r q) db.rounds (λ q a b. (a, b)) ids
        numbers in
    let lanes =
      All-zip (NoCode r) (NoRival r) (λ q. NoCode r q × NoRival r q) db.rounds (λ q a b. (a, b))
        codes rivals in
    let apart =
      All-zip (λ q. NoId r q × NoNumber r q) (λ q. NoCode r q × NoRival r q)
        (λ q. collide r q.round ≡ false) db.rounds (λ q a b. apart-row r q a.0 a.1 b.0 b.1) keys
        lanes in
    subst (λ d. AreKeyed d.rounds) (ok-injective _ db' h5) (AreKeyed-append db.rounds _ keyed apart)
