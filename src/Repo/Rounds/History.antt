-- ===== src/Repo/Rounds/History.antt =====
-- crates/db/src/repo/round.rs: sequences of the statements that make and move rounds.
use sdi_plugin.Prelude.{◌≡◌, refl, Option, List, [], ◌∷◌}
use sdi_plugin.Domain.Error.{Result, ok, err}
use sdi_plugin.Domain.Ids.{EntityId, Timestamp}
use sdi_plugin.Domain.Round.{Round, RoundStatus}
use sdi_plugin.Repo.Db.{Db}
use sdi_plugin.Repo.Rounds
use sdi_plugin.Repo.Rounds.Keys.{AreKeyed, insert-AreKeyed}
use sdi_plugin.Repo.Rounds.Status.{set_status-AreKeyed}
use sdi_plugin.Repo.Rounds.Apart.{AreApart, AreKeyed-AreApart, AreApart-AreKeyed}

-- A statement on the table of rounds.
pub data Statement : Type 0 where
  make : Round → Statement
  move : EntityId → RoundStatus → Option Timestamp → Option Timestamp → Timestamp → Statement

abbrev pub execute : Statement → Db → Result Db
execute (Statement.make r) db = Rounds.insert r db
execute (Statement.move id status activated_at completed_at now) db =
    Rounds.set_status id status activated_at completed_at now db

abbrev pub kept_or : Db → Result Db → Db
kept_or db (ok db') = db'
kept_or db (err _) = db

-- The statements in sequence; one that fails changes nothing.
abbrev pub execute_all : List Statement → Db → Db
execute_all [] db = db
execute_all (s ∷ ss) db = execute_all ss (kept_or db (execute s db))

execute-AreKeyed :
    (s : Statement) (db : Db) (o : Result Db)
    → execute s db ≡ o
    → AreKeyed db.rounds
    → AreKeyed (kept_or db o).rounds
execute-AreKeyed s db (err _) h keyed = keyed
execute-AreKeyed (Statement.make r) db (ok db') h keyed = insert-AreKeyed r db db' keyed h
execute-AreKeyed (Statement.move id status activated_at completed_at now) db (ok db') h keyed =
    set_status-AreKeyed id status activated_at completed_at now db db' keyed h

execute_all-AreKeyed :
    (ss : List Statement) (db : Db) → AreKeyed db.rounds → AreKeyed (execute_all ss db).rounds
execute_all-AreKeyed [] db keyed = keyed
execute_all-AreKeyed (s ∷ ss) db keyed =
    execute_all-AreKeyed ss (kept_or db (execute s db))
      (execute-AreKeyed s db (execute s db) refl keyed)

-- Whatever sequence of insertions and changes of status is executed, those that fail included, if
-- every two rounds may stand together before, then they may after: ids are unique; in one plan the
-- numbers and the short codes are; and of two active rounds of one plan at least one is a chore.
pub execute_all-AreApart :
    (ss : List Statement) (db : Db) → AreApart db.rounds → AreApart (execute_all ss db).rounds
execute_all-AreApart ss db apart =
    AreKeyed-AreApart (execute_all ss db).rounds
      (execute_all-AreKeyed ss db (AreApart-AreKeyed db.rounds apart))
