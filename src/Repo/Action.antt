-- ===== src/Repo/Action.antt =====
-- Several statements on one connection. Each statement commits by itself, so what was written
-- before an error stays written; a transaction takes it back.
pub mod Laws
use sdi_plugin.Domain.Error.{Result, ok, err}
use sdi_plugin.Repo.Db.{Db}

abbrev pub Action : Type 0 → Type 0
Action A = Db → Result A × Db

infixl 5 ◌▹◌ ◌▸◌
abbrev pub resume : {A B : Type 0} → Result A → (A → Action B) → Action B
resume (ok a) f db = f a db
resume (err e) f db = (err e, db)

-- `let a = m?; f(a)`
abbrev pub ◌▹◌ : {A B : Type 0} → Action A → (A → Action B) → Action B
◌▹◌ m f db = resume (m db).0 f (m db).1

abbrev pub ◌▸◌ : {B : Type 0} → Action (Unit {0}) → Action B → Action B
m ▸ k = m ▹ λ _. k

abbrev pub pure : {A : Type 0} → A → Action A
pure a db = (ok a, db)

abbrev pub settle : Result Db → Db → Result (Unit {0}) × Db
settle (ok db') db = (ok tt, db')
settle (err e) db = (err e, db)

-- One writing statement.
abbrev pub exec : (Db → Result Db) → Action (Unit {0})
exec f db = settle (f db) db

-- A read, or a check of what was read.
abbrev pub query : {A : Type 0} → (Db → Result A) → Action A
query f db = (f db, db)

abbrev pub commit : {A : Type 0} → Db → Result A × Db → Result A × Db
commit db (ok a, db') = (ok a, db')
commit db (err e, db') = (err e, db)

abbrev pub transaction : {A : Type 0} → Action A → Action A
transaction m db = commit db (m db)
