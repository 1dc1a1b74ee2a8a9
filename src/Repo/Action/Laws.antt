-- ===== src/Repo/Action/Laws.antt =====
-- What the composition of statements keeps: reads change nothing, a transaction that fails changes nothing.
use sdi_plugin.Prelude.{◌≡◌, refl, ap, arith}
use sdi_plugin.Domain.Error.{DomainError, Result, ok, err}
use sdi_plugin.Repo.Db.{Db}
use sdi_plugin.Repo.Action.{Action, resume, ◌▹◌, ◌▸◌, settle, exec, query, commit, transaction}
use sdi_plugin.Prelude.{◌∙◌}

pub ▹-query-ok :
    {A B : Type 0} (f : Db → Result A) (k : A → Action B) (db db' : Db) (b : B)
    → (query f ▹ k) db ≡ (ok b, db')
    → (a : A) × (f db ≡ ok a) × (k a db ≡ (ok b, db'))
▹-query-ok f k db db' b h = after (f db) refl h
  where
    after :
        (r : Result _)
        → f db ≡ r
        → resume r k db ≡ (ok b, db')
        → (a : _) × (f db ≡ ok a) × (k a db ≡ (ok b, db'))
    after (ok a) p q = (a, p, q)
    after (err e) p q = ground arith

pub ▹-query-error :
    {A B : Type 0} (f : Db → Result A) (k : A → Action B) (db : Db) (e : DomainError)
    → ((a : A) → (k a db).0 ≡ err e → (k a db).1 ≡ db)
    → ((query f ▹ k) db).0 ≡ err e
    → ((query f ▹ k) db).1 ≡ db
▹-query-error f k db e ih h = after (f db) h
  where
    after : (r : Result _) → (resume r k db).0 ≡ err e → (resume r k db).1 ≡ db
    after (ok a) q = ih a q
    after (err e') q = refl

pub ▹-query-stop :
    {A B : Type 0} (f : Db → Result A) (k : A → Action B) (db : Db) (a : A)
    → f db ≡ ok a
    → (k a db).1 ≡ db
    → ((query f ▹ k) db).1 ≡ db
▹-query-stop f k db a h stop = ap (λ r. (resume r k db).1) h ∙ stop

pub ▸-query-error :
    {B : Type 0} (f : Db → Result (Unit {0})) (k : Action B) (db : Db) (e : DomainError)
    → f db ≡ err e
    → ((query f ▸ k) db).1 ≡ db
▸-query-error f k db e h = ap (λ r. (resume r (λ _. k) db).1) h

pub transaction-error :
    {A : Type 0} (m : Action A) (db : Db) (e : DomainError)
    → (transaction m db).0 ≡ err e
    → (transaction m db).1 ≡ db
transaction-error {A} m db e h = after (m db) h
  where
    after : (r : Result A × Db) → (commit db r).0 ≡ err e → (commit db r).1 ≡ db
    after (ok a, db') q = ground arith
    after (err _, db') q = refl

pub transaction-ok :
    {A : Type 0} (m : Action A) (db db' : Db) (a : A)
    → transaction m db ≡ (ok a, db')
    → m db ≡ (ok a, db')
transaction-ok {A} m db db' a h = after (m db) h
  where
    after : (r : Result A × Db) → commit db r ≡ (ok a, db') → r ≡ (ok a, db')
    after (ok b, db'') q = q
    after (err _, db'') q = ground arith

-- A statement and what follows it.
pub exec-▸-ok :
    {B : Type 0} (f : Db → Result Db) (k : Action B) (db db' : Db) (b : B)
    → (exec f ▸ k) db ≡ (ok b, db')
    → (mid : Db) × (f db ≡ ok mid) × (k mid ≡ (ok b, db'))
exec-▸-ok f k db db' b h = after (f db) refl h
  where
    after :
        (r : Result Db)
        → f db ≡ r
        → resume (settle r db).0 (λ _. k) (settle r db).1 ≡ (ok b, db')
        → (mid : Db) × (f db ≡ ok mid) × (k mid ≡ (ok b, db'))
    after (ok mid) p q = (mid, p, q)
    after (err e) p q = ground arith

-- Statements and what follows them.
pub ▸-ok :
    {B : Type 0} (m : Action (Unit {0})) (k : Action B) (db db' : Db) (b : B)
    → (m ▸ k) db ≡ (ok b, db')
    → (mid : Db) × (m db ≡ (ok tt, mid)) × (k mid ≡ (ok b, db'))
▸-ok m k db db' b h = after (m db) refl h
  where
    after :
        (r : Result (Unit {0}) × Db)
        → m db ≡ r
        → resume r.0 (λ _. k) r.1 ≡ (ok b, db')
        → (mid : Db) × (m db ≡ (ok tt, mid)) × (k mid ≡ (ok b, db'))
    after (ok _, mid) p q = (mid, p, q)
    after (err e, mid) p q = ground arith

pub query-ok :
    {A : Type 0} (f : Db → Result A) (db db' : Db) (a : A)
    → query f db ≡ (ok a, db')
    → (f db ≡ ok a) × (db ≡ db')
query-ok f db db' a h = (ap (λ p. p.0) h, ap (λ p. p.1) h)

pub ▹-ok :
    {A B : Type 0} (m : Action A) (k : A → Action B) (db db' : Db) (b : B)
    → (m ▹ k) db ≡ (ok b, db')
    → (a : A) × (mid : Db) × (m db ≡ (ok a, mid)) × (k a mid ≡ (ok b, db'))
▹-ok m k db db' b h = after (m db) refl h
  where
    after :
        (r : Result _ × Db)
        → m db ≡ r
        → resume r.0 k r.1 ≡ (ok b, db')
        → (a : _) × (mid : Db) × (m db ≡ (ok a, mid)) × (k a mid ≡ (ok b, db'))
    after (ok a, mid) e q = (a, mid, e, q)
    after (err _, mid) e q = ground arith

-- As above, for a read whose answer matters to what follows.
pub ▹-query-error-of :
    {A B : Type 0} (f : Db → Result A) (k : A → Action B) (db : Db) (e : DomainError)
    → ((a : A) → f db ≡ ok a → (k a db).0 ≡ err e → (k a db).1 ≡ db)
    → ((query f ▹ k) db).0 ≡ err e
    → ((query f ▹ k) db).1 ≡ db
▹-query-error-of f k db e ih h = after (f db) refl h
  where
    after : (r : Result _) → f db ≡ r → (resume r k db).0 ≡ err e → (resume r k db).1 ≡ db
    after (ok a) g q = ih a g q
    after (err _) g q = refl

-- A statement, and then what cannot fail once it went through.
pub exec-▸-error :
    {B : Type 0} (f : Db → Result Db) (k : Action B) (db : Db) (e : DomainError)
    → ((mid : Db) → f db ≡ ok mid → (k mid).0 ≡ err e → ⊥)
    → ((exec f ▸ k) db).0 ≡ err e
    → ((exec f ▸ k) db).1 ≡ db
exec-▸-error f k db e sure h = after (f db) refl h
  where
    after :
        (r : Result Db)
        → f db ≡ r
        → (resume (settle r db).0 (λ _. k) (settle r db).1).0 ≡ err e
        → (resume (settle r db).0 (λ _. k) (settle r db).1).1 ≡ db
    after (ok mid) g q = absurd (sure mid g q)
    after (err _) g q = refl
