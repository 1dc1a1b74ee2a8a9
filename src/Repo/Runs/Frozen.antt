-- ===== src/Repo/Runs/Frozen.antt =====
-- crates/db/src/repo/run.rs: a run is finished once.
use sdi_plugin.Prelude.{
  String, ◌≡◌, refl, ap, Bool, true, false, ◌&&◌, Option, none, some, List, [], ◌∷◌, arith, ◌==◌,
  is_some, is_none, find, update, Bool-cases,
}
use sdi_plugin.Domain.Error.{not_found, Result, ok, err}
use sdi_plugin.Domain.Ids.{EntityId, Timestamp}
use sdi_plugin.Domain.Results.{guard-ok, >>=-ok, ok-injective}
use mathlib.Core.Path.{subst}
use sdi_plugin.Repo.Db.{Db}
use sdi_plugin.Domain.Run.{Run, RunResult}
use sdi_plugin.Repo.Runs.{get_run}
use sdi_plugin.Repo.Runs.Finish.{
  is_open_run, RunFinish, finish_run, finish_structured, close, close_structured, required_result,
}
use sdi_plugin.Prelude.Updates.{find-true}

found_run :
    (o : Option Run) (id : EntityId) (r : Run)
    → elim o [ none ↦ err (not_found id) | some q ↦ ok q ] ≡ ok r
    → o ≡ some r
found_run none id r h = ground arith
found_run (some q) id r h = ap some (ok-injective q r h)

find-kept :
    (q p : Run → Bool) (f : Run → Run) (rows : List Run) (r : Run)
    → ((x : Run) → q (f x) ≡ q x)
    → find q rows ≡ some r
    → p r ≡ false
    → find q (update p f rows) ≡ some r
find-kept q p f [] r keeps h k = h
find-kept q p f (x ∷ rows) r keeps h k =
    ground (arith, Bool-cases (q x), Bool-cases (p x), keeps x, find-kept q p f rows r keeps)

-- The row that is looked up first, changed if the update is for it.
find-changed :
    (q p : Run → Bool) (f : Run → Run) (rows : List Run) (r : Run)
    → ((x : Run) → q (f x) ≡ q x)
    → find q rows ≡ some r
    → p r ≡ true
    → find q (update p f rows) ≡ some (f r)
find-changed q p f [] r keeps h k = ground arith
find-changed q p f (x ∷ rows) r keeps h k =
    ground (arith, Bool-cases (q x), Bool-cases (p x), keeps x, find-changed q p f rows r keeps)

abbrev pub by_id : EntityId → Run → Bool
by_id id r = r.id == id

get_run-find :
    (db : Db) (id : EntityId) (r : Run) → get_run db id ≡ ok r → find (by_id id) db.runs ≡ some r
unfolding get_run
get_run-find db id r h = found_run (find (by_id id) db.runs) id r h

find-get_run :
    (db : Db) (id : EntityId) (r : Run) → find (by_id id) db.runs ≡ some r → get_run db id ≡ ok r
unfolding get_run
find-get_run db id r h =
    ap (λ (o : Option Run). elim o [ none ↦ err (not_found id) | some q ↦ ok q ]) h

-- The two UPDATEs: the run of the id, if it is open.
abbrev pub closed_in : EntityId → (Run → Run) → Db → Db
closed_in id f db = record db { runs = update (is_open_run id) f db.runs }

update-frozen :
    (id other : EntityId) (f : Run → Run) (db : Db) (r : Run)
    → ((x : Run) → (f x).id ≡ x.id)
    → get_run db other ≡ ok r
    → is_some r.finished_at ≡ true
    → get_run (closed_in id f db) other ≡ ok r
update-frozen id other f db r keeps found finished = find-get_run (closed_in id f db) other r (
    find-kept (by_id other) (is_open_run id) f db.runs r (λ x. ap (λ i. i == other) (keeps x))
      (get_run-find db other r found) (not_open r.finished_at finished))
  where
    not_open : (o : Option Timestamp) → is_some o ≡ true → (r.id == id && is_none o) ≡ false
    not_open none h = ground arith
    not_open (some t) h = ground (arith, Bool-cases (r.id == id))

pub get_run-closed :
    (id : EntityId) (f : Run → Run) (db : Db) (r : Run)
    → ((x : Run) → (f x).id ≡ x.id)
    → get_run db id ≡ ok r
    → is_none r.finished_at ≡ true
    → get_run (closed_in id f db) id ≡ ok (f r)
get_run-closed id f db r keeps found unfinished = find-get_run (closed_in id f db) id (f r) (
    find-changed (by_id id) (is_open_run id) f db.runs r (λ x. ap (λ i. i == id) (keeps x))
      (get_run-find db id r found)
      (rw (find-true (by_id id) db.runs r (get_run-find db id r found)) unfinished))

pub finish_structured-written :
    (id : EntityId) (f : RunFinish) (now : Timestamp) (db db' : Db)
    → finish_structured id f now db ≡ ok db'
    → (result : RunResult) × (f.result ≡ some result)
      × (closed_in id (close_structured f result now) db ≡ db')
unfolding finish_structured
finish_structured-written id f now db db' h =
    let (result, given, h1) = >>=-ok (required_result f.result) _ db' h in
    let (_, h2) = guard-ok _ _ _ _ h1 in
    (result, has_result f.result result given, ok-injective _ db' h2)
  where
    has_result : (o : Option RunResult) (r : RunResult) → required_result o ≡ ok r → o ≡ some r
    has_result none r k = ground arith
    has_result (some q) r k = ap some (ok-injective q r k)

-- A later statement that ends a run: plainly, or with what was verified.
pub data Ending : Type 0 where
  plain : EntityId → RunResult → Option String → Ending
  structured : EntityId → RunFinish → Ending

abbrev pub end_run : Ending → Timestamp → Db → Result Db
end_run (Ending.plain id result notes) now db = finish_run id result notes now db
end_run (Ending.structured id f) now db = finish_structured id f now db

-- The statements in sequence; one that fails changes nothing.
abbrev pub kept_or : Db → Result Db → Db
kept_or db (ok db') = db'
kept_or db (err _) = db

abbrev pub end_runs : List (Ending × Timestamp) → Db → Db
end_runs [] db = db
end_runs ((e, now) ∷ es) db = end_runs es (kept_or db (end_run e now db))

after_end :
    (e : Ending) (now : Timestamp) (db : Db) (other : EntityId) (r : Run) (x : Result Db)
    → end_run e now db ≡ x
    → get_run db other ≡ ok r
    → is_some r.finished_at ≡ true
    → get_run (kept_or db x) other ≡ ok r
unfolding finish_run
after_end e now db other r (err _) h found finished = found
after_end (Ending.plain id result notes) now db other r (ok db') h found finished =
    let (_, written) = guard-ok _ _ _ _ h in
    subst (λ d. get_run d other ≡ ok r)
      (ok-injective (closed_in id (close result notes now) db) db' written)
      (update-frozen id other (close result notes now) db r (λ _. refl) found finished)
after_end (Ending.structured id f) now db other r (ok db') h found finished =
    let (result, _, written) = finish_structured-written id f now db db' h in
    subst (λ d. get_run d other ≡ ok r) written
      (update-frozen id other (close_structured f result now) db r (λ _. refl) found finished)

-- What a finished run holds stays: no sequence of further endings, of this run or of others,
-- changes a field of it.
pub end_runs-frozen :
    (es : List (Ending × Timestamp)) (db : Db) (id : EntityId) (r : Run)
    → get_run db id ≡ ok r
    → is_some r.finished_at ≡ true
    → get_run (end_runs es db) id ≡ ok r
end_runs-frozen [] db id r found finished = found
end_runs-frozen ((e, now) ∷ es) db id r found finished =
    end_runs-frozen es (kept_or db (end_run e now db)) id r
      (after_end e now db id r (end_run e now db) refl found finished) finished
