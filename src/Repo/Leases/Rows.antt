-- ===== src/Repo/Leases/Rows.antt =====
-- crates/db/src/repo/run.rs: what the lease statements do to a table with one row for each task.
use sdi_plugin.Prelude.{
  ℕ, ◌≡◌, refl, ap, Bool, true, false, not, ◌&&◌, Option, none, some, List, [], ◌∷◌, ◌++◌, arith,
  ◌==◌, eq_iff, if◌then◌else◌, any, select, find, update, count, Bool-cases,
}
use sdi_plugin.Domain.Ids.{EntityId}
use sdi_plugin.Prelude.{◌∙◌}
use sdi_plugin.Domain.Run.{TaskLease}
use sdi_plugin.Repo.Leases.{is_lease_of}
use sdi_plugin.Prelude.Updates.{any-update}
use sdi_plugin.Prelude.{or-eq-false}

-- The primary key of the table.
abbrev pub OnePerTask : List TaskLease → Type 0
OnePerTask [] = Unit
OnePerTask (l ∷ ls) = (any (is_lease_of l.task_id) ls ≡ false) × OnePerTask ls

abbrev pub one_if : (TaskLease → Bool) → Option TaskLease → ℕ
one_if q none = 0
one_if q (some l) = if q l then 1 else 0

abbrev pub change_if :
    (TaskLease → Bool) → (TaskLease → TaskLease) → Option TaskLease → Option TaskLease
change_if q f none = none
change_if q f (some l) = some (if q l then f l else l)

abbrev pub drop_if : (TaskLease → Bool) → Option TaskLease → Option TaskLease
drop_if q none = none
drop_if q (some l) = if q l then none else some l

any-select-not :
    (k p : TaskLease → Bool) (ls : List TaskLease)
    → any k ls ≡ false
    → any k (select (λ l. not (p l)) ls) ≡ false
any-select-not k p [] h = refl
any-select-not k p (l ∷ ls) h = ground (arith, Bool-cases (p l), any-select-not k p ls)

module _ (t : EntityId) (q : TaskLease → Bool) where
  abbrev pub row : TaskLease → Bool
  row l = is_lease_of t l && q l

  abbrev pub no_row : TaskLease → Bool
  no_row l = not (is_lease_of t l && q l)

  count-none : (ls : List TaskLease) → any (is_lease_of t) ls ≡ false → count row ls ≡ 0
  count-none [] h = refl
  count-none (l ∷ ls) h = ground (arith, count-none ls)

  find-none :
      (ls : List TaskLease) → any (is_lease_of t) ls ≡ false → find (is_lease_of t) ls ≡ none
  find-none [] h = refl
  find-none (l ∷ ls) h = ground (arith, find-none ls)

  pub count-row :
      (ls : List TaskLease) → OnePerTask ls → count row ls ≡ one_if q (find (is_lease_of t) ls)
  count-row [] u = refl
  count-row (l ∷ ls) (u, us) = ground (arith, eq_iff l.task_id t, count-row ls us, count-none ls)

  pub find-drop :
      (ls : List TaskLease)
      → OnePerTask ls
      → find (is_lease_of t) (select no_row ls) ≡ drop_if q (find (is_lease_of t) ls)
  find-drop [] u = refl
  find-drop (l ∷ ls) (u, us) = ground (
    arith,
    Bool-cases (q l),
    eq_iff l.task_id t,
    find-drop ls us,
    any-select-not (is_lease_of t) row ls,
    find-none (select no_row ls),
  )

  pub find-change :
      (f : TaskLease → TaskLease) (ls : List TaskLease)
      → ((l : TaskLease) → (f l).task_id ≡ l.task_id)
      → find (is_lease_of t) (update row f ls) ≡ change_if q f (find (is_lease_of t) ls)
  find-change f [] keeps = refl
  find-change f (l ∷ ls) keeps = ground (arith, Bool-cases (q l), keeps l, find-change f ls keeps)

  pub find-drop-other :
      (s : EntityId) (ls : List TaskLease)
      → (t == s) ≡ false
      → find (is_lease_of s) (select no_row ls) ≡ find (is_lease_of s) ls
  find-drop-other s [] h = refl
  find-drop-other s (l ∷ ls) h = ground (
    arith,
    Bool-cases (q l),
    eq_iff l.task_id t,
    eq_iff l.task_id s,
    eq_iff t s,
    find-drop-other s ls h,
  )

  pub find-change-other :
      (s : EntityId) (f : TaskLease → TaskLease) (ls : List TaskLease)
      → ((l : TaskLease) → (f l).task_id ≡ l.task_id)
      → (t == s) ≡ false
      → find (is_lease_of s) (update row f ls) ≡ find (is_lease_of s) ls
  find-change-other s f [] keeps h = refl
  find-change-other s f (l ∷ ls) keeps h = ground (
    arith,
    Bool-cases (q l),
    keeps l,
    eq_iff l.task_id t,
    eq_iff l.task_id s,
    eq_iff t s,
    find-change-other s f ls keeps h,
  )

any-update-row :
    (s : EntityId) (p : TaskLease → Bool) (f : TaskLease → TaskLease) (ls : List TaskLease)
    → ((l : TaskLease) → (f l).task_id ≡ l.task_id)
    → any (is_lease_of s) (update p f ls) ≡ any (is_lease_of s) ls
any-update-row s p f ls keeps =
    any-update (is_lease_of s) p f ls (λ l _. ap (λ i. i == s) (keeps l))

pub update-OnePerTask :
    (p : TaskLease → Bool) (f : TaskLease → TaskLease) (ls : List TaskLease)
    → ((l : TaskLease) → (f l).task_id ≡ l.task_id)
    → OnePerTask ls
    → OnePerTask (update p f ls)
update-OnePerTask p f [] keeps u = tt
update-OnePerTask p f (l ∷ ls) keeps (u, us) = (
  ap (λ i. any (is_lease_of i) (update p f ls)) (head (p l))
      ∙ (any-update-row l.task_id p f ls keeps ∙ u),
  update-OnePerTask p f ls keeps us,
)
  where
    head : (b : Bool) → (if b then f l else l).task_id ≡ l.task_id
    head true = keeps l
    head false = refl

pub select-OnePerTask :
    (p : TaskLease → Bool) (ls : List TaskLease)
    → OnePerTask ls
    → OnePerTask (select (λ l. not (p l)) ls)
select-OnePerTask p [] u = tt
select-OnePerTask p (l ∷ ls) (u, us) = head (p l) (select-OnePerTask p ls us)
  where
    head :
        (b : Bool)
        → OnePerTask (select (λ k. not (p k)) ls)
        → OnePerTask (if not b then l ∷ select (λ k. not (p k)) ls else select (λ k. not (p k)) ls)
    head true rest = rest
    head false rest = (any-select-not (is_lease_of l.task_id) p ls u, rest)

any-append-row :
    (k : TaskLease → Bool) (ls : List TaskLease) (l : TaskLease)
    → any k ls ≡ false
    → k l ≡ false
    → any k (ls ++ l ∷ []) ≡ false
any-append-row k [] l h g = ground arith
any-append-row k (m ∷ ls) l h g = ground (arith, any-append-row k ls l)

pub append-OnePerTask :
    (l : TaskLease) (ls : List TaskLease)
    → any (is_lease_of l.task_id) ls ≡ false
    → OnePerTask ls
    → OnePerTask (ls ++ l ∷ [])
append-OnePerTask l [] h u = (refl, tt)
append-OnePerTask l (m ∷ ls) h (u, us) =
    let (a, b) = or-eq-false _ _ h in
    (any-append-row (is_lease_of m.task_id) ls l u (apart a), append-OnePerTask l ls b us)
  where
    apart : (m.task_id == l.task_id) ≡ false → (l.task_id == m.task_id) ≡ false
    apart k = ground (arith, eq_iff m.task_id l.task_id, eq_iff l.task_id m.task_id)
