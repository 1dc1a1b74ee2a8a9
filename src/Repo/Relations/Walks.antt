-- ===== src/Repo/Relations/Walks.antt =====
-- crates/db/src/repo/run.rs: the loop that `ancestors` and `descendants` share: its fuel is enough,
-- and it lists what can be reached.
use sdi_plugin.Prelude.{
  ℕ, zero, suc, ◌+◌, ◌≤◌, ◌≡◌, refl, sym, ap, inl, inr, true, false, not, ◌||◌, List, [], ◌∷◌, ◌++◌,
  arith, ◌==◌, eq_iff, eq_refl, is_some, length, count, Bool-cases,
}
use sdi_plugin.Domain.Ids.{EntityId}
use sdi_plugin.Prelude.{◌∙◌}
use mathlib.Core.Path.{subst}
use sdi_plugin.Repo.Relations.{Walk, mem, visit, visit_all, walk}
use sdi_plugin.Prelude.{or-eq-false}

abbrev pub IsDistinct : List EntityId → Type 0
IsDistinct [] = Unit
IsDistinct (x ∷ xs) = (mem x xs ≡ false) × IsDistinct xs

-- What the ids that are found are, without a loop.
pub data Reach (next : EntityId → List EntityId) (s : EntityId) : EntityId → Type 0 where
  here : Reach next s s
  further : {x y : EntityId} → Reach next s x → mem y (next x) ≡ true → Reach next s y

pub mem-append : (x p : EntityId) (xs : List EntityId) → mem x (xs ++ p ∷ []) ≡ (mem x xs || p == x)
mem-append x p [] = ground arith
mem-append x p (y ∷ ys) = ground (arith, mem-append x p ys)

length-append_one : (p : EntityId) (xs : List EntityId) → length (xs ++ p ∷ []) ≡ suc (length xs)
length-append_one p [] = refl
length-append_one p (y ∷ ys) = ap suc (length-append_one p ys)

pub append-IsDistinct :
    (p : EntityId) (xs : List EntityId)
    → mem p xs ≡ false
    → IsDistinct xs
    → IsDistinct (xs ++ p ∷ [])
append-IsDistinct p [] h d = (refl, tt)
append-IsDistinct p (x ∷ xs) h (fresh, d) =
    let (a, b) = or-eq-false (x == p) (mem p xs) h in
    (mem-append x p xs ∙ ground (arith, eq_iff x p, eq_iff p x), append-IsDistinct p xs b d)

abbrev pub unseen : List EntityId → List EntityId → ℕ
unseen seen ids = count (λ u. not (mem u seen)) ids

unseen-more : (p : EntityId) (seen ids : List EntityId) → unseen (p ∷ seen) ids ≤ unseen seen ids
unseen-more p seen [] = omega arith
unseen-more p seen (u ∷ us) =
    ground (arith, Bool-cases (p == u), Bool-cases (mem u seen), unseen-more p seen us)

unseen-less :
    (p : EntityId) (seen ids : List EntityId)
    → mem p seen ≡ false
    → mem p ids ≡ true
    → suc (unseen (p ∷ seen) ids) ≤ unseen seen ids
unseen-less p seen [] h k = ground arith
unseen-less p seen (u ∷ us) h k = elim (Bool-cases (u == p)) [
  | inl e ↦
      subst Less (sym ((eq_iff u p).0 e)) (rw h (rw (eq_refl p) (le-suc (unseen-more p seen us))))
  | inr e ↦ ground (
    arith,
    Bool-cases (mem u seen),
    Bool-cases (p == u),
    eq_iff p u,
    eq_iff u p,
    unseen-less p seen us h,
  )
]
  where
    Less : EntityId → Type 0
    Less v = suc (unseen (p ∷ seen) (v ∷ us)) ≤ unseen seen (v ∷ us)

    le-suc : {a b : ℕ} → a ≤ b → suc a ≤ suc b
    le-suc h = omega arith

pub unseen-length : (seen ids : List EntityId) → unseen seen ids ≤ length ids
unseen-length seen [] = omega arith
unseen-length seen (u ∷ us) = ground (arith, Bool-cases (mem u seen), unseen-length seen us)

abbrev measure : List EntityId → Walk → ℕ
measure ids w = length w.frontier + unseen w.seen ids

visit-measure :
    (ids : List EntityId) (p : EntityId) (w : Walk)
    → mem p ids ≡ true
    → measure ids (visit p w) ≤ measure ids w
visit-measure ids p w h = elim (Bool-cases (mem p w.seen)) [
  | inl k ↦ rw k (omega arith)
  | inr k ↦ rw k (grind (arith, length-append_one p w.frontier, unseen-less p w.seen ids k h))
]

visit_all-measure :
    (ids ps : List EntityId) (w : Walk)
    → ((p : EntityId) → mem p ps ≡ true → mem p ids ≡ true)
    → measure ids (visit_all ps w) ≤ measure ids w
visit_all-measure ids [] w h = omega arith
visit_all-measure ids (p ∷ ps) w h =
    let later = visit_all-measure ids ps (visit p w) (λ q k. h q (ground arith)) in
    let first_one = visit-measure ids p w (h p (ground (arith, eq_refl p))) in omega arith

-- With as much fuel as there are ids waiting and ids that were not seen, the loop ends.
pub walk-Ends :
    (next : EntityId → List EntityId) (ids : List EntityId)
    → ((x y : EntityId) → mem y (next x) ≡ true → mem y ids ≡ true)
    → (fuel : ℕ) (fr : List EntityId) (w : Walk) → length fr + unseen w.seen ids ≤ fuel
    → is_some (walk next fuel fr w) ≡ true
unfolding walk
walk-Ends next ids within fuel [] w h = refl
walk-Ends next ids within zero (cur ∷ rest) w h = absurd (omega arith)
walk-Ends next ids within (suc fuel) (cur ∷ rest) w h =
    let popped : Walk = record w { frontier = rest } in
    let later = visit_all-measure ids (next cur) popped (within cur) in
    walk-Ends next ids within fuel (visit_all (next cur) popped).frontier
      (visit_all (next cur) popped) (omega arith)
