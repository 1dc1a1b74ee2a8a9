-- ===== src/Prelude/Updates.antt =====
-- What a look-up finds in a table after an update or an insertion.
use mathlib.Core.Path.{◌≡◌, refl, sym, ap, ◌∙◌}
use mathlib.Core.Bool.{Bool, true, false}
use mathlib.Core.Option.{Option, none, some}
use mathlib.Core.List.{List, [], ◌∷◌, ◌++◌}
use native.Mathlib.Omega.{arith}
use sdi_plugin.Prelude.Tests.{if◌then◌else◌, Bool-cases, is_some}
use sdi_plugin.Prelude.Lists.{any, find, update}

abbrev pub map_some {ℓ κ} : {A : Type ℓ} {B : Type κ} → (A → B) → Option A → Option B
map_some f none = none
map_some f (some a) = some (f a)

module _ {ℓ} {A : Type ℓ} where
  -- The rows that are looked for are the rows that are updated, and still answer the test.
  pub find-update :
      (p : A → Bool) (f : A → A) (xs : List A)
      → ((x : A) → p x ≡ true → p (f x) ≡ true)
      → find p (update p f xs) ≡ map_some f (find p xs)
  find-update p f [] keeps = refl
  find-update p f (x ∷ xs) keeps =
      ground (arith, Bool-cases (p x), keeps x, find-update p f xs keeps)

  -- The rows that are looked for are not among the updated ones.
  pub find-update-other :
      (q p : A → Bool) (f : A → A) (xs : List A)
      → ((x : A) → p x ≡ true → (q x ≡ false) × (q (f x) ≡ false))
      → find q (update p f xs) ≡ find q xs
  find-update-other q p f [] apart = refl
  find-update-other q p f (x ∷ xs) apart =
      ground (arith, Bool-cases (p x), apart x, find-update-other q p f xs apart)

  pub any-update :
      (q p : A → Bool) (f : A → A) (xs : List A)
      → ((x : A) → p x ≡ true → q (f x) ≡ q x)
      → any q (update p f xs) ≡ any q xs
  any-update q p f [] keeps = refl
  any-update q p f (x ∷ xs) keeps =
      ground (arith, Bool-cases (p x), keeps x, any-update q p f xs keeps)

  pub find-append-none :
      (p : A → Bool) (xs : List A) (y : A)
      → any p xs ≡ false
      → find p (xs ++ y ∷ []) ≡ (if p y then some y else none)
  find-append-none p [] y h = refl
  find-append-none p (x ∷ xs) y h = ground (arith, find-append-none p xs y)

  pub find-append-other :
      (p : A → Bool) (xs : List A) (y : A) → p y ≡ false → find p (xs ++ y ∷ []) ≡ find p xs
  find-append-other p [] y h = ground arith
  find-append-other p (x ∷ xs) y h = ground (arith, find-append-other p xs y h)

  pub any-find : (p : A → Bool) (xs : List A) → any p xs ≡ is_some (find p xs)
  any-find p [] = refl
  any-find p (x ∷ xs) = ground (arith, any-find p xs)

  found-true :
      (p : A → Bool) (y x : A) (rest : Option A) (b : Bool)
      → p y ≡ b
      → (rest ≡ some x → p x ≡ true)
      → (if b then some y else rest) ≡ some x
      → p x ≡ true
  found-true p y x rest true t later h = ap p (sym (same_content y x h)) ∙ t
    where
      same_content : (c d : A) → some c ≡ some d → c ≡ d
      same_content c d q = ground arith
  found-true p y x rest false t later h = later h

  pub find-true : (p : A → Bool) (xs : List A) (x : A) → find p xs ≡ some x → p x ≡ true
  find-true p [] x h = ground arith
  find-true p (y ∷ ys) x h = found-true p y x (find p ys) (p y) refl (find-true p ys x) h
