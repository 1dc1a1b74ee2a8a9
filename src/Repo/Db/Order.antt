-- ===== src/Repo/Db/Order.antt =====
-- `ORDER BY` keeps the rows: what is true of some row before is true of some row after.
use sdi_plugin.Prelude.{
  ◌≡◌, refl, ap, ◌↔◌, Bool, false, ◌&&◌, ◌||◌, List, [], ◌∷◌, ◌++◌, map, arith, any, select,
  Bool-cases,
}
use sdi_plugin.Repo.Db.{insert_by, order_by}
use sdi_plugin.Prelude.{◌∙◌}

module _ {ℓ} {A : Type ℓ} where
  any-insert_by :
      (p : A → Bool) (le : A → A → Bool) (x : A) (xs : List A)
      → any p (insert_by le x xs) ≡ (p x || any p xs)
  unfolding insert_by
  any-insert_by p le x [] = refl
  any-insert_by p le x (y ∷ ys) = ground (arith, Bool-cases (le x y), any-insert_by p le x ys)

  pub any-order_by :
      (p : A → Bool) (le : A → A → Bool) (xs : List A) → any p (order_by le xs) ≡ any p xs
  unfolding order_by
  any-order_by p le [] = refl
  any-order_by p le (x ∷ xs) =
      any-insert_by p le x (order_by le xs) ∙ ap (λ b. p x || b) (any-order_by p le xs)

  pub any-select : (p q : A → Bool) (xs : List A) → any p (select q xs) ≡ any (λ x. q x && p x) xs
  any-select p q [] = refl
  any-select p q (x ∷ xs) = ground (arith, Bool-cases (q x), any-select p q xs)

  pub select-empty : (p : A → Bool) (xs : List A) → (select p xs ≡ []) ↔ (any p xs ≡ false)
  select-empty p [] = (λ _. refl, λ _. refl)
  select-empty p (x ∷ xs) = ground (arith, Bool-cases (p x), select-empty p xs)

  pub any-append : (p : A → Bool) (xs ys : List A) → any p (xs ++ ys) ≡ (any p xs || any p ys)
  any-append p [] ys = refl
  any-append p (x ∷ xs) ys = ground (arith, any-append p xs ys)

module _ {ℓ κ} {A : Type ℓ} {B : Type κ} where
  pub any-map : (p : B → Bool) (f : A → B) (xs : List A) → any p (map f xs) ≡ any (λ x. p (f x)) xs
  any-map p f [] = refl
  any-map p f (x ∷ xs) = ap (λ b. p (f x) || b) (any-map p f xs)
