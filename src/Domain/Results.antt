-- ===== src/Domain/Results.antt =====
-- How a chain of checks that end in `?` answers: reading its success back.
use sdi_plugin.Prelude.{◌≡◌, refl, Bool, true, false, not, arith}
use sdi_plugin.Domain.Error.{DomainError, Result, ok, err, ◌>>=◌, ◌>>◌, accept, refuse_if}

pub >>=-ok {ℓ κ} :
    {A : Type ℓ} {B : Type κ} (m : Result A) (f : A → Result B) (b : B)
    → (m >>= f) ≡ ok b
    → (a : A) × (m ≡ ok a) × (f a ≡ ok b)
>>=-ok (ok a) f b h = (a, refl, h)
>>=-ok (err e) f b h = ground arith

pub refuse_if-ok : (b : Bool) (e : DomainError) → refuse_if b e ≡ accept → b ≡ false
refuse_if-ok false e h = refl
refuse_if-ok true e h = ground arith

pub >>-ok {ℓ} :
    {A : Type ℓ} (m : Result (Unit {0})) (k : Result A) (r : A)
    → (m >> k) ≡ ok r
    → (m ≡ accept) × (k ≡ ok r)
>>-ok (ok _) k r h = (refl, h)
>>-ok (err e) k r h = ground arith

-- A check that was passed, and what follows it.
pub guard-ok {ℓ} :
    {A : Type ℓ} (b : Bool) (e : DomainError) (k : Result A) (r : A)
    → (refuse_if b e >> k) ≡ ok r
    → (b ≡ false) × (k ≡ ok r)
guard-ok false e k r h = (refl, h)
guard-ok true e k r h = ground arith

pub not-false : (b : Bool) → not b ≡ false → b ≡ true
not-false b h = ground arith

pub not-true : (b : Bool) → not b ≡ true → b ≡ false
not-true b h = ground arith

pub ok-injective {ℓ} : {A : Type ℓ} (a b : A) → ok a ≡ ok b → a ≡ b
ok-injective a b h = ground arith
