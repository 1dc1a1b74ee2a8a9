-- ===== src/Prelude/Text.antt =====
-- The methods of Rust's `str` that the program calls, over code points, and the printing of
-- numbers. `trim` and `split_whitespace` use the Unicode property White_Space.
use Prim.Native.Char.{Char, code}
use Prim.Native.String.{String, [], ◌∷◌}
use Prim.Native.String
use Prim.Native.Nat.{ℕ, zero, suc, ◌/◌, ◌%◌}
use native.Mathlib.Omega.{arith}
use mathlib.Core.Path.{◌≡◌, refl, ap, ◌∙◌}
use mathlib.Core.Bool.{Bool, true, false, ◌&&◌, ◌||◌}
use mathlib.Core.Option.{Option, none, some}
use sdi_plugin.Prelude.Int.{ℤ, pos, negsuc}
use sdi_plugin.Prelude.Tests.{leb, ltb, nat_eq, if◌then◌else◌}

infixr 66 ◌⧺◌
abbrev pub ◌⧺◌ : String → String → String
s ⧺ t = String.◌++◌ s t

abbrev pub between : ℕ → ℕ → ℕ → Bool
between lo hi n = leb lo n && leb n hi

abbrev pub is_whitespace : Char → Bool
is_whitespace c =
    between 9 13 (code c)
    || nat_eq (code c) 32
    || nat_eq (code c) 0x85
    || nat_eq (code c) 0xa0
    || nat_eq (code c) 0x1680
    || between 0x2000 0x200a (code c)
    || nat_eq (code c) 0x2028
    || nat_eq (code c) 0x2029
    || nat_eq (code c) 0x202f
    || nat_eq (code c) 0x205f
    || nat_eq (code c) 0x3000

-- `s.trim().is_empty()`
unfoldable pub is_blank : String → Bool
is_blank [] = true
is_blank (c ∷ s) = is_whitespace c && is_blank s

trim_start : String → String
trim_start [] = []
trim_start (c ∷ s) = let rest = trim_start s in if is_whitespace c then rest else c ∷ s

trim_end : String → String
trim_end [] = []
trim_end (c ∷ s) = if is_whitespace c && is_blank s then [] else c ∷ trim_end s

unfoldable pub trim : String → String
unfolding trim_start trim_end is_blank
trim s = trim_end (trim_start s)

abbrev pub str_is_empty : String → Bool
str_is_empty [] = true
str_is_empty (_ ∷ _) = false

-- `s.strip_prefix(p)`, the prefix first.
unfoldable pub strip_prefix : String → String → Option String
strip_prefix [] s = some s
strip_prefix (p ∷ ps) [] = none
strip_prefix (p ∷ ps) (c ∷ s) =
    let rest = strip_prefix ps s in if nat_eq (code p) (code c) then rest else none

starts_with_rest : Option String → Bool
starts_with_rest none = false
starts_with_rest (some _) = true

-- `s.starts_with(p)`, the prefix first.
unfoldable pub has_prefix : String → String → Bool
unfolding starts_with_rest strip_prefix
has_prefix p s = starts_with_rest (strip_prefix p s)

strip_prefix-append : (p t : String) → strip_prefix p (p ⧺ t) ≡ some t
unfolding strip_prefix
strip_prefix-append [] t = ap some (Prim.Native.String.append.nil t)
strip_prefix-append (c ∷ p) t =
    ap (strip_prefix (c ∷ p)) (Prim.Native.String.append.cons c p t)
    ∙ ground (arith, strip_prefix-append p t)

strip_prefix-both : (p q t : String) → strip_prefix (p ⧺ q) (p ⧺ t) ≡ strip_prefix q t
unfolding strip_prefix
strip_prefix-both [] q t =
    ap (λ r. strip_prefix r ([] ⧺ t)) (Prim.Native.String.append.nil q)
    ∙ ap (strip_prefix q) (Prim.Native.String.append.nil t)
strip_prefix-both (c ∷ p) q t =
    ap (λ r. strip_prefix r ((c ∷ p) ⧺ t)) (Prim.Native.String.append.cons c p q)
    ∙ (ap (strip_prefix (c ∷ (p ⧺ q))) (Prim.Native.String.append.cons c p t)
        ∙ ground (arith, strip_prefix-both p q t))

-- A common front does not matter.
pub has_prefix-both : (p q t : String) → has_prefix (p ⧺ q) (p ⧺ t) ≡ has_prefix q t
unfolding has_prefix
has_prefix-both p q t = ap starts_with_rest (strip_prefix-both p q t)

strip_prefix-longer : (p q t : String) → strip_prefix p ((p ⧺ q) ⧺ t) ≡ some (q ⧺ t)
unfolding strip_prefix
strip_prefix-longer [] q t = ap (λ r. some (r ⧺ t)) (Prim.Native.String.append.nil q)
strip_prefix-longer (c ∷ p) q t =
    ap (λ r. strip_prefix (c ∷ p) (r ⧺ t)) (Prim.Native.String.append.cons c p q)
    ∙ (ap (strip_prefix (c ∷ p)) (Prim.Native.String.append.cons c (p ⧺ q) t)
        ∙ ground (arith, strip_prefix-longer p q t))

-- A front of the front is a front.
pub has_prefix-longer : (p q t : String) → has_prefix p ((p ⧺ q) ⧺ t) ≡ true
unfolding has_prefix
has_prefix-longer p q t = ap starts_with_rest (strip_prefix-longer p q t)

pub has_prefix-append : (p t : String) → has_prefix p (p ⧺ t) ≡ true
unfolding has_prefix
has_prefix-append p t = ap starts_with_rest (strip_prefix-append p t)

-- `s.contains(p)`, the pattern first.
unfoldable pub contains : String → String → Bool
unfolding has_prefix
contains p [] = has_prefix p []
contains p (c ∷ s) = has_prefix p (c ∷ s) || contains p s

abbrev pub any_char : (Char → Bool) → String → Bool
any_char p [] = false
any_char p (c ∷ s) = p c || any_char p s

digit : ℕ → String
digit zero = "0"
digit (suc zero) = "1"
digit (suc (suc zero)) = "2"
digit (suc (suc (suc zero))) = "3"
digit (suc (suc (suc (suc zero)))) = "4"
digit (suc (suc (suc (suc (suc zero))))) = "5"
digit (suc (suc (suc (suc (suc (suc zero)))))) = "6"
digit (suc (suc (suc (suc (suc (suc (suc zero))))))) = "7"
digit (suc (suc (suc (suc (suc (suc (suc (suc zero)))))))) = "8"
digit _ = "9"

-- The decimal digits; `n + 1` rounds are enough, since `n / 10 < n`.
show_fuel : ℕ → ℕ → String
unfolding digit
show_fuel zero n = ""
show_fuel (suc f) n =
    let more = show_fuel f (n / 10) in if ltb n 10 then digit n else more ⧺ digit (n % 10)

unfoldable pub show_ℕ : ℕ → String
unfolding show_fuel
show_ℕ n = show_fuel (suc n) n

unfoldable pub show_ℤ : ℤ → String
unfolding show_ℕ
show_ℤ (pos n) = show_ℕ n
show_ℤ (negsuc n) = "-" ⧺ show_ℕ (suc n)

-- Printing a number takes all its digits.
show_test : show_ℤ (negsuc 1304) ≡ "-1305"
unfolding show_ℤ
show_test = refl

trim_test : trim "  a b\n " ≡ "a b"
unfolding trim
trim_test = refl
