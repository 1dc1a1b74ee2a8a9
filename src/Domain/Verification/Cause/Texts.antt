-- ===== src/Domain/Verification/Cause/Texts.antt =====
-- crates/core/src/verification/cause.rs: the methods of `str` that only this file calls, and the
-- removal of terminal escapes.
use sdi_plugin.Prelude.{
  ℕ, zero, suc, ◌-◌, String, Bool, true, false, not, ◌&&◌, Option, none, some, List, [], ◌∷◌,
  if◌then◌else◌, nat_eq,
}
use sdi_plugin.Prelude.Text.{strip_prefix, has_prefix, any_char, str_is_empty}
use Prim.Native.Char.{Char, code}
use sdi_plugin.Prelude.Text.{between}
use sdi_plugin.Prelude.Split.{split_on}

abbrev pub is_one_of : String → Char → Bool
is_one_of set c = any_char (λ d. nat_eq (code d) (code c)) set

abbrev pub all_char : (Char → Bool) → String → Bool
all_char p String.[] = true
all_char p (String.◌∷◌ c s) = p c && all_char p s

abbrev pub text_length : String → ℕ
text_length String.[] = 0
text_length (String.◌∷◌ _ s) = suc (text_length s)

-- `s.trim_start_matches(p)` for a test on characters.
abbrev pub drop_front : (Char → Bool) → String → String
drop_front p String.[] = ""
drop_front p (String.◌∷◌ c s) = let rest = drop_front p s in if p c then rest else String.◌∷◌ c s

-- `s.trim_end_matches(p)` for a test on characters.
abbrev pub drop_back : (Char → Bool) → String → String
drop_back p String.[] = ""
drop_back p (String.◌∷◌ c s) =
    let rest = drop_back p s in if p c && str_is_empty rest then "" else String.◌∷◌ c rest

-- `&s[s.find(p)?..]`
abbrev pub from : String → String → Option String
from p String.[] = none
from p (String.◌∷◌ c s) =
    let later = from p s in if has_prefix p (String.◌∷◌ c s) then some (String.◌∷◌ c s) else later

-- What follows the first occurrence of a text: the second half of `s.split_once(p)?`.
abbrev pub behind : String → String → Option String
behind p String.[] = none
behind p (String.◌∷◌ c s) =
    let later = behind p s in
    elim (strip_prefix p (String.◌∷◌ c s)) [ none ↦ later | some rest ↦ some rest ]

-- What follows the last occurrence of a character: `s.rsplit(c).next()`.
abbrev pub last_piece : ℕ → String → String
last_piece k s = last_of (split_on (λ c. nat_eq (code c) k) s)
  where
    last_of : List String → String
    last_of [] = ""
    last_of (w ∷ []) = w
    last_of (_ ∷ v ∷ ws) = last_of (v ∷ ws)

abbrev letters : String
letters = "abcdefghijklmnopqrstuvwxyz"

abbrev letter_at : ℕ → String → Char → Char
letter_at n String.[] c = c
letter_at zero (String.◌∷◌ l _) c = l
letter_at (suc n) (String.◌∷◌ _ ls) c = letter_at n ls c

abbrev to_lower : Char → Char
to_lower c = if between b'A' b'Z' (code c) then letter_at (code c - b'A') letters c else c

unfoldable pub to_ascii_lowercase : String → String
to_ascii_lowercase String.[] = ""
to_ascii_lowercase (String.◌∷◌ c s) = String.◌∷◌ (to_lower c) (to_ascii_lowercase s)

-- The loop over the characters, inside a control sequence or not.
unfoldable pub strip_from : Bool → String → String
strip_from inside String.[] = ""
strip_from true (String.◌∷◌ c s) = strip_from (not (between b'@' b'~' (code c))) s
strip_from false (String.◌∷◌ c String.[]) = String.◌∷◌ c ""
strip_from false (String.◌∷◌ c (String.◌∷◌ d s)) =
    let within = strip_from true s in
    let kept = String.◌∷◌ c (strip_from false (String.◌∷◌ d s)) in
    if nat_eq (code c) 27 && nat_eq (code d) b'[' then within else kept

unfoldable pub strip_ansi : String → String
unfolding strip_from
strip_ansi text = strip_from false text
