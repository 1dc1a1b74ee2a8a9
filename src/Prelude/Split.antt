-- ===== src/Prelude/Split.antt =====
-- Splitting texts: `lines`, `split`, `split_whitespace`, `strip_suffix`, and the order of texts.
use Prim.Native.Char.{Char, code}
use Prim.Native.String.{String}
use mathlib.Core.Path.{◌≡◌, refl}
use mathlib.Core.Bool.{Bool, true, false, not}
use mathlib.Core.Option.{Option, none, some}
use mathlib.Core.List.{List, [], ◌∷◌}
use text.Mathlib.Text.{◌==◌}
use sdi_plugin.Prelude.Tests.{nat_eq, ltb, if◌then◌else◌}
use sdi_plugin.Prelude.Lists.{select}
use sdi_plugin.Prelude.Text.{is_whitespace, has_prefix, str_is_empty}

cons_head : Char → List String → List String
cons_head c [] = String.◌∷◌ c "" ∷ []
cons_head c (w ∷ ws) = String.◌∷◌ c w ∷ ws

-- `s.split(p)` for a test on characters: at least one piece.
unfoldable pub split_on : (Char → Bool) → String → List String
unfolding cons_head
split_on p String.[] = "" ∷ []
split_on p (String.◌∷◌ c s) = let rest = split_on p s in if p c then "" ∷ rest else cons_head c rest

-- `s.split_whitespace()`
unfoldable pub split_whitespace : String → List String
unfolding split_on
split_whitespace s = select (λ w. not (str_is_empty w)) (split_on is_whitespace s)

map_cons : Char → Option String → Option String
map_cons c none = none
map_cons c (some s) = some (String.◌∷◌ c s)

-- `s.strip_suffix(p)`, the suffix first.
unfoldable pub strip_suffix : String → String → Option String
unfolding map_cons
strip_suffix p String.[] = if p == "" then some "" else none
strip_suffix p (String.◌∷◌ c s) =
    let shorter = map_cons c (strip_suffix p s) in if p == String.◌∷◌ c s then some "" else shorter

keep_or : String → Option String → String
keep_or s none = s
keep_or _ (some t) = t

-- The pieces between line feeds; the last one is a line only if it holds something, and only a
-- terminated line gives up a carriage return.
lines_of : List String → List String
unfolding keep_or strip_suffix
lines_of [] = []
lines_of (w ∷ []) = if str_is_empty w then [] else w ∷ []
lines_of (w ∷ v ∷ ws) = keep_or w (strip_suffix "\r" w) ∷ lines_of (v ∷ ws)

-- `s.lines()`
unfoldable pub lines : String → List String
unfolding lines_of split_on
lines s = lines_of (split_on (λ c. nat_eq (code c) 10) s)

-- `s.split(p).next()`: what stands before the first occurrence of a non-empty text.
unfoldable pub before : String → String → String
before p String.[] = ""
before p (String.◌∷◌ c s) =
    let rest = before p s in if has_prefix p (String.◌∷◌ c s) then "" else String.◌∷◌ c rest

-- The order of texts by their code points, which is the order of their UTF-8 bytes.
unfoldable pub text_le : String → String → Bool
text_le String.[] t = true
text_le (String.◌∷◌ c s) String.[] = false
text_le (String.◌∷◌ c s) (String.◌∷◌ d t) =
    let rest = text_le s t in
    if ltb (code c) (code d) then true else if nat_eq (code c) (code d) then rest else false

lines_test : lines "a\r\n\nb" ≡ "a" ∷ "" ∷ "b" ∷ []
unfolding lines
lines_test = refl

words_test : split_whitespace "  ab c " ≡ "ab" ∷ "c" ∷ []
unfolding split_whitespace
words_test = refl

suffix_test : strip_suffix "def" "abcdef" ≡ some "abc"
unfolding strip_suffix
suffix_test = refl
