-- ===== src/Domain/Verification/Cause/Normalize.antt =====
-- crates/core/src/verification/cause.rs: `normalize`, which takes the parts of a diagnostic that change
-- from run to run out of it.
use sdi_plugin.Prelude.{
  ℕ, suc, ◌+◌, ◌-◌, String, Bool, true, false, not, ◌&&◌, ◌||◌, Option, none, some, List, [], ◌∷◌,
  ◌==◌, if◌then◌else◌, ltb, nat_eq, is_some, length, any,
}
use sdi_plugin.Prelude.Text.{◌⧺◌, strip_prefix, has_prefix, contains, any_char, str_is_empty}
use Prim.Native.Char.{Char, code}
use sdi_plugin.Prelude.Text.{between}
use sdi_plugin.Prelude.Split.{split_on, split_whitespace, before}
use sdi_plugin.Prelude.{◌*◌}
use sdi_plugin.Domain.Verification.Extract.{is_digit}
use sdi_plugin.Domain.Verification.Cause.Texts.{
  is_one_of, all_char, text_length, drop_front, drop_back, behind, last_piece,
}

abbrev pub is_hexdigit : Char → Bool
is_hexdigit c = is_digit c || between b'a' b'f' (code c) || between b'A' b'F' (code c)

-- A dash at the places 8, 13, 18 and 23, and hexadecimal digits elsewhere.
abbrev pub uuid_from : ℕ → String → Bool
uuid_from i String.[] = true
uuid_from i (String.◌∷◌ c s) =
    (if nat_eq i 8 || nat_eq i 13 || nat_eq i 18 || nat_eq i 23
      then nat_eq (code c) b'-'
      else is_hexdigit c)
    && uuid_from (suc i) s

unfoldable pub is_uuid : String → Bool
is_uuid token = nat_eq (text_length token) 36 && uuid_from 0 token

unfoldable pub is_ulid : String → Bool
is_ulid token =
    nat_eq (text_length (last_piece b'-' token)) 26
    && all_char (is_one_of "0123456789ABCDEFGHJKMNPQRSTVWXYZ") (last_piece b'-' token)

unfoldable pub is_address_literal : String → Bool
is_address_literal token = elim (strip_prefix "0x" token) [
  | none ↦ false
  | some digits ↦ all_char is_hexdigit digits
]

-- The second byte is a colon, as in a drive.
abbrev pub has_drive : String → Bool
has_drive (String.◌∷◌ c (String.◌∷◌ d _)) = ltb (code c) 128 && nat_eq (code d) b':'
has_drive _ = false

abbrev pub number_of : ℕ → String → ℕ
number_of n String.[] = n
number_of n (String.◌∷◌ c s) = number_of (n * 10 + (code c - b'0')) s

abbrev pub is_byte_number : String → Bool
is_byte_number s = not (str_is_empty s) && all_char is_digit s && ltb (number_of 0 s) 256

-- `part.parse::<u8>().is_ok()`: a plus sign may stand before the digits.
unfoldable pub parses_as_u8 : String → Bool
parses_as_u8 s = elim (strip_prefix "+" s) [
  | none ↦ is_byte_number s
  | some digits ↦ is_byte_number digits
]

abbrev pub all_u8 : List String → Bool
all_u8 [] = true
all_u8 (p ∷ ps) = parses_as_u8 p && all_u8 ps

unfoldable pub is_ipv4 : String → Bool
unfolding parses_as_u8
is_ipv4 token =
    let parts = split_on (λ c. nat_eq (code c) b'.') (before ":" token) in
    nat_eq (length parts) 4 && all_u8 parts

abbrev pub value_of : String → Option String → String
value_of token none = token
value_of token (some value) = value

-- The word without its quotes and brackets, and without a name before `=`.
unfoldable pub token_of : String → String
token_of word =
    let bare =
      drop_back (is_one_of ".:")
        (drop_back (is_one_of "\"'`()[],;") (drop_front (is_one_of "\"'`()[],;") word)) in
    value_of bare (behind "=" bare)

abbrev pub starts_with_any : List String → String → Bool
starts_with_any [] s = false
starts_with_any (p ∷ ps) s = has_prefix p s || starts_with_any ps s

abbrev pub is_listed : List String → String → Bool
is_listed ws s = any (λ w. w == s) ws

unfoldable pub is_runtime_number : String → String → String → Bool
is_runtime_number previous word token =
    is_listed ("port" ∷ "line" ∷ "column" ∷ "pid" ∷ "duration" ∷ []) previous
    || starts_with_any ("port=" ∷ "pid=" ∷ "line=" ∷ "column=" ∷ []) word
    || contains "T" token && contains "-" token && contains ":" token

module _ (in_repo_path : String → Option String) where
  unfoldable pub normalize_word : String → String → String
  unfolding token_of is_uuid is_ulid is_address_literal is_ipv4 is_runtime_number
  normalize_word previous word =
      let token = token_of word in
      if is_uuid token || is_ulid token || is_address_literal token
      then "<id>"
      else if has_prefix "/" token
          || has_prefix "file://" token
          || has_prefix "\\" token
          || has_drive token
          || is_some (in_repo_path token)
      then "<path>"
      else if has_prefix "http://" token
          || has_prefix "https://" token
          || has_prefix "localhost:" token
          || is_ipv4 token
      then "<address>"
      else if not (starts_with_any ("'" ∷ "\"" ∷ "`" ∷ []) word)
          && is_runtime_number previous word token
          && any_char is_digit token
      then "<number>"
      else word

  -- Each word with the one before it.
  unfoldable pub normalize_from : String → List String → List String
  unfolding normalize_word
  normalize_from previous [] = []
  normalize_from previous (word ∷ words) =
      normalize_word (drop_back (is_one_of ":=") previous) word ∷ normalize_from word words

  abbrev pub join_words : List String → String
  join_words [] = ""
  join_words (w ∷ []) = w
  join_words (w ∷ v ∷ ws) = w ⧺ (" " ⧺ join_words (v ∷ ws))

  unfoldable pub normalize : String → String
  unfolding normalize_from
  normalize message = join_words (normalize_from "" (split_whitespace message))
