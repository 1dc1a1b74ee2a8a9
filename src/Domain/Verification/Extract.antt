-- ===== src/Domain/Verification/Extract.antt =====
-- crates/core/src/verification.rs: the readers of a report. `to_lowercase` is Unicode's, a
-- parameter; `in_repo_path` is the caller's map into the repository.
use sdi_plugin.Prelude.{
  String, Bool, true, false, not, ◌&&◌, ◌||◌, Option, none, some, List, [], ◌∷◌, ◌==◌,
  if◌then◌else◌, leb, nat_eq, or_else, first,
}
use sdi_plugin.Prelude.Text.{trim, strip_prefix, has_prefix, contains, any_char, str_is_empty}
use sdi_plugin.Prelude.Text.{is_whitespace}
use Prim.Native.Char.{Char, code}
use sdi_plugin.Prelude.Split.{split_on, split_whitespace, strip_suffix, lines, before, text_le}

abbrev pub and_then {ℓ κ} : {A : Type ℓ} {B : Type κ} → Option A → (A → Option B) → Option B
and_then none f = none
and_then (some a) f = f a

abbrev pub guarded : Bool → String → Option String
guarded true s = some s
guarded false s = none

abbrev pub cargo_name : String → Option String
cargo_name line =
    and_then (strip_prefix "test " line)
      λ rest. and_then (strip_suffix " ... FAILED" rest) λ name. some (trim name)

abbrev pub section_name : String → Option String
section_name line =
    and_then (strip_prefix "---- " line)
      λ rest. and_then (strip_suffix " stdout ----" rest) λ name. some (trim name)

abbrev pub go_name : String → Option String
go_name line = and_then (strip_prefix "--- FAIL: " line) λ rest. first (split_whitespace rest)

abbrev pub pytest_name : String → Option String
pytest_name line = and_then (strip_prefix "FAILED " line) λ rest.
    guarded
      (not (str_is_empty (trim (before " - " rest)))
        && not (has_prefix "(" (trim (before " - " rest))))
      (trim (before " - " rest))

abbrev pub jest_name : String → Option String
jest_name line = and_then (strip_prefix "● " line) λ rest.
    guarded (not (str_is_empty (trim rest)) && not (has_prefix "Console" (trim rest))) (trim rest)

-- The body of the loop over the lines: what a line pushes to `found`.
unfoldable pub failing_name : String → Option String
failing_name line = or_else (cargo_name line) (
    or_else (section_name line)
      (or_else (go_name line) (or_else (pytest_name line) (jest_name line))))

abbrev pub push_name : Option String → List String → List String
push_name none found = found
push_name (some name) found = name ∷ found

unfoldable pub found_names : List String → List String
found_names [] = []
found_names (raw ∷ rest) = push_name (failing_name (trim raw)) (found_names rest)

unfoldable pub insert_sorted : String → List String → List String
insert_sorted x [] = x ∷ []
insert_sorted x (y ∷ ys) =
    let later = insert_sorted x ys in if text_le x y then x ∷ y ∷ ys else y ∷ later

unfoldable pub sort : List String → List String
unfolding insert_sorted
sort [] = []
sort (x ∷ xs) = insert_sorted x (sort xs)

unfoldable pub dedup : List String → List String
dedup [] = []
dedup (x ∷ []) = x ∷ []
dedup (x ∷ y ∷ ys) = let rest = dedup (y ∷ ys) in if x == y then rest else x ∷ rest

unfoldable pub extract_failing_test : String → Option String
unfolding found_names failing_name sort dedup
extract_failing_test output = first (dedup (sort (found_names (lines output))))

-- `trim_start_matches(p)`; each round drops a prefix, so the text's own length is enough.
unfoldable pub trim_start_matches : String → String → String → String
trim_start_matches p String.[] s = s
trim_start_matches p (String.◌∷◌ _ fuel) s = elim (strip_prefix p s) [
  | none ↦ s
  | some rest ↦ trim_start_matches p fuel rest
]

abbrev pub cons_path : Char → Option (String × String) → Option (String × String)
cons_path c none = none
cons_path c (some (path, after)) = some (String.◌∷◌ c path, after)

-- `find(':')` and `split_at`: the text before the first colon and the text behind it.
unfoldable pub split_colon : String → Option (String × String)
split_colon String.[] = none
split_colon (String.◌∷◌ c s) =
    let rest = cons_path c (split_colon s) in if nat_eq (code c) b':' then some ("", s) else rest

abbrev pub is_digit : Char → Bool
is_digit c = leb b'0' (code c) && leb (code c) b'9'

abbrev pub starts_with_digit : String → Bool
starts_with_digit String.[] = false
starts_with_digit (String.◌∷◌ c s) = is_digit c

abbrev pub is_separator : Char → Bool
is_separator c = is_whitespace c || any_char (λ d. nat_eq (code d) (code c)) "()[]<>'\","

module _ (in_repo_path : String → Option String) where
  abbrev pub frame_of : Option (String × String) → Option String
  frame_of none = none
  frame_of (some (path, after)) =
      if str_is_empty path || not (starts_with_digit after)
      then none
      else if not (contains "/" path || contains "." path)
      then none
      else in_repo_path path

  unfoldable pub frame_in_tokens : List String → Option String
  unfolding trim_start_matches split_colon
  frame_in_tokens [] = none
  frame_in_tokens (token ∷ rest) =
      or_else (frame_of (split_colon (trim_start_matches "file://" token token)))
        (frame_in_tokens rest)

  abbrev pub frame_in_line : String → Option String → Option String
  frame_in_line line (some rest) =
      and_then (first (split_on (λ c. nat_eq (code c) 34) rest)) in_repo_path
  frame_in_line line none = frame_in_tokens (split_on is_separator line)

  unfoldable pub frame_in_lines : List String → Option String
  unfolding frame_in_tokens
  frame_in_lines [] = none
  frame_in_lines (raw ∷ rest) =
      or_else (frame_in_line (trim raw) (strip_prefix "File \"" (trim raw))) (frame_in_lines rest)

  unfoldable pub extract_top_frame : String → Option String
  unfolding frame_in_lines
  extract_top_frame output = frame_in_lines (lines output)
