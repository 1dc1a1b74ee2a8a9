-- ===== src/Domain/Wire/Law.antt =====
-- What `FromStr` and `Display` of an enum owe each other.
use sdi_plugin.Prelude.{String, ◌≡◌, ◌↔◌}
use sdi_plugin.Domain.Error.{Result, ok}

-- A text is read as `x` exactly if it is the text that `x` prints.
abbrev pub Wire : {A : Type 0} → (A → String) → (String → Result A) → Type 0
Wire {A} show parse = (s : String) (x : A) → (parse s ≡ ok x) ↔ (s ≡ show x)
