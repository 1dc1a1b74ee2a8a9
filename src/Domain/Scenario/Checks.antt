-- ===== src/Domain/Scenario/Checks.antt =====
-- crates/core/src/scenario.rs: what the checks on a scenario accept.
use sdi_plugin.Prelude.{
  String, ◌≡◌, refl, ap, ◌↔◌, true, false, List, [], ◌∷◌, arith, All, Bool-cases,
}
use sdi_plugin.Prelude.Text.{is_blank, trim, any_char}
use sdi_plugin.Domain.Error.{Result, ok, err, ◌>>=◌, ◌>>◌, accept}
use sdi_plugin.Domain.Scenario.{
  Parsed, entries, unreadable, read_claims, validate_gwt, is_literal, check_claims,
  validate_claimed_resources,
}
use sdi_plugin.Domain.Results.{>>-ok, refuse_if-ok, not-false, ok-injective}
use sdi_plugin.Prelude.{◌∙◌}
use mathlib.Core.Path.{subst}

-- Given, When and Then are accepted exactly if none of them is blank.
pub validate_gwt_iff :
    (given when_clause then_clause : String)
    → (validate_gwt given when_clause then_clause ≡ accept)
      ↔ ((is_blank given ≡ false) × (is_blank when_clause ≡ false) × (is_blank then_clause ≡ false))
unfolding validate_gwt
validate_gwt_iff given when_clause then_clause = ground (
  arith,
  Bool-cases (is_blank given),
  Bool-cases (is_blank when_clause),
  Bool-cases (is_blank then_clause),
)

-- What a claimed resource has: text, and a character other than `*`, `?`, `/` and `.`.
abbrev pub IsClaim : String → Type 0
IsClaim entry = (is_blank entry ≡ false) × (any_char is_literal (trim entry) ≡ true)

check_claims-to : (es : List String) → check_claims es ≡ accept → All IsClaim es
unfolding check_claims
check_claims-to [] h = tt
check_claims-to (e ∷ es) h =
    let (blank, h1) = >>-ok _ _ _ h in
    let (literal, h2) = >>-ok _ _ _ h1 in
    ((refuse_if-ok _ _ blank, not-false _ (refuse_if-ok _ _ literal)), check_claims-to es h2)

check_claims-from : (es : List String) → All IsClaim es → check_claims es ≡ accept
unfolding check_claims
check_claims-from [] h = refl
check_claims-from (e ∷ es) h = ground (arith, check_claims-from es, h.0, h.1)

validate_parsed :
    (r : Result (List String)) (es : List String)
    → (r >>= λ parsed. check_claims parsed >> ok parsed) ≡ ok es
    → (r ≡ ok es) × All IsClaim es
validate_parsed (err e) es h = ground arith
validate_parsed (ok xs) es h =
    let (checked, same) = >>-ok (check_claims xs) (ok xs) es h in
    let p = ok-injective xs es same in (ap ok p, subst (All IsClaim) p (check_claims-to xs checked))

read_claims-ok : (r : Parsed) (es : List String) → read_claims r ≡ ok es → r ≡ entries es
read_claims-ok (entries xs) es h = ap entries (ok-injective xs es h)
read_claims-ok (unreadable e) es h = ground arith

-- The claimed resources of a text are accepted exactly if it parses as a list of them in which every
-- entry has text and a literal path component; the answer is that list.
pub validate_claimed_resources_iff :
    (from_json : String → Parsed) (s : String) (es : List String)
    → (validate_claimed_resources from_json s ≡ ok es)
      ↔ ((from_json s ≡ entries es) × All IsClaim es)
unfolding validate_claimed_resources
validate_claimed_resources_iff from_json s es = (
  λ h.
      let (read, claims) = validate_parsed (read_claims (from_json s)) es h in
      (read_claims-ok (from_json s) es read, claims),
  λ h.
      ap (λ r. read_claims r >>= λ parsed. check_claims parsed >> ok parsed) h.0
      ∙ ap (λ c. c >> ok es) (check_claims-from es h.1),
)
