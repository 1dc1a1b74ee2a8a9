-- ===== src/Domain/Verification/References.antt =====
-- crates/core/src/verification.rs: evidence references, caller signatures and failure classes.
use sdi_plugin.Prelude.{
  String, ◌≡◌, ◌↔◌, arith, refl, sym, ap, Bool, true, false, ◌||◌, ◌⊎◌, inl, inr, Option, none,
  some, if◌then◌else◌,
}
use sdi_plugin.Prelude.Text.{◌⧺◌, trim, has_prefix, str_is_empty, strip_prefix}
use sdi_plugin.Domain.Error.{validation, ok, ◌>>◌, refuse_if}
use sdi_plugin.Domain.Verification.{EvidenceRef, run, free, parse_stripped, caller_signature}
use sdi_plugin.Domain.Ids.{EntityId}
use sdi_plugin.Domain.Results.{guard-ok, ok-injective}

-- What the text of a reference is: `run:` and the id of a run, or free text.
abbrev pub NamesRun : String → EntityId → Type 0
NamesRun text id =
    (rest : String) × (strip_prefix "run:" (trim text) ≡ some rest) × (trim rest ≡ id)

abbrev pub IsFreeText : String → Type 0
IsFreeText text = strip_prefix "run:" (trim text) ≡ none

pub parse_stripped-read :
    (trimmed : String) (o : Option String) (e : EvidenceRef)
    → parse_stripped trimmed o ≡ ok e
    → ((o ≡ none) × (e ≡ free trimmed))
      ⊎ ((rest : String) × (o ≡ some rest) × (e ≡ run (trim rest)))
parse_stripped-read trimmed none e h = inl (refl, sym (ok-injective (free trimmed) e h))
parse_stripped-read trimmed (some id) e h =
    let (_, h1) = guard-ok _ _ _ _ h in inr (id, refl, sym (ok-injective (run (trim id)) e h1))

-- What a caller's text is recorded as: the text, trimmed, where it has one of the two prefixes
-- already, that of a computed signature included, and else the text behind `caller:`.
abbrev pub IsNamespaced : String → String → Type 0
IsNamespaced text signature =
    ((has_prefix "caller:" text || has_prefix "sig:" text) ≡ true) × (signature ≡ text)
    ⊎ ((has_prefix "caller:" text ≡ false)
        × (has_prefix "sig:" text ≡ false)
        × (signature ≡ "caller:" ⧺ text))

-- The branches, of the trimmed text and its tests.
namespaced_iff :
    (text signature : String) (blank caller computed : Bool)
    → ((refuse_if blank (validation "failure signature must not be empty")
          >> (if caller || computed then ok text else ok ("caller:" ⧺ text)))
        ≡ ok signature)
      ↔ ((blank ≡ false)
          × ((((caller || computed) ≡ true) × (signature ≡ text))
              ⊎ ((caller ≡ false) × (computed ≡ false) × (signature ≡ "caller:" ⧺ text))))
namespaced_iff text signature true caller computed =
    (λ h. ground (arith, h), λ h. ground (arith, h.0))
namespaced_iff text signature false true computed = (
  λ h. (refl, inl (refl, sym (ok-injective text signature h))),
  λ h. elim h.1 [ inl (_, e) ↦ ap ok (sym e) | inr (e, _, _) ↦ ground (arith, e) ],
)
namespaced_iff text signature false false true = (
  λ h. (refl, inl (refl, sym (ok-injective text signature h))),
  λ h. elim h.1 [ inl (_, e) ↦ ap ok (sym e) | inr (_, e, _) ↦ ground (arith, e) ],
)
namespaced_iff text signature false false false = (
  λ h. (refl, inr (refl, refl, sym (ok-injective ("caller:" ⧺ text) signature h))),
  λ h. elim h.1 [ inl (e, _) ↦ ground (arith, e) | inr (_, _, e) ↦ ap ok (sym e) ],
)

-- A caller's text is accepted exactly if it is not blank. It is recorded trimmed: as it stands if it
-- starts with `caller:` or with `sig:`, which is also the prefix of the signatures that the program
-- computes, and behind `caller:` otherwise.
pub caller_signature_iff :
    (raw signature : String)
    → (caller_signature raw ≡ ok signature)
      ↔ ((str_is_empty (trim raw) ≡ false) × IsNamespaced (trim raw) signature)
unfolding caller_signature
caller_signature_iff raw signature =
    namespaced_iff (trim raw) signature (str_is_empty (trim raw)) (has_prefix "caller:" (trim raw))
      (has_prefix "sig:" (trim raw))
