-- ===== src/Domain/Verification/Cause/Identity.antt =====
-- crates/core/src/verification/cause.rs: what the signature of a computed cause says.
use sdi_plugin.Prelude.{◌≡◌, true, ◌==◌, is_some, is_none}
use sdi_plugin.Prelude.Text.{has_prefix}
use sdi_plugin.Domain.Verification.Cause.{FailureCauseIdentity}

-- What the signature and the basis of an identity say of its diagnostic.
abbrev pub IsTelling : FailureCauseIdentity → Type 0
IsTelling c =
    (has_prefix "sig:v2:" c.signature ≡ true)
    × (has_prefix "sig:v2:fallback:" c.signature ≡ is_none c.diagnostic)
    × ((c.basis == "primary-diagnostic") ≡ is_some c.diagnostic)
