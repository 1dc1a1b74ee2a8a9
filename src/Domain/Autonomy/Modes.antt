-- ===== src/Domain/Autonomy/Modes.antt =====
-- crates/core/src/autonomy_policy.rs: the order of the modes, and the floor of a decision kind.
use sdi_plugin.Prelude.{
  String, ◌≡◌, refl, ◌↔◌, ◌⊎◌, inl, Bool, true, false, not, some, arith, if◌then◌else◌, leb,
  Bool-cases,
}
use sdi_plugin.Domain.Error.{autonomy_gate_blocked, accept, refuse_if}
use sdi_plugin.Domain.Autonomy.{
  AutonomyMode, AutonomyScopeKind, satisfies, effective_mode, rank, is_forced_l4, floor_for_kind,
  show_autonomy_mode, validate_mode_against_kind,
}

-- The effective mode is the strictest of the two: a mode is at least as strict as it exactly if it
-- is at least as strict as the mode of the plan and as the mode of the pattern.
pub effective_mode-meet :
    (a b c : AutonomyMode)
    → (satisfies c (effective_mode a b) ≡ true) ↔ ((satisfies c a ≡ true) × (satisfies c b ≡ true))
unfolding satisfies effective_mode
effective_mode-meet AutonomyMode.l3 AutonomyMode.l3 AutonomyMode.l3 = ground arith
effective_mode-meet AutonomyMode.l3 AutonomyMode.l3 AutonomyMode.l4 = ground arith
effective_mode-meet AutonomyMode.l3 AutonomyMode.l3 AutonomyMode.l5 = ground arith
effective_mode-meet AutonomyMode.l3 AutonomyMode.l4 AutonomyMode.l3 = ground arith
effective_mode-meet AutonomyMode.l3 AutonomyMode.l4 AutonomyMode.l4 = ground arith
effective_mode-meet AutonomyMode.l3 AutonomyMode.l4 AutonomyMode.l5 = ground arith
effective_mode-meet AutonomyMode.l3 AutonomyMode.l5 AutonomyMode.l3 = ground arith
effective_mode-meet AutonomyMode.l3 AutonomyMode.l5 AutonomyMode.l4 = ground arith
effective_mode-meet AutonomyMode.l3 AutonomyMode.l5 AutonomyMode.l5 = ground arith
effective_mode-meet AutonomyMode.l4 AutonomyMode.l3 AutonomyMode.l3 = ground arith
effective_mode-meet AutonomyMode.l4 AutonomyMode.l3 AutonomyMode.l4 = ground arith
effective_mode-meet AutonomyMode.l4 AutonomyMode.l3 AutonomyMode.l5 = ground arith
effective_mode-meet AutonomyMode.l4 AutonomyMode.l4 AutonomyMode.l3 = ground arith
effective_mode-meet AutonomyMode.l4 AutonomyMode.l4 AutonomyMode.l4 = ground arith
effective_mode-meet AutonomyMode.l4 AutonomyMode.l4 AutonomyMode.l5 = ground arith
effective_mode-meet AutonomyMode.l4 AutonomyMode.l5 AutonomyMode.l3 = ground arith
effective_mode-meet AutonomyMode.l4 AutonomyMode.l5 AutonomyMode.l4 = ground arith
effective_mode-meet AutonomyMode.l4 AutonomyMode.l5 AutonomyMode.l5 = ground arith
effective_mode-meet AutonomyMode.l5 AutonomyMode.l3 AutonomyMode.l3 = ground arith
effective_mode-meet AutonomyMode.l5 AutonomyMode.l3 AutonomyMode.l4 = ground arith
effective_mode-meet AutonomyMode.l5 AutonomyMode.l3 AutonomyMode.l5 = ground arith
effective_mode-meet AutonomyMode.l5 AutonomyMode.l4 AutonomyMode.l3 = ground arith
effective_mode-meet AutonomyMode.l5 AutonomyMode.l4 AutonomyMode.l4 = ground arith
effective_mode-meet AutonomyMode.l5 AutonomyMode.l4 AutonomyMode.l5 = ground arith
effective_mode-meet AutonomyMode.l5 AutonomyMode.l5 AutonomyMode.l3 = ground arith
effective_mode-meet AutonomyMode.l5 AutonomyMode.l5 AutonomyMode.l4 = ground arith
effective_mode-meet AutonomyMode.l5 AutonomyMode.l5 AutonomyMode.l5 = ground arith

-- A policy for a decision kind is accepted exactly in these modes: in L3 or L4 for the kinds
-- architecture, schema and naming-canonical, and in L3 alone for every other kind.
pub validate_mode_against_kind_iff :
    (kind : String) (mode : AutonomyMode)
    → (validate_mode_against_kind AutonomyScopeKind.decision_kind (some kind) mode ≡ accept)
      ↔ ((mode ≡ AutonomyMode.l3) ⊎ ((mode ≡ AutonomyMode.l4) × (is_forced_l4 kind ≡ true)))
unfolding validate_mode_against_kind satisfies floor_for_kind
validate_mode_against_kind_iff kind AutonomyMode.l3 =
    (λ h. inl refl, λ h. floor_l3 (is_forced_l4 kind))
  where
    floor_l3 :
        (b : Bool)
        → refuse_if (not (leb 0 (rank (if b then AutonomyMode.l4 else AutonomyMode.l3)))) (
            autonomy_gate_blocked kind
              (show_autonomy_mode (if b then AutonomyMode.l4 else AutonomyMode.l3))
              (show_autonomy_mode AutonomyMode.l3))
          ≡ accept
    floor_l3 true = refl
    floor_l3 false = refl
validate_mode_against_kind_iff kind AutonomyMode.l4 = ground (arith, Bool-cases (is_forced_l4 kind))
validate_mode_against_kind_iff kind AutonomyMode.l5 = ground (arith, Bool-cases (is_forced_l4 kind))
