-- ===== src/Domain/Pattern/Shape.antt =====
-- crates/core/src/pattern.rs: the manifests of a pattern and the shape gate of D26.
use sdi_plugin.Prelude.{
  ℕ, String, Bool, ◌&&◌, Option, none, some, List, [], ◌∷◌, ◌==◌, if◌then◌else◌, ltb, length, any,
}
use sdi_plugin.Prelude.Text.{◌⧺◌, show_ℕ}
use sdi_plugin.Domain.Error.{validation, Result, accept, refuse_if}
use sdi_plugin.Domain.Ids.{EntityId, Timestamp}
use sdi_plugin.Domain.Pattern.{PatternKind, AppliesTo, PatternLifecycle, Stance, stance_eq}

pub record PatternStep : Type 0 where
  pub idx : ℕ
  pub agent : String
  pub action : String

pub record Reviewer : Type 0 where
  pub name : String
  pub stance : Stance

pub record PeerLink : Type 0 where
  pub caller : String
  pub callee : String

pub record CollaborationPattern : Type 0 where
  pub id : EntityId
  pub short_code : String
  pub plan_id : EntityId
  pub kind : PatternKind
  pub applies_to : AppliesTo
  pub scope_id : String
  pub parent_pattern_id : Option EntityId
  pub depth : ℕ
  pub lifecycle : PatternLifecycle
  pub steps : Option (List PatternStep)
  pub reviewers : Option (List Reviewer)
  pub fan_out : Option (List String)
  pub peer_registration : Option (List PeerLink)
  pub decided_at : Option Timestamp
  pub decided_reason : Option String
  pub created_at : Timestamp
  pub updated_at : Timestamp

abbrev pub reviewer_eq : Reviewer → Reviewer → Bool
reviewer_eq a b = a.name == b.name && stance_eq a.stance b.stance

-- `HashSet::insert` over the tuples (name, stance), as a list without repetition.
abbrev pub insert_seen : Reviewer → List Reviewer → List Reviewer
insert_seen r seen = if any (reviewer_eq r) seen then seen else r ∷ seen

unfoldable pub collect_seen : List Reviewer → List Reviewer → List Reviewer
collect_seen seen [] = seen
collect_seen seen (r ∷ rs) = collect_seen (insert_seen r seen) rs

abbrev pub opt_length {ℓ} : {A : Type ℓ} → Option (List A) → ℕ
opt_length none = 0
opt_length (some xs) = length xs

abbrev pub opt_items {ℓ} : {A : Type ℓ} → Option (List A) → List A
opt_items none = []
opt_items (some xs) = xs

-- Refuse a size below the minimum, naming the size.
abbrev pub at_least : ℕ → ℕ → String → Result (Unit {0})
at_least min n what =
    refuse_if (ltb n min) (validation (what ⧺ (" required (got " ⧺ (show_ℕ n ⧺ ")"))))

unfoldable pub validate_pattern_shape :
    PatternKind
    → Option (List PatternStep)
    → Option (List Reviewer)
    → Option (List String)
    → Option (List PeerLink)
    → Result (Unit {0})
validate_pattern_shape PatternKind.workflow steps reviewers fan_out peers =
    at_least 2 (opt_length steps) "workflow shape gate: steps ≥ 2"
validate_pattern_shape PatternKind.graph steps reviewers fan_out peers =
    at_least 2 (length (collect_seen [] (opt_items reviewers)))
      "graph shape gate: distinct (name, stance) tuples ≥ 2"
validate_pattern_shape PatternKind.swarm steps reviewers fan_out peers =
    at_least 2 (opt_length fan_out) "swarm shape gate: fan_out ≥ 2"
validate_pattern_shape PatternKind.agents_as_tools steps reviewers fan_out peers =
    at_least 1 (opt_length peers) "agents-as-tools shape gate: peer registration ≥ 1"
validate_pattern_shape PatternKind.direct steps reviewers fan_out peers = accept
