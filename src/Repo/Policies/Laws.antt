-- ===== src/Repo/Policies/Laws.antt =====
-- crates/db/src/repo/autonomy_policy.rs: the circuit breaker and the policies that `upsert` stores.
use sdi_plugin.Prelude.{
  String, ◌≡◌, refl, sym, Bool, true, false, Option, none, some, List, [], ◌∷◌, ◌++◌, arith, ◌==◌,
  eq_iff, if◌then◌else◌, any, update, All,
}
use sdi_plugin.Domain.Error.{ok, accept}
use sdi_plugin.Domain.Autonomy.{
  AutonomyPolicy, AutonomyScopeKind, autonomy_scope_kind_eq, validate_scope, AutonomyMode,
  validate_mode_against_kind,
}
use sdi_plugin.Prelude.Int.{pos}
use sdi_plugin.Prelude.{and-eq-true}
use sdi_plugin.Repo.Db.{Db}
use sdi_plugin.Repo.Policies
use sdi_plugin.Domain.Results.{guard-ok, >>-ok, not-false, ok-injective}
use mathlib.Core.Path.{subst}
use sdi_plugin.Prelude.{ℕ, ◌≤◌}
use sdi_plugin.Prelude.Int.{ℤ, negsuc}
use sdi_plugin.Domain.Results.{refuse_if-ok}

-- A number that is not negative and lies between the two bounds.
abbrev pub Within : ℕ → ℕ → ℤ → Type 0
Within low high (pos n) = (low ≤ n) × (n ≤ high)
Within low high (negsuc n) = ⊥

between-Within : (low high : ℕ) (n : ℤ) → Policies.between low high n ≡ true → Within low high n
between-Within low high (pos n) h = ground (arith, h)
between-Within low high (negsuc n) h = ground (arith, h)

-- What `upsert` grants a stored policy.
pub record IsSound (p : AutonomyPolicy) : Type 0 where
  pub retry_cap : Within 1 100 p.retry_budget_cap
  pub threshold : Within 0 10 p.l5_threshold
  pub depth : Within 1 10 p.pattern_depth_cap
  pub floor : validate_mode_against_kind p.scope_kind p.decision_kind p.mode ≡ accept

write-All :
    (P : AutonomyPolicy → Type 0) (p : AutonomyPolicy) (rows : List AutonomyPolicy)
    → P p
    → ((old : AutonomyPolicy) → Policies.same_scope p old ≡ true → P (Policies.overwrite p old))
    → All P rows
    → All P (update (Policies.same_scope p) (Policies.overwrite p) rows)
write-All P p [] h k all = tt
write-All P p (q ∷ qs) h k all = (head (Policies.same_scope p q) refl, write-All P p qs h k all.1)
  where
    head : (b : Bool) → Policies.same_scope p q ≡ b → P (if b then Policies.overwrite p q else q)
    head true e = k q e
    head false e = all.0

append-All :
    (P : AutonomyPolicy → Type 0) (p : AutonomyPolicy) (rows : List AutonomyPolicy)
    → P p
    → All P rows
    → All P (rows ++ p ∷ [])
append-All P p [] h all = (h, tt)
append-All P p (q ∷ qs) h all = (all.0, append-All P p qs h all.1)

floor-same :
    (kp ko : AutonomyScopeKind) (dp do_ : Option String) (mode : AutonomyMode)
    (plan_id pattern_kind : Option String)
    → autonomy_scope_kind_eq ko kp ≡ true
    → (Policies.coalesce do_ == Policies.coalesce dp) ≡ true
    → validate_scope kp plan_id dp pattern_kind ≡ accept
    → validate_mode_against_kind kp dp mode ≡ accept
    → validate_mode_against_kind ko do_ mode ≡ accept
unfolding validate_mode_against_kind validate_scope
floor-same kp AutonomyScopeKind.plan dp do_ mode a b same key scope h = refl
floor-same kp AutonomyScopeKind.pattern_kind dp do_ mode a b same key scope h = refl
floor-same kp AutonomyScopeKind.global dp do_ mode a b same key scope h = refl
floor-same kp AutonomyScopeKind.decision_kind dp none mode a b same key scope h = refl
floor-same AutonomyScopeKind.decision_kind AutonomyScopeKind.decision_kind (some k) (some j) mode a
      b same key scope h =
    subst
      (λ kind. validate_mode_against_kind AutonomyScopeKind.decision_kind (some kind) mode ≡ accept)
      (sym ((eq_iff j k).0 key)) h
floor-same AutonomyScopeKind.decision_kind AutonomyScopeKind.decision_kind none (some j) mode a b
      same key scope h =
    ground arith
floor-same AutonomyScopeKind.plan AutonomyScopeKind.decision_kind dp (some j) mode a b same key
      scope h =
    ground arith
floor-same AutonomyScopeKind.pattern_kind AutonomyScopeKind.decision_kind dp (some j) mode a b same
      key scope h =
    ground arith
floor-same AutonomyScopeKind.global AutonomyScopeKind.decision_kind dp (some j) mode a b same key
      scope h =
    ground arith

overwrite-IsSound :
    (p old : AutonomyPolicy)
    → IsSound p
    → validate_scope p.scope_kind p.plan_id p.decision_kind p.pattern_kind ≡ accept
    → Policies.same_scope p old ≡ true
    → IsSound (Policies.overwrite p old)
overwrite-IsSound p old h scope same =
    let (same1, _) = and-eq-true _ _ same in
    let (same2, keys) = and-eq-true _ _ same1 in
    let (same3, _) = and-eq-true _ _ same2 in
    let (_, kinds) = and-eq-true _ _ same3 in
    record {
      retry_cap = h.retry_cap;
      threshold = h.threshold;
      depth = h.depth;
      floor =
          floor-same p.scope_kind old.scope_kind p.decision_kind old.decision_kind p.mode p.plan_id
            p.pattern_kind kinds keys scope h.floor;
    }

write-IsSound :
    (p : AutonomyPolicy) (rows : List AutonomyPolicy)
    → IsSound p
    → validate_scope p.scope_kind p.plan_id p.decision_kind p.pattern_kind ≡ accept
    → All IsSound rows
    → All IsSound (Policies.write p rows)
write-IsSound p rows h scope all = either (any (Policies.same_scope p) rows)
  where
    either :
        (b : Bool)
        → All IsSound (
            if b
            then update (Policies.same_scope p) (Policies.overwrite p) rows
            else rows ++ p ∷ [])
    either true = write-All IsSound p rows h (λ old. overwrite-IsSound p old h scope) all
    either false = append-All IsSound p rows h all

check_columns-Within :
    (p : AutonomyPolicy)
    → Policies.check_columns p ≡ accept
    → Within 0 10 p.l5_threshold × Within 1 10 p.pattern_depth_cap
unfolding Policies.check_columns
check_columns-Within p h =
    let (_, h1) = >>-ok _ _ _ h in
    let (threshold, h2) = >>-ok _ _ _ h1 in
    (
      between-Within 0 10 p.l5_threshold (not-false _ (refuse_if-ok _ _ threshold)),
      between-Within 1 10 p.pattern_depth_cap (not-false _ (refuse_if-ok _ _ h2)),
    )

-- If every stored policy has a retry cap within 1..=100, an L5 threshold within 0..=10, a pattern
-- depth within 1..=10 and a mode that its decision kind allows, then so has every policy after
-- `upsert`, whichever row it writes.
pub upsert-IsSound :
    (p : AutonomyPolicy) (db db' : Db)
    → All IsSound db.policies
    → Policies.upsert p db ≡ ok db'
    → All IsSound db'.policies
unfolding Policies.upsert Policies.insert_or_update
upsert-IsSound p db db' all h =
    let (scope, h1) = >>-ok _ _ db' h in
    let (floor, h2) = >>-ok _ _ db' h1 in
    let (cap, h3) = guard-ok _ _ _ _ h2 in
    let (columns, h4) = >>-ok _ _ db' h3 in
    let (_, h5) = >>-ok _ _ db' h4 in
    let (threshold, depth) = check_columns-Within p columns in
    let sound : IsSound p = record {
      retry_cap = between-Within 1 100 p.retry_budget_cap (not-false _ cap);
      threshold = threshold;
      depth = depth;
      floor = floor;
    } in
    subst (λ d. All IsSound d.policies)
      (ok-injective (record db { policies = Policies.write p db.policies }) db' h5)
      (write-IsSound p db.policies sound scope all)
