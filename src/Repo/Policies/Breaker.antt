-- ===== src/Repo/Policies/Breaker.antt =====
-- crates/db/src/repo/autonomy_policy.rs: what the circuit breaker changes.
use sdi_plugin.Prelude.{
  String, ◌≡◌, refl, sym, true, false, some, List, [], ◌∷◌, arith, ◌==◌, eq_iff, if◌then◌else◌,
  update, Bool-cases,
}
use sdi_plugin.Domain.Ids.{Timestamp}
use sdi_plugin.Domain.Autonomy.{AutonomyPolicy, AutonomyMode}
use sdi_plugin.Repo.Db.{Db}
use sdi_plugin.Repo.Policies
use mathlib.Core.Path.{subst}
use sdi_plugin.Prelude.{ℕ, suc, ◌≢◌, ◌⊎◌, inl, inr, count}
use sdi_plugin.Domain.Autonomy.{autonomy_mode_eq}

-- The policies before and after the circuit breaker, row by row, and how many changed: a policy of
-- the project that is not in L3 is moved to L3, and records the time, the actor and the reason; a
-- policy of another project, or one in L3, is what it was.
pub data Demotes (project_id actor reason : String) (at : Timestamp)
    : List AutonomyPolicy → List AutonomyPolicy → ℕ → Type 0 where
  done : Demotes project_id actor reason at [] [] 0
  moved :
      {p : AutonomyPolicy} {ps qs : List AutonomyPolicy} {n : ℕ}
      → p.project_id ≡ project_id
      → p.mode ≢ AutonomyMode.l3
      → Demotes project_id actor reason at ps qs n
      → Demotes project_id actor reason at
          (p ∷ ps)
          (record p {
            mode = AutonomyMode.l3;
            set_at = at;
            set_by = actor;
            reason = some reason;
            updated_at = at;
          }
            ∷ qs)
          (suc n)
  spared :
      {p : AutonomyPolicy} {ps qs : List AutonomyPolicy} {n : ℕ}
      → (p.project_id ≢ project_id) ⊎ (p.mode ≡ AutonomyMode.l3)
      → Demotes project_id actor reason at ps qs n
      → Demotes project_id actor reason at (p ∷ ps) (p ∷ qs) n

mode_cases :
    (m : AutonomyMode)
    → ((m ≡ AutonomyMode.l3) × (autonomy_mode_eq m AutonomyMode.l3 ≡ true))
      ⊎ ((m ≢ AutonomyMode.l3) × (autonomy_mode_eq m AutonomyMode.l3 ≡ false))
mode_cases AutonomyMode.l3 = inl (refl, refl)
mode_cases AutonomyMode.l4 = inr (ground arith, refl)
mode_cases AutonomyMode.l5 = inr (ground arith, refl)

-- The WHERE clause of the statement.
loose_cases :
    (project_id : String) (p : AutonomyPolicy)
    → ((Policies.is_loose project_id p ≡ true)
        × (p.project_id ≡ project_id)
        × (p.mode ≢ AutonomyMode.l3))
      ⊎ ((Policies.is_loose project_id p ≡ false)
          × ((p.project_id ≢ project_id) ⊎ (p.mode ≡ AutonomyMode.l3)))
loose_cases project_id p = elim (Bool-cases (p.project_id == project_id)) [
  | inr e ↦
      inr (
        ground (arith, e),
        inl (λ same. ground (arith, e, (eq_iff p.project_id project_id).1 same)),
      )
  | inl e ↦ elim (mode_cases p.mode) [
    | inl (strict, test) ↦ inr (ground (arith, e, test), inr strict)
    | inr (loose, test) ↦ inl (ground (arith, e, test), (eq_iff p.project_id project_id).0 e, loose)
  ]
]

update-Demotes :
    (project_id actor reason : String) (at : Timestamp) (ps : List AutonomyPolicy)
    → Demotes project_id actor reason at ps
        (update (Policies.is_loose project_id) (Policies.demote actor reason at) ps)
        (count (Policies.is_loose project_id) ps)
update-Demotes project_id actor reason at [] = done
update-Demotes project_id actor reason at (p ∷ ps) =
    let later = update (Policies.is_loose project_id) (Policies.demote actor reason at) ps in
    let number = count (Policies.is_loose project_id) ps in
    let rest = update-Demotes project_id actor reason at ps in
    elim (loose_cases project_id p) [
      | inl (test, own, loose) ↦
          subst
            (λ b.
              Demotes project_id actor reason at (p ∷ ps)
                ((if b then Policies.demote actor reason at p else p) ∷ later)
                (if b then suc number else number))
            (sym test) (moved own loose rest)
      | inr (test, why) ↦
          subst
            (λ b.
              Demotes project_id actor reason at (p ∷ ps)
                ((if b then Policies.demote actor reason at p else p) ∷ later)
                (if b then suc number else number))
            (sym test) (spared why rest)
    ]

-- The circuit breaker moves every policy of the project that is not in L3 to L3, with the time, the
-- actor and the reason; it changes no other policy, none of another project and no other table, and
-- answers the number of policies that it moved.
pub circuit_breaker-demotes :
    (project_id actor reason : String) (at : Timestamp) (db : Db)
    → Demotes project_id actor reason at db.policies
        (Policies.circuit_breaker project_id actor reason at db).0.policies
        (Policies.circuit_breaker project_id actor reason at db).1
      × ((Policies.circuit_breaker project_id actor reason at db).0 ≡ record db {
        policies = (Policies.circuit_breaker project_id actor reason at db).0.policies;
      })
unfolding Policies.circuit_breaker
circuit_breaker-demotes project_id actor reason at db =
    (update-Demotes project_id actor reason at db.policies, refl)
