-- ===== src/Router/Provenance/Sentinel.antt =====
-- crates/daemon/src/router/provenance.rs: the sentinel pattern of a plan is made once.
use sdi_plugin.Prelude.{
  String, ◌≡◌, refl, sym, ap, true, ◌&&◌, Option, none, some, [], ◌∷◌, ◌++◌, arith, ◌==◌, eq_refl,
  if◌then◌else◌, is_some, any, find,
}
use sdi_plugin.Domain.Error.{DomainError, not_found, Result, ok, err}
use sdi_plugin.Domain.Ids.{EntityId, Timestamp}
use sdi_plugin.Repo.Db.{Db}
use sdi_plugin.Domain.Results.{guard-ok, ok-injective}
use sdi_plugin.Prelude.{◌∙◌}
use mathlib.Core.Path.{subst}
use sdi_plugin.Domain.Pattern.Shape.{CollaborationPattern}
use sdi_plugin.Repo.Plans
use sdi_plugin.Repo.Patterns
use sdi_plugin.Domain.Plan.{Plan}
use sdi_plugin.Repo.Action.{resume}
use sdi_plugin.Repo.Action.Laws.{▹-query-ok}
use sdi_plugin.Router.Provenance.{
  sentinel_short_code, direct_row, on_conflict, inserted_or_won, existing_or_new, ensure_for,
  ensure_direct_pattern,
}
use sdi_plugin.Prelude.Updates.{any-find, find-append-none, map_some}

read_plan :
    (db : Db) (id : EntityId) (p : Plan)
    → Plans.get db id ≡ ok p
    → any (λ q. q.id == id) db.plans ≡ true
unfolding Plans.get
read_plan db id p h =
    any-find (λ q. q.id == id) db.plans ∙ after (find (λ q. q.id == id) db.plans) h
  where
    after :
        (o : Option Plan)
        → elim o [ none ↦ err (not_found id) | some x ↦ ok x ] ≡ ok p
        → is_some o ≡ true
    after none k = ground arith
    after (some x) k = refl

own_key :
    (p : CollaborationPattern) → (p.plan_id == p.plan_id && p.short_code == p.short_code) ≡ true
own_key p = ground (arith, eq_refl p.plan_id, eq_refl p.short_code)

no-winner : (e : DomainError) (code answer : String) → on_conflict e none code ≡ ok answer → ⊥
no-winner e code answer h = ground arith

answer-and-db :
    (a b : String) (d d' : Db) (r : Result String × Db)
    → r ≡ (ok a, d)
    → r ≡ (ok b, d')
    → (a ≡ b) × (d ≡ d')
answer-and-db a b d d' r h k =
    (ok-injective a b (ap (λ x. x.0) (sym h ∙ k)), ap (λ x. x.1) (sym h ∙ k))

inserted-found :
    (p : CollaborationPattern) (db db' : Db)
    → Patterns.insert p db ≡ ok db'
    → (Patterns.get_by_short_code db' p.plan_id p.short_code ≡ some p) × (db'.plans ≡ db.plans)
unfolding Patterns.insert Patterns.get_by_short_code
inserted-found p db db' h =
    let (_, h1) = guard-ok _ _ _ _ h in
    let (fresh, h2) = guard-ok _ _ _ _ h1 in
    let (_, h3) = guard-ok _ _ _ _ h2 in
    let written = ok-injective (record db { patterns = db.patterns ++ p ∷ [] }) db' h3 in
    (
      subst
          (λ d.
            find (λ q. q.plan_id == p.plan_id && q.short_code == p.short_code) d.patterns ≡ some p)
          written
          (find-append-none (λ q. q.plan_id == p.plan_id && q.short_code == p.short_code)
              db.patterns p fresh
            ∙ ap (λ b. if b then some p else none) (own_key p)),
      ap (λ d. d.plans) (sym written),
    )

-- Whoever asks first, the answer stays: after an answer, a further call answers the same id,
-- whatever id it would have drawn, and writes nothing; there is one sentinel for a plan.
pub ensure_direct_pattern-once :
    (plan_id id other : EntityId) (now later : Timestamp) (db db' : Db) (answer : String)
    → ensure_direct_pattern plan_id id now db ≡ (ok answer, db')
    → ensure_direct_pattern plan_id other later db' ≡ (ok answer, db')
unfolding ensure_direct_pattern Plans.get
ensure_direct_pattern-once plan_id id other now later db db' answer h =
    let (p, found, h1) =
      ▹-query-ok (λ d. Plans.get d plan_id) (ensure_for plan_id id now) db db' answer h in
    let code = sentinel_short_code p.short_code in
    let (there, same) = settled (Patterns.get_by_short_code db plan_id code) p refl h1 in
    let found' =
      ap
        (λ rows. elim (find (λ (x : Plan). x.id == plan_id) rows) [
          | none ↦ err (not_found plan_id)
          | some x ↦ ok x
        ])
        same
      ∙ found in
    ap (λ (r : Result Plan). resume r (ensure_for plan_id other later) db') found'
    ∙ kept (Patterns.get_by_short_code db' plan_id code) there code
  where
    Held : String → Type 0
    Held code = map_some (λ q. q.id) (Patterns.get_by_short_code db' plan_id code) ≡ some answer

    kept :
        (o : Option CollaborationPattern)
        → map_some (λ q. q.id) o ≡ some answer
        → (code : String) → existing_or_new o other code plan_id later db' ≡ (ok answer, db')
    kept none k code = ground arith
    kept (some q) k code = ap (λ a. (ok a, db')) (same_text q.id answer k)
      where
        same_text : (a b : String) → some a ≡ some b → a ≡ b
        same_text a b e = ground arith

    settled :
        (o : Option CollaborationPattern)
        → (p : Plan) → Patterns.get_by_short_code db plan_id (sentinel_short_code p.short_code) ≡ o
        → existing_or_new o id (sentinel_short_code p.short_code) plan_id now db ≡ (ok answer, db')
        → Held (sentinel_short_code p.short_code) × (db'.plans ≡ db.plans)
    settled none p e k =
        written (Patterns.insert (direct_row id (sentinel_short_code p.short_code) plan_id now) db)
          refl k
      where
        written :
            (r : Result Db)
            → Patterns.insert (direct_row id (sentinel_short_code p.short_code) plan_id now) db ≡ r
            → inserted_or_won r id (sentinel_short_code p.short_code) plan_id db ≡ (ok answer, db')
            → Held (sentinel_short_code p.short_code) × (db'.plans ≡ db.plans)
        written (ok d) q g =
            let (same_id, same_db) = answer-and-db id answer d db' (ok id, d) refl g in
            let (held, plans) =
              inserted-found (direct_row id (sentinel_short_code p.short_code) plan_id now) db d
                q in
            (
              ap
                    (λ x.
                      map_some (λ y. y.id)
                        (Patterns.get_by_short_code x plan_id (sentinel_short_code p.short_code)))
                    (sym same_db)
                  ∙ (ap (map_some (λ y. y.id)) held ∙ ap some same_id),
              ap (λ x. x.plans) (sym same_db) ∙ plans,
            )
        written (err d) q g = absurd (
            no-winner d (sentinel_short_code p.short_code) answer (
              ap (λ o. on_conflict d o (sentinel_short_code p.short_code)) (sym e)
              ∙ ap (λ x. x.0) g))
    settled (some q) p e k =
        let (same_id, same_db) = answer-and-db q.id answer db db' (ok q.id, db) refl k in
        (
          ap
                (λ x.
                  map_some (λ y. y.id)
                    (Patterns.get_by_short_code x plan_id (sentinel_short_code p.short_code)))
                (sym same_db)
              ∙ (ap (map_some (λ y. y.id)) e ∙ ap some same_id),
          ap (λ x. x.plans) (sym same_db),
        )
