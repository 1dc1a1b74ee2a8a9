-- ===== src/Repo/Relations/Kinship.antt =====
-- crates/db/src/repo/run.rs: `ancestors` and `descendants` as relations between tasks.
use sdi_plugin.Prelude.{
  ℕ, suc, ◌+◌, ◌≤◌, ◌≡◌, refl, sym, ap, ◌↔◌, inl, inr, Bool, true, false, ◌&&◌, ◌||◌, Option, none,
  some, List, [], ◌∷◌, map, arith, ◌==◌, eq_iff, is_some, length, any, select, Bool-cases,
}
use sdi_plugin.Domain.Ids.{EntityId}
use sdi_plugin.Prelude.{◌∙◌}
use mathlib.Core.Path.{subst}
use sdi_plugin.Repo.Db.{Db}
use sdi_plugin.Domain.Run.{TaskRelation, RelationKind, relation_kind_eq}
use sdi_plugin.Repo.Relations.{
  mem, walk, start_at, enough, parents, children, ancestors, descendants,
}
use sdi_plugin.Repo.Relations.Walks.{IsDistinct, Reach, unseen-length, walk-Ends}
use sdi_plugin.Repo.Relations.Found.{Lists, walk-Lists}

abbrev pub parent_ids : Db → List EntityId
parent_ids db = map (λ r. r.parent_id) db.relations

abbrev pub child_ids : Db → List EntityId
child_ids db = map (λ r. r.child_id) db.relations

mem-map-select :
    (y : EntityId) (f : TaskRelation → EntityId) (p : TaskRelation → Bool)
    (rows : List TaskRelation)
    → mem y (map f (select p rows)) ≡ any (λ r. p r && f r == y) rows
mem-map-select y f p [] = refl
mem-map-select y f p (r ∷ rows) = ground (arith, Bool-cases (p r), mem-map-select y f p rows)

mem-map-within :
    (y : EntityId) (f : TaskRelation → EntityId) (p : TaskRelation → Bool)
    (rows : List TaskRelation)
    → mem y (map f (select p rows)) ≡ true
    → mem y (map f rows) ≡ true
mem-map-within y f p [] h = h
mem-map-within y f p (r ∷ rows) h = ground (arith, Bool-cases (p r), mem-map-within y f p rows)

length-map :
    (f : TaskRelation → EntityId) (rows : List TaskRelation) → length (map f rows) ≡ length rows
length-map f [] = refl
length-map f (r ∷ rows) = ap suc (length-map f rows)

from_some : {A : Type 0} (o : Option A) → is_some o ≡ true → (a : A) × (o ≡ some a)
from_some none h = ground arith
from_some (some a) h = (a, refl)

walk-Enough :
    (next : EntityId → List EntityId) (f : TaskRelation → EntityId) (db : Db) (t : EntityId)
    → ((x y : EntityId) → mem y (next x) ≡ true → mem y (map f db.relations) ≡ true)
    → (out : List EntityId) × (walk next (enough db) (t ∷ []) (start_at t) ≡ some out)
      × Lists next t out
walk-Enough next f db t within =
    let (out, h) = from_some _ (
      walk-Ends next (map f db.relations) within (enough db) (t ∷ []) (start_at t)
        (small (unseen-length (t ∷ []) (map f db.relations)) (length-map f db.relations))) in
    (out, h, walk-Lists next t (enough db) out h)
  where
    small : {a b c : ℕ} → a ≤ b → b ≡ c → 1 + a ≤ suc c
    small h k = omega arith

-- The walk upwards always ends, whatever cycles the relations have, and lists each task once: those,
-- and only those, that `parent` relations lead to, without the task itself.
pub ancestors-Lists :
    (db : Db) (t : EntityId)
    → (out : List EntityId) × (ancestors db t ≡ some out) × Lists (parents db) t out
unfolding ancestors parents
ancestors-Lists db t =
    walk-Enough (parents db) (λ r. r.parent_id) db t
      (λ x y h.
        mem-map-within y (λ r. r.parent_id)
          (λ r. r.child_id == x && relation_kind_eq r.kind RelationKind.parent) db.relations h)

-- The walk downwards, likewise.
pub descendants-Lists :
    (db : Db) (t : EntityId)
    → (out : List EntityId) × (descendants db t ≡ some out) × Lists (children db) t out
unfolding descendants children
descendants-Lists db t =
    walk-Enough (children db) (λ r. r.child_id) db t
      (λ x y h.
        mem-map-within y (λ r. r.child_id)
          (λ r. r.parent_id == x && relation_kind_eq r.kind RelationKind.parent) db.relations h)

parents-children : (db : Db) (x y : EntityId) → mem y (parents db x) ≡ mem x (children db y)
unfolding parents children
parents-children db x y =
    mem-map-select y (λ r. r.parent_id)
      (λ r. r.child_id == x && relation_kind_eq r.kind RelationKind.parent) db.relations
    ∙ (turned db.relations
        ∙ sym (
            mem-map-select x (λ r. r.child_id)
              (λ r. r.parent_id == y && relation_kind_eq r.kind RelationKind.parent) db.relations))
  where
    turned :
        (rows : List TaskRelation)
        → any
            (λ r.
              (r.child_id == x && relation_kind_eq r.kind RelationKind.parent) && r.parent_id == y)
            rows
          ≡ any
              (λ r.
                (r.parent_id == y && relation_kind_eq r.kind RelationKind.parent)
                && r.child_id == x)
              rows
    turned [] = refl
    turned (r ∷ rows) = ground (
      arith,
      Bool-cases (r.child_id == x),
      Bool-cases (r.parent_id == y),
      Bool-cases (relation_kind_eq r.kind RelationKind.parent),
      turned rows,
    )

-- A path read from its other end.
prepend :
    (next : EntityId → List EntityId) (s t x : EntityId)
    → mem t (next s) ≡ true
    → Reach next t x
    → Reach next s x
prepend next s t _ h Reach.here = Reach.further Reach.here h
prepend next s t y h (Reach.further way k) = Reach.further (prepend next s t _ h way) k

reverse :
    (next back : EntityId → List EntityId) (s x : EntityId)
    → ((a b : EntityId) → mem b (next a) ≡ mem a (back b))
    → Reach next s x
    → Reach back x s
reverse next back s _ turn Reach.here = Reach.here
reverse next back s y turn (Reach.further {x} way k) =
    prepend back y x s (sym (turn x y) ∙ k) (reverse next back s x turn way)

Reach-mem :
    (next : EntityId → List EntityId) (s x : EntityId) (out : List EntityId)
    → Lists next s out
    → (s == x) ≡ false
    → Reach next s x
    → mem x out ≡ true
Reach-mem next s x out (_, listed) apart way =
    ap (λ b. b || mem x out) (sym apart) ∙ (listed x).1 way

opposite : (s x : EntityId) → (s == x) ≡ (x == s)
opposite s x = ground (arith, eq_iff s x, eq_iff x s, Bool-cases (s == x), Bool-cases (x == s))

apart :
    (s x : EntityId) (out : List EntityId)
    → IsDistinct (s ∷ out)
    → mem x out ≡ true
    → (s == x) ≡ false
apart s x out (fresh, _) h = elim (Bool-cases (s == x)) [
  | inr e ↦ e
  | inl e ↦ absurd (clash (subst (λ i. mem i out ≡ false) ((eq_iff s x).0 e) fresh))
]
  where
    clash : mem x out ≡ false → ⊥
    clash k = ground arith

turn_round :
    (next back : EntityId → List EntityId) (s x : EntityId) (out back_out : List EntityId)
    → ((a b : EntityId) → mem b (next a) ≡ mem a (back b))
    → Lists next s out
    → Lists back x back_out
    → mem x out ≡ true
    → mem s back_out ≡ true
turn_round next back s x out back_out turn (fresh, listed) there h =
    Reach-mem back x s back_out there (opposite x s ∙ apart s x out fresh h) (
      reverse next back s x turn
        ((listed x).0 (ap (λ b. b || mem x out) (apart s x out fresh h) ∙ h)))

-- One task is among the ancestors of another exactly if that one is among its descendants.
pub ancestors-descendants :
    (db : Db) (s x : EntityId) (up down : List EntityId)
    → ancestors db s ≡ some up
    → descendants db x ≡ some down
    → (mem x up ≡ true) ↔ (mem s down ≡ true)
ancestors-descendants db s x up down h k =
    let (up', found_up, ups) = ancestors-Lists db s in
    let (down', found_down, downs) = descendants-Lists db x in
    let ups' = subst (Lists (parents db) s) (same_list up' up (sym found_up ∙ h)) ups in
    let downs' = subst (Lists (children db) x) (same_list down' down (sym found_down ∙ k)) downs in
    (
      turn_round (parents db) (children db) s x up down (λ a b. parents-children db a b) ups'
          downs',
      turn_round (children db) (parents db) x s down up (λ a b. sym (parents-children db b a))
          downs' ups',
    )
  where
    same_list : (a b : List EntityId) → some a ≡ some b → a ≡ b
    same_list a b q = ground arith
