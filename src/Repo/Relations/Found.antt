-- ===== src/Repo/Relations/Found.antt =====
-- crates/db/src/repo/run.rs: what `ancestors` and `descendants` list: the invariant of their loop.
use sdi_plugin.Prelude.{
  ℕ, zero, suc, ◌≡◌, refl, sym, ap, ◌↔◌, ◌⊎◌, inl, inr, Bool, true, false, ◌||◌, some, List, [],
  ◌∷◌, ◌++◌, arith, ◌==◌, eq_iff, eq_refl, if◌then◌else◌, Bool-cases,
}
use sdi_plugin.Domain.Ids.{EntityId}
use sdi_plugin.Prelude.{◌∙◌}
use mathlib.Core.Path.{subst}
use sdi_plugin.Repo.Relations.{Walk, mem, visit, visit_all, walk, start_at}
use sdi_plugin.Prelude.{or-eq-true}
use sdi_plugin.Repo.Relations.Walks.{IsDistinct, Reach, mem-append, append-IsDistinct}

abbrev pub In : EntityId → List EntityId → Type 0
In x xs = mem x xs ≡ true

-- What one visit, and the visits of one round, do to the variables.
record Visited (ps : List EntityId) (w v : Walk) : Type 0 where
  kept : (x : EntityId) → In x w.seen → In x v.seen
  waits : (x : EntityId) → In x w.frontier → In x v.frontier
  reaches : (x : EntityId) → In x ps → In x v.seen
  only : (x : EntityId) → In x v.seen → In x w.seen ⊎ In x ps
  queued : (x : EntityId) → In x v.seen → In x w.seen ⊎ In x v.frontier

visit-Visited : (p : EntityId) (w : Walk) → Visited (p ∷ []) w (visit p w)
visit-Visited p w = elim (Bool-cases (mem p w.seen)) [
  | inl k ↦ subst (Visited (p ∷ []) w) (sym (ap (λ b. if b then w else added) k)) (old k)
  | inr k ↦ subst (Visited (p ∷ []) w) (sym (ap (λ b. if b then w else added) k)) new
]
  where
    added : Walk
    added = record { frontier = w.frontier ++ p ∷ []; seen = p ∷ w.seen; out = w.out ++ p ∷ [] }

    old : mem p w.seen ≡ true → Visited (p ∷ []) w w
    old k = record {
      kept = λ x h. h;
      waits = λ x h. h;
      reaches = λ x h. ground (arith, eq_iff p x, k);
      only = λ x h. inl h;
      queued = λ x h. inl h;
    }

    new : Visited (p ∷ []) w added
    new = record {
      kept = λ x h. ground arith;
      waits = λ x h. mem-append x p w.frontier ∙ ground arith;
      reaches = λ x h. ground arith;
      only = λ x h. ground (arith, Bool-cases (p == x));
      queued = λ x h. ground (arith, Bool-cases (p == x), mem-append x p w.frontier);
    }

then_Visited :
    (p : EntityId) (ps : List EntityId) (w u v : Walk)
    → Visited (p ∷ []) w u
    → Visited ps u v
    → Visited (p ∷ ps) w v
then_Visited p ps w u v one later = record {
  kept = λ x h. later.kept x (one.kept x h);
  waits = λ x h. later.waits x (one.waits x h);
  reaches = λ x h. elim (or-eq-true (p == x) (mem x ps) h) [
    | inl e ↦ later.kept x (one.reaches x (rw e refl))
    | inr e ↦ later.reaches x e
  ];
  only = λ x h. elim (later.only x h) [
    | inl e ↦ elim (one.only x e) [ inl f ↦ inl f | inr f ↦ inr (ground arith) ]
    | inr e ↦ inr (ground arith)
  ];
  queued = λ x h. elim (later.queued x h) [
    | inl e ↦ elim (one.queued x e) [ inl f ↦ inl f | inr f ↦ inr (later.waits x f) ]
    | inr e ↦ inr e
  ];
}

visit_all-Visited : (ps : List EntityId) (w : Walk) → Visited ps w (visit_all ps w)
visit_all-Visited [] w = record {
  kept = λ x h. h;
  waits = λ x h. h;
  reaches = λ x h. ground arith;
  only = λ x h. inl h;
  queued = λ x h. inl h;
}
visit_all-Visited (p ∷ ps) w =
    then_Visited p ps w (visit p w) (visit_all ps (visit p w)) (visit-Visited p w)
      (visit_all-Visited ps (visit p w))

-- What holds of the variables at the head of the loop.
record Found (next : EntityId → List EntityId) (s : EntityId) (w : Walk) : Type 0 where
  sound : (x : EntityId) → In x w.seen → Reach next s x
  listed : (x : EntityId) → mem x w.seen ≡ (s == x || mem x w.out)
  distinct : IsDistinct (s ∷ w.out)
  waiting : (x : EntityId) → In x w.frontier → In x w.seen

abbrev Closed : (EntityId → List EntityId) → Walk → Type 0
Closed next w =
    (x : EntityId) → In x w.seen → In x w.frontier ⊎ ((y : EntityId) → In y (next x) → In y w.seen)

visit-Found :
    (next : EntityId → List EntityId) (s p : EntityId) (w : Walk)
    → Reach next s p
    → Found next s w
    → Found next s (visit p w)
visit-Found next s p w way inv = elim (Bool-cases (mem p w.seen)) [
  | inl k ↦ subst (Found next s) (sym (ap (λ b. if b then w else added) k)) inv
  | inr k ↦ subst (Found next s) (sym (ap (λ b. if b then w else added) k)) (new k)
]
  where
    added : Walk
    added = record { frontier = w.frontier ++ p ∷ []; seen = p ∷ w.seen; out = w.out ++ p ∷ [] }

    new : mem p w.seen ≡ false → Found next s added
    new k = record {
      sound = λ x h. elim (or-eq-true (p == x) (mem x w.seen) h) [
        | inl e ↦ subst (Reach next s) ((eq_iff p x).0 e) way
        | inr e ↦ inv.sound x e
      ];
      listed = λ x.
          ap (λ b. p == x || b) (inv.listed x)
          ∙ (swap (p == x) (s == x) (mem x w.out)
              ∙ ap (λ b. s == x || b) (sym (mem-append x p w.out)));
      distinct = append-IsDistinct p (s ∷ w.out) (sym (inv.listed p) ∙ k) inv.distinct;
      waiting = λ x h.
          elim (or-eq-true (mem x w.frontier) (p == x) (sym (mem-append x p w.frontier) ∙ h)) [
            | inl e ↦ rw (inv.waiting x e) (either_true (p == x))
            | inr e ↦ rw e refl
          ];
    }
      where
        either_true : (b : Bool) → (b || true) ≡ true
        either_true b = ground (arith, Bool-cases b)

        swap : (a b c : Bool) → (a || (b || c)) ≡ (b || (c || a))
        swap a b c = ground (arith, Bool-cases a, Bool-cases b, Bool-cases c)

visit_all-Found :
    (next : EntityId → List EntityId) (s : EntityId) (ps : List EntityId) (w : Walk)
    → ((p : EntityId) → In p ps → Reach next s p)
    → Found next s w
    → Found next s (visit_all ps w)
visit_all-Found next s [] w way inv = inv
visit_all-Found next s (p ∷ ps) w way inv =
    visit_all-Found next s ps (visit p w) (λ q h. way q (ground arith))
      (visit-Found next s p w (way p (ground (arith, eq_refl p))) inv)

round-Closed :
    (next : EntityId → List EntityId) (cur : EntityId) (rest : List EntityId) (w : Walk)
    → w.frontier ≡ cur ∷ rest
    → Closed next w
    → Closed next (visit_all (next cur) (record w { frontier = rest }))
round-Closed next cur rest w e closed x h = elim (done.queued x h) [
  | inr waiting ↦ inl waiting
  | inl before ↦ elim (closed x before) [
    | inr all_seen ↦ inr (λ y k. done.kept y (all_seen y k))
    | inl waiting ↦ elim (or-eq-true (cur == x) (mem x rest) (ap (mem x) (sym e) ∙ waiting)) [
      | inl now ↦ inr (λ y k. done.reaches y (ap (λ i. mem y (next i)) ((eq_iff cur x).0 now) ∙ k))
      | inr later ↦ inl (done.waits x later)
    ]
  ]
]
  where
    done :
        Visited
          (next cur)
          (record w { frontier = rest })
          (visit_all (next cur) (record w { frontier = rest }))
    done = visit_all-Visited (next cur) (record w { frontier = rest })

Reach-seen :
    (next : EntityId → List EntityId) (s : EntityId) (w : Walk)
    → w.frontier ≡ []
    → Closed next w
    → In s w.seen
    → (x : EntityId) → Reach next s x
    → In x w.seen
Reach-seen next s w e closed start _ Reach.here = start
Reach-seen next s w e closed start y (Reach.further {x} way k) =
    elim (closed x (Reach-seen next s w e closed start x way)) [
      | inl waiting ↦ absurd (nothing waiting)
      | inr all_seen ↦ all_seen y k
    ]
  where
    nothing : In x w.frontier → ⊥
    nothing h = clash (sym h ∙ ap (mem x) e)
      where
        clash : true ≡ false → ⊥
        clash k = ground arith

-- The list of a walk: no id twice, not the start itself, and exactly what can be reached.
abbrev pub Lists : (EntityId → List EntityId) → EntityId → List EntityId → Type 0
Lists next s out =
    IsDistinct (s ∷ out) × ((x : EntityId) → (mem x (s ∷ out) ≡ true) ↔ Reach next s x)

Found-Lists :
    (next : EntityId → List EntityId) (s : EntityId) (w : Walk)
    → w.frontier ≡ []
    → Closed next w
    → Found next s w
    → Lists next s w.out
Found-Lists next s w e closed inv = (
  inv.distinct,
  λ x. (
    λ h. inv.sound x (inv.listed x ∙ h),
    λ way.
        sym (inv.listed x)
        ∙ Reach-seen next s w e closed (inv.listed s ∙ ground (arith, eq_refl s)) x way,
  ),
)

walk-Found :
    (next : EntityId → List EntityId) (s : EntityId) (fuel : ℕ) (fr : List EntityId) (w : Walk)
    (out : List EntityId)
    → w.frontier ≡ fr
    → Closed next w
    → Found next s w
    → walk next fuel fr w ≡ some out
    → Lists next s out
unfolding walk
walk-Found next s fuel [] w out e closed inv h =
    subst (Lists next s) (same_list w.out out h) (Found-Lists next s w e closed inv)
  where
    same_list : (a b : List EntityId) → some a ≡ some b → a ≡ b
    same_list a b k = ground arith
walk-Found next s zero (cur ∷ rest) w out e closed inv h = ground arith
walk-Found next s (suc fuel) (cur ∷ rest) w out e closed inv h =
    let popped : Walk = record w { frontier = rest } in
    let v = visit_all (next cur) popped in
    let at_hand = inv.sound cur (inv.waiting cur (ap (mem cur) e ∙ ground (arith, eq_refl cur))) in
    let inv_popped : Found next s popped = record {
      sound = inv.sound;
      listed = inv.listed;
      distinct = inv.distinct;
      waiting = λ x k. inv.waiting x (ap (mem x) e ∙ ground (arith, Bool-cases (cur == x)));
    } in
    walk-Found next s fuel v.frontier v out refl (round-Closed next cur rest w e closed)
      (visit_all-Found next s (next cur) popped (λ p k. Reach.further at_hand k) inv_popped) h

-- A walk from its start that ends lists what can be reached from there.
pub walk-Lists :
    (next : EntityId → List EntityId) (s : EntityId) (fuel : ℕ) (out : List EntityId)
    → walk next fuel (s ∷ []) (start_at s) ≡ some out
    → Lists next s out
walk-Lists next s fuel out h =
    walk-Found next s fuel (s ∷ []) (start_at s) out refl (λ x k. inl k)
      (record {
        sound = λ x k. subst (Reach next s) ((eq_iff s x).0 (at_start (s == x) k)) Reach.here;
        listed = λ x. refl;
        distinct = (refl, tt);
        waiting = λ x k. k;
      })
      h
  where
    at_start : (b : Bool) → (b || false) ≡ true → b ≡ true
    at_start b k = ground (arith, Bool-cases b)
