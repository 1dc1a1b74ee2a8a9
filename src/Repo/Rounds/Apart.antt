-- ===== src/Repo/Rounds/Apart.antt =====
-- crates/db/src/repo/round.rs: what the statements that make and move rounds keep, in terms of the
-- rows: unique ids, numbers and codes, and one active round per plan outside the chore lane.
use sdi_plugin.Prelude.{
  ℕ, ◌+◌, String, ◌≡◌, ◌≢◌, ◌↔◌, refl, ap, ◌⊎◌, inl, inr, Bool, true, false, not, ◌&&◌, ◌||◌, List,
  [], ◌∷◌, arith, ◌==◌, eq_iff, nat_eq, All, Bool-cases, and-eq-true, or-eq-false,
}
use sdi_plugin.Domain.Round.{Round, RoundStatus, round_status_eq}
use sdi_plugin.Repo.Db.{RoundRow, not_like_chore, same_letter}
use sdi_plugin.Repo.Rounds
use sdi_plugin.Repo.Rounds.Keys.{collide, AreKeyed}
use Prim.Native.Char.{Char, code}

-- A letter, given by the code of its upper case, in either case.
abbrev pub Letter : ℕ → Char → Type 0
Letter upper c = (code c ≡ upper) ⊎ (code c ≡ upper + 32)

-- A short code of the chore lane: it begins with CHORE, in any case.
abbrev pub IsChore : String → Type 0
IsChore (String.◌∷◌ c (String.◌∷◌ h (String.◌∷◌ o (String.◌∷◌ r (String.◌∷◌ e _))))) =
    Letter b'C' c × Letter b'H' h × Letter b'O' o × Letter b'R' r × Letter b'E' e
IsChore _ = ⊥

-- Two rounds that may stand together: their ids differ; and in one plan their numbers and their short
-- codes differ, and not both are active, unless one of them is a chore.
abbrev pub Apart : Round → Round → Type 0
Apart x q =
    (q.id ≢ x.id)
    × ((q.plan_id ≢ x.plan_id)
        ⊎ ((q.round_number ≢ x.round_number)
            × (q.short_code ≢ x.short_code)
            × (((q.status ≢ RoundStatus.active) ⊎ IsChore q.short_code)
                ⊎ ((x.status ≢ RoundStatus.active) ⊎ IsChore x.short_code))))

-- Every two rows may stand together.
abbrev pub AreApart : List RoundRow → Type 0
AreApart [] = Unit {0}
AreApart (q ∷ qs) = All (λ x. Apart x.round q.round) qs × AreApart qs

pub ne-false : (s t : String) → (s == t) ≡ false → s ≢ t
ne-false s t h e = ground (arith, h, (eq_iff s t).1 e)

false-ne : (s t : String) → s ≢ t → (s == t) ≡ false
false-ne s t h = elim (Bool-cases (s == t)) [ inl e ↦ absurd (h ((eq_iff s t).0 e)) | inr e ↦ e ]

Letter-iff : (u : ℕ) (c : Char) → (same_letter u c ≡ true) ↔ Letter u c
Letter-iff u c = (λ h. to (code c) h, λ h. from (code c) h)
  where
    to : (n : ℕ) → (nat_eq n u || nat_eq n (u + 32)) ≡ true → (n ≡ u) ⊎ (n ≡ u + 32)
    to n h = elim (Bool-cases (nat_eq n u)) [
      | inl e ↦ inl (ground (arith, e))
      | inr e ↦ inr (ground (arith, e, h))
    ]

    from : (n : ℕ) → (n ≡ u) ⊎ (n ≡ u + 32) → (nat_eq n u || nat_eq n (u + 32)) ≡ true
    from n (inl e) = ground (arith, e)
    from n (inr e) = ground (arith, e)

IsChore-to : (s : String) → not_like_chore s ≡ false → IsChore s
unfolding not_like_chore
IsChore-to String.[] h = ground arith
IsChore-to (String.◌∷◌ _ String.[]) h = ground arith
IsChore-to (String.◌∷◌ _ (String.◌∷◌ _ String.[])) h = ground arith
IsChore-to (String.◌∷◌ _ (String.◌∷◌ _ (String.◌∷◌ _ String.[]))) h = ground arith
IsChore-to (String.◌∷◌ _ (String.◌∷◌ _ (String.◌∷◌ _ (String.◌∷◌ _ String.[])))) h = ground arith
IsChore-to (String.◌∷◌ c (String.◌∷◌ h (String.◌∷◌ o (String.◌∷◌ r (String.◌∷◌ e _))))) k =
    let (chor, e1) =
      and-eq-true
        (same_letter b'C' c && same_letter b'H' h && same_letter b'O' o && same_letter b'R' r)
        (same_letter b'E' e) (unnot _ k) in
    let (cho, r1) =
      and-eq-true (same_letter b'C' c && same_letter b'H' h && same_letter b'O' o)
        (same_letter b'R' r) chor in
    let (ch, o1) =
      and-eq-true (same_letter b'C' c && same_letter b'H' h) (same_letter b'O' o) cho in
    let (c1, h1) = and-eq-true (same_letter b'C' c) (same_letter b'H' h) ch in
    (
      (Letter-iff b'C' c).0 c1,
      (Letter-iff b'H' h).0 h1,
      (Letter-iff b'O' o).0 o1,
      (Letter-iff b'R' r).0 r1,
      (Letter-iff b'E' e).0 e1,
    )
  where
    unnot : (b : Bool) → not b ≡ false → b ≡ true
    unnot b p = ground arith

IsChore-from : (s : String) → IsChore s → not_like_chore s ≡ false
unfolding not_like_chore
IsChore-from String.[] h = ground arith
IsChore-from (String.◌∷◌ _ String.[]) h = ground arith
IsChore-from (String.◌∷◌ _ (String.◌∷◌ _ String.[])) h = ground arith
IsChore-from (String.◌∷◌ _ (String.◌∷◌ _ (String.◌∷◌ _ String.[]))) h = ground arith
IsChore-from (String.◌∷◌ _ (String.◌∷◌ _ (String.◌∷◌ _ (String.◌∷◌ _ String.[])))) h = ground arith
IsChore-from (String.◌∷◌ c (String.◌∷◌ h (String.◌∷◌ o (String.◌∷◌ r (String.◌∷◌ e _))))) k =
    five (same_letter b'C' c) (same_letter b'H' h) (same_letter b'O' o) (same_letter b'R' r)
      (same_letter b'E' e) ((Letter-iff b'C' c).1 k.0) ((Letter-iff b'H' h).1 k.1)
      ((Letter-iff b'O' o).1 k.2) ((Letter-iff b'R' r).1 k.3) ((Letter-iff b'E' e).1 k.4)
  where
    five :
        (a b c d e : Bool)
        → a ≡ true
        → b ≡ true
        → c ≡ true
        → d ≡ true
        → e ≡ true
        → not (a && b && c && d && e) ≡ false
    five a b c d e p q r s t = ground arith

active-ne :
    (s : RoundStatus) → round_status_eq s RoundStatus.active ≡ false → s ≢ RoundStatus.active
active-ne RoundStatus.planning h = ground arith
active-ne RoundStatus.completed h = ground arith
active-ne RoundStatus.active h = ground arith

ne-active :
    (s : RoundStatus) → s ≢ RoundStatus.active → round_status_eq s RoundStatus.active ≡ false
ne-active RoundStatus.planning h = refl
ne-active RoundStatus.completed h = refl
ne-active RoundStatus.active h = absurd (h refl)

abbrev Idle : Round → Type 0
Idle r = (r.status ≢ RoundStatus.active) ⊎ IsChore r.short_code

lane-to : (r : Round) → Rounds.is_active_lane r ≡ false → Idle r
lane-to r h = elim (Bool-cases (round_status_eq r.status RoundStatus.active)) [
  | inr e ↦ inl (active-ne r.status e)
  | inl e ↦ inr (IsChore-to r.short_code (ground (arith, e, h)))
]

lane-from : (r : Round) → Idle r → Rounds.is_active_lane r ≡ false
lane-from r (inl e) = ground (arith, ne-active r.status e)
lane-from r (inr e) =
    ground
      (arith, IsChore-from r.short_code e, Bool-cases (round_status_eq r.status RoundStatus.active))

number-ne : (a b : ℕ) → nat_eq a b ≡ false → a ≢ b
number-ne a b h e = ground (arith, h, e)

ne-number : (a b : ℕ) → a ≢ b → nat_eq a b ≡ false
ne-number a b h = ground (arith, h)

lanes-to :
    (x q : Round) → (Rounds.is_active_lane q && Rounds.is_active_lane x) ≡ false → Idle q ⊎ Idle x
lanes-to x q h = elim (Bool-cases (Rounds.is_active_lane q)) [
  | inr e ↦ inl (lane-to q e)
  | inl e ↦ inr (lane-to x (second (Rounds.is_active_lane q) (Rounds.is_active_lane x) e h))
]
  where
    second : (a b : Bool) → a ≡ true → (a && b) ≡ false → b ≡ false
    second a b p k = ground arith

collide-Apart : (x q : Round) → collide x q ≡ false → Apart x q
collide-Apart x q h =
    let number = nat_eq q.round_number x.round_number in
    let same_code = q.short_code == x.short_code in
    let lanes = Rounds.is_active_lane q && Rounds.is_active_lane x in
    let (ids, rest) = or-eq-false _ _ h in
    (
      ne-false q.id x.id ids,
      elim (Bool-cases (q.plan_id == x.plan_id)) [
        | inr e ↦ inl (ne-false q.plan_id x.plan_id e)
        | inl e ↦
            let (a, b, c) = parts (q.plan_id == x.plan_id) number same_code lanes e rest in
            inr (
              number-ne q.round_number x.round_number a,
              ne-false q.short_code x.short_code b,
              lanes-to x q c,
            )
      ],
    )
  where
    parts :
        (p n c l : Bool)
        → p ≡ true
        → ((p && n) || ((p && c) || (p && l))) ≡ false
        → (n ≡ false) × (c ≡ false) × (l ≡ false)
    parts p n c l e k = ground (arith, Bool-cases n, Bool-cases c, Bool-cases l)

lanes-from :
    (x q : Round) → Idle q ⊎ Idle x → (Rounds.is_active_lane q && Rounds.is_active_lane x) ≡ false
lanes-from x q (inl i) = ap (λ b. b && Rounds.is_active_lane x) (lane-from q i)
lanes-from x q (inr i) = right (Rounds.is_active_lane q) (Rounds.is_active_lane x) (lane-from x i)
  where
    right : (a b : Bool) → b ≡ false → (a && b) ≡ false
    right a b e = ground (arith, Bool-cases a)

Apart-collide : (x q : Round) → Apart x q → collide x q ≡ false
Apart-collide x q (ids, inl plans) =
    elsewhere (q.id == x.id) (q.plan_id == x.plan_id) (nat_eq q.round_number x.round_number)
      (q.short_code == x.short_code) (Rounds.is_active_lane q && Rounds.is_active_lane x)
      (false-ne q.id x.id ids) (false-ne q.plan_id x.plan_id plans)
  where
    elsewhere :
        (i p n c l : Bool)
        → i ≡ false
        → p ≡ false
        → (i || ((p && n) || ((p && c) || (p && l)))) ≡ false
    elsewhere i p n c l e f = ground arith
Apart-collide x q (ids, inr (numbers, same_codes, lanes)) =
    here (q.id == x.id) (q.plan_id == x.plan_id) (nat_eq q.round_number x.round_number)
      (q.short_code == x.short_code) (Rounds.is_active_lane q && Rounds.is_active_lane x)
      (false-ne q.id x.id ids) (ne-number q.round_number x.round_number numbers)
      (false-ne q.short_code x.short_code same_codes) (lanes-from x q lanes)
  where
    here :
        (i p n c l : Bool)
        → i ≡ false
        → n ≡ false
        → c ≡ false
        → l ≡ false
        → (i || ((p && n) || ((p && c) || (p && l)))) ≡ false
    here i p n c l e f g h = ground (arith, Bool-cases p)

All-impl :
    (P Q : RoundRow → Type 0) (rows : List RoundRow)
    → ((q : RoundRow) → P q → Q q)
    → All P rows
    → All Q rows
All-impl P Q [] f all = tt
All-impl P Q (q ∷ qs) f all = (f q all.0, All-impl P Q qs f all.1)

pub AreKeyed-AreApart : (rows : List RoundRow) → AreKeyed rows → AreApart rows
AreKeyed-AreApart [] keyed = tt
AreKeyed-AreApart (q ∷ qs) keyed = (
  All-impl (λ x. collide x.round q.round ≡ false) (λ x. Apart x.round q.round) qs
      (λ x. collide-Apart x.round q.round) keyed.0,
  AreKeyed-AreApart qs keyed.1,
)

pub AreApart-AreKeyed : (rows : List RoundRow) → AreApart rows → AreKeyed rows
AreApart-AreKeyed [] apart = tt
AreApart-AreKeyed (q ∷ qs) apart = (
  All-impl (λ x. Apart x.round q.round) (λ x. collide x.round q.round ≡ false) qs
      (λ x. Apart-collide x.round q.round) apart.0,
  AreApart-AreKeyed qs apart.1,
)
