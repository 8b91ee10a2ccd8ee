-- ===== src/Board/Statuses.antt =====
-- Couriers found by their id, and what the writes of internal/repository do to the statuses of
-- the board.
use service_courier_platform.Prelude.{
  ℕ, ℤ, pos, leb_ℤ, leb→le, ◌≡◌, ◌∙◌, sym, ap, refl, subst, true, false, List, [], ◌∷◌, map, any,
  count, count-pos_of_any, suc, Option-cases, All, In, Option, none, some, some_inj, eqb_ℤ,
  eqb_ℤ_iff, eqb_ℤ_refl, ◌+◌, arith, Bool-cases, both_tests, inl, inr, ◌≤◌,
}
use service_courier_platform.Domain.{Courier, CourierStatus}
use service_courier_platform.Repository.{has_id, find_courier, any-has_id-In}
use service_courier_platform.Repository.Valid.{restatus, restatus_id}
use service_courier_platform.Board.{status_in, turned, SameAs}

pub find_courier_id :
    (i : ℤ) (cs : List Courier) {c : Courier} → find_courier i cs ≡ some c → c.id ≡ i
find_courier_id i [] h = cc
find_courier_id i (d ∷ cs) h = elim (Bool-cases (has_id i d)) [
  | inl e ↦ subst (λ x. x.id ≡ i) (some_inj (rw e at h)) ((eqb_ℤ_iff _ _).0 e)
  | inr e ↦ find_courier_id i cs (rw e at h)
]

-- With unique ids, a courier is found under its own.
pub find_courier-In :
    (c : Courier) (cs : List Courier)
    → In c cs
    → count (has_id c.id) cs ≤ 1
    → find_courier c.id cs ≡ some c
find_courier-In c [] i u = absurd i
find_courier-In c (d ∷ cs) (inl e) u = rw (← e, eqb_ℤ_refl c.id) refl
find_courier-In c (d ∷ cs) (inr i) u = elim (Bool-cases (has_id c.id d)) [
  | inl e ↦
      let one : count (has_id c.id) (d ∷ cs) ≡ suc (count (has_id c.id) cs) = rw e refl in
      absurd (omega (arith, one, u, count-pos_of_any (has_id c.id) cs (any-has_id-In cs c i)))
  | inr e ↦ rw e (find_courier-In c cs i (rw e at u))
]

abbrev pub mapped : (Courier → Courier) → Option Courier → Option Courier
mapped f none = none
mapped f (some c) = some (f c)

-- A change of rows that leaves their ids alone changes the row that is found.
pub find_courier-map :
    (f : Courier → Courier)
    → ((c : Courier) → (f c).id ≡ c.id)
    → (i : ℤ) (cs : List Courier) → find_courier i (map f cs) ≡ mapped f (find_courier i cs)
find_courier-map f same i [] = refl
find_courier-map f same i (c ∷ cs) = elim (Bool-cases (has_id i c)) [
  | inl e ↦ let own : has_id i (f c) ≡ true = ap (λ x. eqb_ℤ x i) (same c) ∙ e in rw (own, e) refl
  | inr e ↦
      let other : has_id i (f c) ≡ false = ap (λ x. eqb_ℤ x i) (same c) ∙ e in
      rw (other, e) (find_courier-map f same i cs)
]

-- The statuses after a change of the one courier whose id is `i`.
pub statuses_turned :
    (f : Courier → Courier) (i : ℤ) (cs : List Courier) (c : Courier)
    → ((d : Courier) → (f d).id ≡ d.id)
    → ((d : Courier) → has_id i d ≡ false → f d ≡ d)
    → find_courier i cs ≡ some c
    → SameAs
        (λ j. status_in (find_courier j (map f cs)))
        (turned i (f c).status (λ j. status_in (find_courier j cs)))
statuses_turned f i cs c same others found j = elim (Bool-cases (eqb_ℤ j i)) [
  | inl e ↦
      let here : find_courier j cs ≡ some c =
        ap (λ x. find_courier x cs) ((eqb_ℤ_iff j i).0 e) ∙ found in
      rw (find_courier-map f same j cs, here, e) refl
  | inr e ↦ elim (Option-cases (find_courier j cs)) [
    | inl gone ↦ rw (find_courier-map f same j cs, gone, e) refl
    | inr (d, there) ↦
        let apart : has_id i d ≡ false = ap (λ x. eqb_ℤ x i) (find_courier_id j cs there) ∙ e in
        rw (find_courier-map f same j cs, there, e) (ap (λ x. some x.status) (others d apart))
  ]
]

-- Writing one status.
pub statuses-restatus :
    (s : CourierStatus) (i : ℤ) (cs : List Courier) (c : Courier)
    → find_courier i cs ≡ some c
    → SameAs
        (λ j. status_in (find_courier j (map (restatus (has_id i) s) cs)))
        (turned i s (λ j. status_in (find_courier j cs)))
statuses-restatus s i cs c found j =
    let own : has_id i c ≡ true = (eqb_ℤ_iff _ _).1 (find_courier_id i cs found) in
    let new : (restatus (has_id i) s c).status ≡ s = rw own refl in
    subst
      (λ x.
        status_in (find_courier j (map (restatus (has_id i) s) cs))
        ≡ turned i x (λ k. status_in (find_courier k cs)) j)
      new
      (statuses_turned (restatus (has_id i) s) i cs c (restatus_id (has_id i) s) (λ d e. rw e refl)
        found j)

pub find_courier-any :
    (i : ℤ) (cs : List Courier)
    → any (has_id i) cs ≡ true
    → (c : Courier) × (find_courier i cs ≡ some c)
find_courier-any i [] h = cc
find_courier-any i (c ∷ cs) h = elim (Bool-cases (has_id i c)) [
  | inl e ↦ (c, rw e refl)
  | inr e ↦ let (d, found) = find_courier-any i cs (rw e at h) in (d, rw e found)
]

-- A new courier.
pub statuses-cons :
    (i : ℤ) (c : Courier) (cs : List Courier)
    → SameAs
        (λ j. status_in (find_courier j (record c { id = i } ∷ cs)))
        (turned i c.status (λ j. status_in (find_courier j cs)))
statuses-cons i c cs j = elim (Bool-cases (eqb_ℤ i j)) [
  | inl e ↦
      let back : eqb_ℤ j i ≡ true = (eqb_ℤ_iff j i).1 (sym ((eqb_ℤ_iff i j).0 e)) in
      rw (e, back) refl
  | inr e ↦ elim (Bool-cases (eqb_ℤ j i)) [
    | inl back ↦ absurd (both_tests ((eqb_ℤ_iff i j).1 (sym ((eqb_ℤ_iff j i).0 back))) e)
    | inr other ↦ rw (e, other) refl
  ]
]

-- No id is above the last value of the sequence.
pub find_courier_fresh :
    (n : ℕ) (cs : List Courier)
    → All (λ c. leb_ℤ c.id (pos n) ≡ true) cs
    → find_courier (pos (suc n)) cs ≡ none
find_courier_fresh n [] h = refl
find_courier_fresh n (c ∷ cs) (b, h) = elim (Bool-cases (has_id (pos (suc n)) c)) [
  | inl e ↦
      let above : leb_ℤ (pos (suc n)) (pos n) ≡ true =
        subst (λ x. leb_ℤ x (pos n) ≡ true) ((eqb_ℤ_iff c.id (pos (suc n))).0 e) b in
      absurd (omega (arith, leb→le (suc n + 0) (n + 0) above))
  | inr e ↦ rw e (find_courier_fresh n cs h)
]
