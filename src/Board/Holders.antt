-- ===== src/Board/Holders.antt =====
-- Deliveries found by their order, and what the writes of internal/repository do to the holders
-- of the board.
use service_courier_platform.Prelude.{
  any_of_In_true, ◌≡◌, ◌∙◌, sym, refl, String, true, false, not, ◌==◌, List, [], ◌∷◌, any, count,
  count-pos_of_any, keep, suc, In, none, some, some_inj, eq_iff, eq_refl, arith, Bool-cases,
  both_tests, inl, inr, ◌≤◌,
}
use service_courier_platform.Domain.{Delivery}
use service_courier_platform.Repository.Deliveries.{of_order, find_delivery}
use service_courier_platform.Board.{holder_in, held_by, SameAs}

pub find_delivery-any-false :
    (o : String) (ds : List Delivery) → any (of_order o) ds ≡ false → find_delivery o ds ≡ none
find_delivery-any-false o [] h = refl
find_delivery-any-false o (d ∷ ds) h = elim (Bool-cases (of_order o d)) [
  | inl e ↦ absurd (both_tests (rw e refl) h)
  | inr e ↦ rw e (find_delivery-any-false o ds (rw e at h))
]

-- A new row.
pub holders-cons :
    (d : Delivery) (ds : List Delivery)
    → SameAs
        (λ o. holder_in (find_delivery o (d ∷ ds)))
        (held_by d.order_id (some (d.courier_id, d.deadline)) (λ o. holder_in (find_delivery o ds)))
holders-cons d ds o = elim (Bool-cases (o == d.order_id)) [
  | inl e ↦
      let same : of_order o d ≡ true = (eq_iff d.order_id o).1 (sym ((eq_iff o d.order_id).0 e)) in
      rw (e, same) refl
  | inr e ↦ elim (Bool-cases (of_order o d)) [
    | inl same ↦
        absurd (both_tests ((eq_iff o d.order_id).1 (sym ((eq_iff d.order_id o).0 same))) e)
    | inr other ↦ rw (e, other) refl
  ]
]

apart :
    (d : Delivery) (o order : String)
    → of_order order d ≡ true
    → (o == order) ≡ false
    → of_order o d ≡ false
apart d o order e h = elim (Bool-cases (of_order o d)) [
  | inl k ↦ absurd (both_tests ((eq_iff o order).1 (sym ((eq_iff _ _).0 k) ∙ (eq_iff _ _).0 e)) h)
  | inr k ↦ k
]

differs :
    (d : Delivery) (o order : String)
    → of_order order d ≡ false
    → of_order o d ≡ true
    → (o == order) ≡ false
differs d o order e h = elim (Bool-cases (o == order)) [
  | inl k ↦
      absurd (both_tests ((eq_iff d.order_id order).1 ((eq_iff _ _).0 h ∙ (eq_iff _ _).0 k)) e)
  | inr k ↦ k
]

-- The rows of an order are gone.
pub holders-keep :
    (order : String) (ds : List Delivery)
    → SameAs
        (λ o. holder_in (find_delivery o (keep (λ d. not (of_order order d)) ds)))
        (held_by order none (λ o. holder_in (find_delivery o ds)))
holders-keep order [] o = ground arith
holders-keep order (d ∷ ds) o = elim (Bool-cases (of_order order d)) [
  | inl e ↦ elim (Bool-cases (o == order)) [
    | inl h ↦ rw e (rw (holders-keep order ds o, h) refl)
    | inr h ↦ rw e (rw (holders-keep order ds o, h, apart d o order e h) refl)
  ]
  | inr e ↦ elim (Bool-cases (of_order o d)) [
    | inl h ↦ rw (e, h) (rw (differs d o order e h) refl)
    | inr h ↦ rw (e, h) (holders-keep order ds o)
  ]
]

-- With unique orders, a delivery is found under its own.
pub find_delivery-In :
    (d : Delivery) (ds : List Delivery)
    → In d ds
    → count (of_order d.order_id) ds ≤ 1
    → find_delivery d.order_id ds ≡ some d
find_delivery-In d [] i u = absurd i
find_delivery-In d (x ∷ ds) (inl e) u = rw (← e, eq_refl d.order_id) refl
find_delivery-In d (x ∷ ds) (inr i) u = elim (Bool-cases (of_order d.order_id x)) [
  | inl e ↦
      let one : count (of_order d.order_id) (x ∷ ds) ≡ suc (count (of_order d.order_id) ds) =
        rw e refl in
      absurd (
        omega (
          arith,
          one,
          u,
          count-pos_of_any (of_order d.order_id) ds
              (any_of_In_true (of_order d.order_id) ds d i (eq_refl d.order_id)),
        ))
  | inr e ↦ rw e (find_delivery-In d ds i (rw e at u))
]

pub In-find_delivery :
    (o : String) (ds : List Delivery) (d : Delivery) → find_delivery o ds ≡ some d → In d ds
In-find_delivery o [] d h = cc
In-find_delivery o (x ∷ ds) d h = elim (Bool-cases (of_order o x)) [
  | inl e ↦ inl (sym (some_inj (rw e at h)))
  | inr e ↦ inr (In-find_delivery o ds d (rw e at h))
]
