-- ===== src/DeliveryService/Undo.antt =====
-- Unassign of internal/service/delivery/usecase.go undoes Assign.
use mathlib.Core.Path.{ap₂}
use service_courier_platform.Prelude.{
  both_tests, some_inj, ◌≡◌, refl, ◌∙◌, sym, ap, subst, String, false, not, List, [], ◌∷◌, map, any,
  keep, count, some, Bool-cases, inl, inr, arith, ◌≤◌, eq_refl, eq_iff, eqb_ℤ_refl,
  count-pos_of_any, In, suc,
}
use service_courier_platform.Errors.{ok}
use service_courier_platform.Domain.{
  Courier, Delivery, Time, AssignResult, UnassignResult, status_busy, status_available,
}
use service_courier_platform.Database.{Db}
use service_courier_platform.Database.Calls.{SameTables}
use service_courier_platform.Repository.{has_id, any-has_id-In}
use service_courier_platform.Repository.Valid.{restatus, IsValid}
use service_courier_platform.Repository.Deliveries.{of_order, find_delivery}
use service_courier_platform.DeliveryService.{TimeFactory, unassign, assign}
use service_courier_platform.DeliveryService.Assignment.{assign_ok, Assigned}
use service_courier_platform.DeliveryService.Unassignment.{unassign_ok, Unassigned}
use service_courier_platform.DeliveryService.{build_delivery}

-- Removing what was added.
keep_none :
    (o : String) (ds : List Delivery)
    → any (of_order o) ds ≡ false
    → keep (λ d. not (of_order o d)) ds ≡ ds
keep_none o [] h = refl
keep_none o (d ∷ ds) h = ground (arith, keep_none o ds)

keep_cons :
    (o : String) (d : Delivery) (ds : List Delivery)
    → d.order_id ≡ o
    → any (of_order o) ds ≡ false
    → keep (λ e. not (of_order o e)) (d ∷ ds) ≡ ds
keep_cons o d ds e h = rw (e, eq_refl o) (keep_none o ds h)

first_row :
    (o : String) (d : Delivery) (ds : List Delivery)
    → d.order_id ≡ o
    → find_delivery o (d ∷ ds) ≡ some d
first_row o d ds e = rw (e, eq_refl o)

-- Writing `busy` and then `available` at the id of an available courier.
module _ (c : Courier) where
  abbrev there_and_back : List Courier → List Courier
  there_and_back cs =
      map (restatus (has_id c.id) status_available) (map (restatus (has_id c.id) status_busy) cs)

  back_absent : (cs : List Courier) → any (has_id c.id) cs ≡ false → there_and_back cs ≡ cs
  back_absent [] h = refl
  back_absent (x ∷ xs) h =
      let (other, rest) = not_any x xs h in rw (other, other, back_absent xs rest)
    where
      not_any :
          (x : Courier) (xs : List Courier)
          → any (has_id c.id) (x ∷ xs) ≡ false
          → (has_id c.id x ≡ false) × (any (has_id c.id) xs ≡ false)
      not_any x xs h = ground arith

  written_back :
      c.status ≡ status_available
      → restatus (has_id c.id) status_available (restatus (has_id c.id) status_busy c) ≡ c
  written_back a = rw (eqb_ℤ_refl c.id, eqb_ℤ_refl c.id) (λ i. record c { status = sym a i })

  no_more : (xs : List Courier) → suc (count (has_id c.id) xs) ≤ 1 → any (has_id c.id) xs ≡ false
  no_more xs h = elim (Bool-cases (any (has_id c.id) xs)) [
    | inl e ↦ absurd (omega (arith, h, count-pos_of_any (has_id c.id) xs e))
    | inr e ↦ e
  ]

  back_present :
      (cs : List Courier)
      → c.status ≡ status_available
      → count (has_id c.id) cs ≤ 1
      → In c cs
      → there_and_back cs ≡ cs
  back_present [] a u i = refl
  back_present (x ∷ xs) a u (inl e) =
      let at_c : count (has_id c.id) (c ∷ xs) ≤ 1 =
        subst (λ y. count (has_id c.id) (y ∷ xs) ≤ 1) (sym e) u in
      let one : suc (count (has_id c.id) xs) ≤ 1 = rw (eqb_ℤ_refl c.id) at at_c in
      subst (λ y. there_and_back (y ∷ xs) ≡ y ∷ xs) e
        (ap₂ ◌∷◌ (written_back a) (back_absent xs (no_more xs one)))
  back_present (x ∷ xs) a u (inr i) = elim (Bool-cases (has_id c.id x)) [
    | inl e ↦
        let one : suc (count (has_id c.id) xs) ≤ 1 = rw e at u in
        absurd (both_tests (any-has_id-In xs c i) (no_more xs one))
    | inr e ↦
        let rest : count (has_id c.id) xs ≤ 1 = rw e at u in
        rw (e, e) (ap (λ ys. x ∷ ys) (back_present xs a rest i))
  ]

module _ {factory : TimeFactory} {now : Time} {order_id : String} where
  undone :
      {before mid after : Db} {r : AssignResult} {s : UnassignResult}
      → IsValid before
      → Assigned factory now order_id before mid r
      → Unassigned order_id mid after s
      → SameTables after before
  undone {before} {mid} v a u =
      let row = record (build_delivery now a.due order_id a.courier) { id = a.row_id } in
      let same_row : u.delivery ≡ row = some_inj (
        sym u.found
        ∙ ap (find_delivery order_id) a.recorded
        ∙ first_row order_id row before.deliveries refl) in
      let same_id : u.delivery.courier_id ≡ a.courier.id = ap (λ d. d.courier_id) same_row in
      let available : a.courier.status ≡ status_available =
        (eq_iff a.courier.status status_available).0 a.chosen.available in
      record {
        couriers =
            u.freed
            ∙ ap (λ i. map (restatus (has_id i) status_available) mid.couriers) same_id
            ∙ ap (map (restatus (has_id a.courier.id) status_available)) a.busy
            ∙ back_present a.courier before.couriers available (v.ids a.courier.id) a.chosen.listed;
        deliveries =
            u.removed
            ∙ ap (keep (λ d. not (of_order order_id d))) a.recorded
            ∙ keep_cons order_id row before.deliveries refl a.fresh;
      }

-- In a database whose constraints hold, an assignment that is taken back leaves both tables as
-- they were, when both calls return results.
pub unassign-assign :
    (factory : TimeFactory) (now : Time) (raw : String) (db : Db) {r : AssignResult}
    {s : UnassignResult}
    → IsValid db
    → (assign factory now raw db).0 ≡ ok r
    → (unassign raw (assign factory now raw db).1).0 ≡ ok s
    → SameTables (unassign raw (assign factory now raw db).1).1 db
unassign-assign factory now raw db v h k =
    undone v (assign_ok factory now raw db h).1 (unassign_ok raw (assign factory now raw db).1 k).1
