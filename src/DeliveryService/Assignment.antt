-- ===== src/DeliveryService/Assignment.antt =====
-- What Assign of internal/service/delivery/usecase.go has done when it returns a result.
use mathlib.Core.Path.{ap₂}
use service_courier_platform.Prelude.{
  both_tests, ◌≡◌, ◌∙◌, sym, ap, subst, String, ℤ, false, ◌∷◌, map, any, Option, none, some,
  Bool-cases, inl, inr, trim_space, ◌≢◌, ◌==◌, eq_iff,
}
use service_courier_platform.Errors.{err_ok, ok_inj, ok}
use service_courier_platform.Domain.{Courier, Time, AssignResult, status_busy}
use service_courier_platform.Database.{Db, M, call, ◌>>◌, return}
use service_courier_platform.Database.Calls.{SameData, call-SameData, SameData-refl, after-eq-ok}
use service_courier_platform.Repository.{has_id}
use service_courier_platform.Repository.Valid.{restatus}
use service_courier_platform.Repository.Deliveries.{
  of_order, first_available, with_tx, find_available_courier_for_update, insert_delivery,
  update_courier_status,
}
use service_courier_platform.Repository.Deliveries.Choice.{IsFirst, first_available-IsFirst}
use service_courier_platform.Repository.Deliveries.Effects.{
  insert_delivery_ok, update_courier_status_ok,
}
use service_courier_platform.Repository.Deliveries.Queries.{find_available_courier_for_update_ok}
use service_courier_platform.Repository.Deliveries.Transactions.{with_tx_commits}
use service_courier_platform.DeliveryService.{
  TimeFactory, lift, build_delivery, build_result, validate_order_id, assign_to, assign_found,
  assign_body, assign,
}

first_available-same :
    {a b : Db}
    → SameData a b
    → first_available a.deliveries a.couriers ≡ first_available b.deliveries b.couriers
first_available-same s = ap₂ first_available s.deliveries s.couriers

pub validate_order_id_ok :
    (raw : String) {o : String}
    → validate_order_id raw ≡ ok o
    → (trim_space raw ≢ "") × (o ≡ trim_space raw)
unfolding validate_order_id
validate_order_id_ok raw h = elim (Bool-cases (trim_space raw == "")) [
  | inl e ↦ absurd (err_ok (rw e at h))
  | inr e ↦ (λ z. absurd (both_tests ((eq_iff _ _).1 z) (e)), ok_inj (sym (rw e at h)))
]

module _ (factory : TimeFactory) (now : Time) where
  -- The least loaded available courier got the order, and nothing else happened.
  pub record Assigned (order_id : String) (before after : Db) (r : AssignResult) : Type 0 where
    pub courier : Courier
    pub due : Time
    pub row_id : ℤ
    pub result : r ≡ build_result due order_id courier
    pub chosen : IsFirst before.deliveries before.couriers courier
    pub in_time : factory courier.transport_type now ≡ ok due
    pub fresh : any (of_order order_id) before.deliveries ≡ false
    pub recorded :
        after.deliveries
        ≡ record (build_delivery now due order_id courier) { id = row_id } ∷ before.deliveries
    pub busy : after.couriers ≡ map (restatus (has_id courier.id) status_busy) before.couriers

  pub Assigned-same :
      {order_id : String} {start before end finish : Db} {r : AssignResult}
      → SameData start before
      → SameData finish end
      → Assigned order_id start end r
      → Assigned order_id before finish r
  Assigned-same {order_id} {start} {before} s t a = record {
    courier = a.courier;
    due = a.due;
    row_id = a.row_id;
    result = a.result;
    chosen =
        subst (λ ds. IsFirst ds before.couriers a.courier) s.deliveries
          (subst (λ cs. IsFirst start.deliveries cs a.courier) s.couriers a.chosen);
    in_time = a.in_time;
    fresh = ap (any (of_order order_id)) (sym s.deliveries) ∙ a.fresh;
    recorded =
        t.deliveries
        ∙ a.recorded
        ∙ ap (λ ds. record (build_delivery now a.due order_id a.courier) { id = a.row_id } ∷ ds)
            s.deliveries;
    busy = t.couriers ∙ a.busy ∙ ap (map (restatus (has_id a.courier.id) status_busy)) s.couriers;
  }

  -- The two writes, and the result.
  place : Time → String → Courier → M AssignResult
  place due order_id c = do
    insert_delivery (build_delivery now due order_id c)
    update_courier_status c.id status_busy
    return (build_result due order_id c)

  place_ok :
      (due : Time) (order_id : String) (c : Courier) (db : Db) {r : AssignResult}
      → IsFirst db.deliveries db.couriers c
      → factory c.transport_type now ≡ ok due
      → (place due order_id c db).0 ≡ ok r
      → Assigned order_id db (place due order_id c db).1 r
  unfolding place
  place_ok due order_id c db {r} f t h =
      let d = build_delivery now due order_id c in
      let res = build_result due order_id c in
      let rest = update_courier_status c.id status_busy >> return res in
      let (id, put, ran) = after-eq-ok (insert_delivery d db) (λ _. rest) h in
      let mid = (insert_delivery d db).1 in
      let (u, set, end) =
        after-eq-ok (update_courier_status c.id status_busy mid) (λ _. return res)
          (ap (λ o. o.0) (sym ran) ∙ h) in
      let i = insert_delivery_ok d db put in
      let b = update_courier_status_ok c.id status_busy mid set in
      let done = ran ∙ end in
      subst (λ o. Assigned order_id db o.1 r) (sym done)
        (record {
          courier = c;
          due = due;
          row_id = i.id;
          result = ok_inj (sym h ∙ ap (λ o. o.0) done);
          chosen = f;
          in_time = t;
          fresh = i.fresh;
          recorded = b.deliveries ∙ i.deliveries;
          busy = b.couriers ∙ ap (map (restatus (has_id c.id) status_busy)) i.couriers;
        })

  assign_found_ok :
      (order_id : String) (found : Option Courier) (db : Db) {r : AssignResult}
      → found ≡ first_available db.deliveries db.couriers
      → (assign_found factory now order_id found db).0 ≡ ok r
      → Assigned order_id db (assign_found factory now order_id found db).1 r
  unfolding assign_found assign_to place
  assign_found_ok order_id none db f h = cc
  assign_found_ok order_id (some c) db {r} f h =
      let (due, t, ran) =
        after-eq-ok (lift (factory c.transport_type now) db) (λ due. place due order_id c) h in
      subst (λ o. Assigned order_id db o.1 r) (sym ran)
        (place_ok due order_id c db (first_available-IsFirst db.deliveries db.couriers (sym f)) t
          (ap (λ o. o.0) (sym ran) ∙ h))

  pub assign_body_ok :
      (order_id : String) (db : Db) {r : AssignResult}
      → (assign_body factory now order_id db).0 ≡ ok r
      → Assigned order_id db (assign_body factory now order_id db).1 r
  unfolding assign_body
  assign_body_ok order_id db {r} h =
      let (found, looked, ran) =
        after-eq-ok (find_available_courier_for_update db) (assign_found factory now order_id) h in
      let (row, same) = find_available_courier_for_update_ok db looked in
      let mid = (find_available_courier_for_update db).1 in
      subst (λ o. Assigned order_id db o.1 r) (sym ran)
        (Assigned-same same (SameData-refl _) (
          assign_found_ok order_id found mid (row ∙ sym (first_available-same same))
            (ap (λ o. o.0) (sym ran) ∙ h)))

  -- When `Assign` returns a result, the trimmed order id is not empty; a courier was available, and
  -- of those the one with the fewest deliveries and then the least id was chosen; the order had no
  -- delivery and now has one, of that courier and with the deadline that the factory gives for its
  -- transport; the courier is busy; and no other row has changed.
  pub assign_ok :
      (raw : String) (db : Db) {r : AssignResult}
      → (assign factory now raw db).0 ≡ ok r
      → (trim_space raw ≢ "") × Assigned (trim_space raw) db (assign factory now raw db).1 r
  unfolding assign
  assign_ok raw db {r} h =
      let (order_id, valid, ran) =
        after-eq-ok (lift (validate_order_id raw) db) (λ o. with_tx (assign_body factory now o))
          h in
      let (nonempty, trimmed) = validate_order_id_ok raw valid in
      let (done, kept) =
        with_tx_commits (assign_body factory now order_id) db (ap (λ o. o.0) (sym ran) ∙ h) in
      (
        nonempty,
        subst (λ o. Assigned o db (assign factory now raw db).1 r) trimmed
            (subst (λ o. Assigned order_id db o.1 r) (sym ran)
              (Assigned-same (call-SameData db) kept (assign_body_ok order_id (call db).1 done))),
      )
