-- ===== src/DeliveryService/Outcomes.antt =====
-- What Assign of internal/service/delivery/usecase.go answers when no driver call fails.
use service_courier_platform.Prelude.{
  ◌≡◌, refl, ◌∙◌, String, suc, pos, true, not, List, [], ◌∷◌, any, Option, none, some, Bool-cases,
  Option-cases, inl, inr, trim_space, text_length, ◌==◌, leb, if◌then◌else◌,
}
use service_courier_platform.Errors.{Result, ok, err, sentinel, conflict, invalid, pg, wrap}
use service_courier_platform.Domain.{Courier, Delivery, Time, AssignResult, status_busy}
use service_courier_platform.Database.{Db}
use service_courier_platform.Repository.{has_id, any-has_id-In}
use service_courier_platform.Repository.Deliveries.{of_order, first_available}
use service_courier_platform.Repository.Deliveries.Choice.{first_available-IsFirst}
use service_courier_platform.Repository.Deliveries.Healthy.{
  find_available_healthy, insert_taken, insert_long, insert_fresh, update_healthy,
}
use service_courier_platform.Repository.Deliveries.Transactions.{with_tx-no_faults}
use service_courier_platform.DeliveryService.{
  TimeFactory, build_delivery, build_result, validate_order_id, assign_to, assign_found,
  assign_body, assign,
}

module _ (factory : TimeFactory) (now : Time) where
  -- A description of the answer that reads the tables once.
  unfoldable pub place_answer : List Delivery → String → Courier → Result Time → Result AssignResult
  place_answer ds order_id c (err e) = err e
  place_answer ds order_id c (ok due) =
      if not (leb (text_length order_id) 255)
      then err (wrap "insert delivery" (pg "22001"))
      else if any (of_order order_id) ds
      then err (wrap "insert delivery" (pg "23505"))
      else ok (build_result due order_id c)

  unfoldable pub courier_answer : List Delivery → String → Option Courier → Result AssignResult
  courier_answer ds order_id none = err (sentinel conflict)
  courier_answer ds order_id (some c) = place_answer ds order_id c (factory c.transport_type now)

  unfoldable pub assign_answer : Db → String → Result AssignResult
  unfolding place_answer courier_answer
  assign_answer db raw =
      if trim_space raw == ""
      then err (sentinel invalid)
      else courier_answer db.deliveries (trim_space raw) (first_available db.deliveries db.couriers)

  place_healthy :
      (db : Db) (order_id : String) (c : Courier) (due : Result Time)
      → db.faults ≡ []
      → any (has_id c.id) db.couriers ≡ true
      → factory c.transport_type now ≡ due
      → ((assign_to factory now order_id c db).0 ≡ place_answer db.deliveries order_id c due)
        × ((assign_to factory now order_id c db).1.faults ≡ [])
  unfolding assign_to place_answer
  place_healthy db order_id c (err e) healthy owned t = rw t (refl, healthy)
  place_healthy db order_id c (ok due) healthy owned t =
      let d = build_delivery now due order_id c in
      elim (Bool-cases (leb (text_length order_id) 255)) [
        | inr long ↦ rw (t, insert_long db healthy d long, long) (refl, healthy)
        | inl fits ↦ elim (Bool-cases (any (of_order order_id) db.deliveries)) [
          | inl taken ↦ rw (t, insert_taken db healthy d fits taken, fits, taken) (refl, healthy)
          | inr fresh ↦
              let next = record db {
                deliveries = record d { id = pos (suc db.last_delivery) } ∷ db.deliveries;
                last_delivery = suc db.last_delivery;
              } in
              rw
                (
                  t,
                  insert_fresh db healthy d fits fresh owned,
                  update_healthy next healthy c.id status_busy refl owned,
                  fits,
                  fresh,
                )
                (refl, healthy)
        ]
      ]

  body_healthy :
      (db : Db) (order_id : String)
      → db.faults ≡ []
      → ((assign_body factory now order_id db).0
          ≡ courier_answer db.deliveries order_id (first_available db.deliveries db.couriers))
        × ((assign_body factory now order_id db).1.faults ≡ [])
  unfolding assign_body assign_found courier_answer
  body_healthy db order_id healthy =
      elim (Option-cases (first_available db.deliveries db.couriers)) [
        | inl e ↦ rw (find_available_healthy db healthy, e) (refl, healthy)
        | inr (c, e) ↦
            rw (find_available_healthy db healthy, e)
              (place_healthy db order_id c (factory c.transport_type now) healthy
                (any-has_id-In db.couriers c
                  (first_available-IsFirst db.deliveries db.couriers e).listed)
                refl)
      ]

  -- With a driver that works `Assign` is total, and its answer is decided by the trimmed order id,
  -- the first available courier, the deadline of that courier's transport, the length of the
  -- order id and whether the order has a delivery already, in this order: ErrInvalid for an
  -- empty id, ErrConflict where no courier is available, the factory's error, PostgreSQL's errors
  -- 22001 and 23505 under "insert delivery", and else the assignment.
  pub assign-answer :
      (db : Db) (raw : String)
      → db.faults ≡ []
      → (assign factory now raw db).0 ≡ assign_answer db raw
  unfolding assign assign_answer validate_order_id
  assign-answer db raw healthy = elim (Bool-cases (trim_space raw == "")) [
    | inl e ↦ rw e
    | inr e ↦
        let (answer, drained) = body_healthy db (trim_space raw) healthy in
        rw e
          (with_tx-no_faults (assign_body factory now (trim_space raw)) db healthy drained ∙ answer)
  ]
