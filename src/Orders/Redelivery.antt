-- ===== src/Orders/Redelivery.antt =====
-- Events that are delivered more than once, or late: internal/service/orders/processor.go.
use service_courier_platform.Prelude.{
  String, ◌≡◌, ◌⊎◌, refl, ◌∙◌, sym, ap, subst, true, false, [], map, any, Option, none, some, leb,
  text_length, ◌==◌, trim_space, inl, inr,
}
use service_courier_platform.Errors.{
  err_inj, Err, conflict, wrap, pg, Result, ok, err, errors_is, is_permanent,
}
use service_courier_platform.Domain.{Courier, Delivery, Time, status_available}
use service_courier_platform.Database.{Db, call}
use service_courier_platform.Database.Calls.{SameData, SameData-refl, after-eq-ok, call-SameData}
use service_courier_platform.Repository.{has_id}
use service_courier_platform.Repository.Valid.{restatus}
use service_courier_platform.Repository.Deliveries.{
  with_tx, of_order, find_delivery, first_available, get_by_order_id,
}
use service_courier_platform.Repository.Deliveries.Effects.{update_courier_status_ok}
use service_courier_platform.Repository.Deliveries.Queries.{get_by_order_id_ok}
use service_courier_platform.Repository.Deliveries.Transactions.{with_tx_commits}
use service_courier_platform.DeliveryService.{TimeFactory, assign}
use service_courier_platform.DeliveryService.Outcomes.{assign_answer, assign-answer}
use service_courier_platform.Orders.{
  Event, delivery_port, on_created, on_completed, get, act, handle, forgive, complete_body,
  complete_found, run_action,
}

-- What the redelivery of an assignment meets.
pub record Again (factory : TimeFactory) (now : Time) (e : Event) (db : Db) : Type 0 where
  pub healthy : db.faults ≡ []
  pub selects : get e.status ≡ some on_created
  pub fits : leb (text_length (trim_space e.order_id)) 255 ≡ true
  pub named : (trim_space e.order_id == "") ≡ false
  pub assigned : any (of_order (trim_space e.order_id)) db.deliveries ≡ true
  pub courier : Courier
  pub free : first_available db.deliveries db.couriers ≡ some courier
  pub due : Time
  pub in_time : factory courier.transport_type now ≡ ok due

abbrev pub duplicate : Err
duplicate = wrap "insert delivery" (pg "23505")

assign-Again :
    (factory : TimeFactory) (now : Time) (e : Event) (db : Db)
    → Again factory now e db
    → assign_answer factory now db e.order_id ≡ err duplicate
unfolding assign_answer
assign-Again factory now e db a = rw (a.named, a.free, a.in_time, a.fits, a.assigned)

-- A `created` event for an order that has a delivery already, while some courier is available,
-- fails with an error that the consumer takes for a temporary one.
pub handle_created-Again :
    (factory : TimeFactory) (now : Time) (e : Event) (db : Db)
    → Again factory now e db
    → ((handle (delivery_port factory now) e db).0 ≡ err duplicate)
      × (is_permanent duplicate ≡ false)
unfolding handle run_action act is_permanent errors_is
handle_created-Again factory now e db a = rw a.selects (
  forgiven (assign factory now e.order_id db)
      (assign-answer factory now db e.order_id a.healthy ∙ assign-Again factory now e db a),
  refl,
)
  where
    forgiven :
        {A : Type 0} (o : Result A × Db)
        → o.0 ≡ err duplicate
        → (forgive conflict o).0 ≡ err duplicate
    forgiven (ok x, d) h = cc
    forgiven (err x, d) h = let same : x ≡ duplicate = err_inj h in rw same

-- The effect of a completed order.
pub record Completed (order_id : String) (before after : Db) : Type 0 where
  pub deliveries : after.deliveries ≡ before.deliveries
  pub couriers :
      ((find_delivery order_id before.deliveries ≡ none) × (after.couriers ≡ before.couriers))
      ⊎ ((d : Delivery) × (find_delivery order_id before.deliveries ≡ some d)
          × (after.couriers
              ≡ map (restatus (has_id d.courier_id) status_available) before.couriers))

complete_found_ok :
    (order_id : String) (found : Option Delivery) (db : Db) {u : Unit {0}}
    → found ≡ find_delivery order_id db.deliveries
    → (complete_found found db).0 ≡ ok u
    → Completed order_id db (complete_found found db).1
unfolding complete_found
complete_found_ok order_id none db f h = record { deliveries = refl; couriers = inl (sym f, refl) }
complete_found_ok order_id (some d) db f h =
    let s = update_courier_status_ok d.courier_id status_available db h in
    record { deliveries = s.deliveries; couriers = inr (d, sym f, s.couriers) }

pub Completed-same :
    {order_id : String} {start before end finish : Db}
    → SameData start before
    → SameData finish end
    → Completed order_id start end
    → Completed order_id before finish
Completed-same {order_id} s t c = record {
  deliveries = t.deliveries ∙ c.deliveries ∙ s.deliveries;
  couriers = elim c.couriers [
    | inl (gone, same) ↦
        inl (ap (find_delivery order_id) (sym s.deliveries) ∙ gone, t.couriers ∙ same ∙ s.couriers)
    | inr (d, found, set) ↦ inr (
      d,
      ap (find_delivery order_id) (sym s.deliveries) ∙ found,
      t.couriers ∙ set ∙ ap (map (restatus (has_id d.courier_id) status_available)) s.couriers,
    )
  ];
}

pub complete_body_ok :
    (order_id : String) (db : Db) {u : Unit {0}}
    → (complete_body order_id db).0 ≡ ok u
    → Completed order_id db (complete_body order_id db).1
unfolding complete_body
complete_body_ok order_id db h =
    let (found, looked, ran) = after-eq-ok (get_by_order_id order_id db) complete_found h in
    let (row, same) = get_by_order_id_ok order_id db looked in
    let mid = (get_by_order_id order_id db).1 in
    subst (λ o. Completed order_id db o.1) (sym ran)
      (Completed-same same (SameData-refl _) (
        complete_found_ok order_id found mid
          (row ∙ sym (ap (find_delivery order_id) same.deliveries)) (ap (λ o. o.0) (sym ran) ∙ h)))

-- The transaction of `onCompleted`, when it commits.
pub complete_ok :
    (order_id : String) (db : Db) {u : Unit {0}}
    → (with_tx (complete_body order_id) db).0 ≡ ok u
    → Completed order_id db (with_tx (complete_body order_id) db).1
complete_ok order_id db h =
    let (done, kept) = with_tx_commits (complete_body order_id) db h in
    Completed-same (call-SameData db) kept (complete_body_ok order_id (call db).1 done)

-- A `completed` event that is handled with no error leaves every delivery in place, the one of
-- its order included; that delivery's courier is available, and no other courier has changed.
pub handle-Completed :
    (factory : TimeFactory) (now : Time) (e : Event) (db : Db) {u : Unit {0}}
    → get e.status ≡ some on_completed
    → (handle (delivery_port factory now) e db).0 ≡ ok u
    → Completed e.order_id db (handle (delivery_port factory now) e db).1
unfolding handle run_action act
handle-Completed factory now e db {u} s h =
    subst (λ a. Completed e.order_id db (run_action (delivery_port factory now) a e db).1) (sym s)
      (completed (ap (λ a. (run_action (delivery_port factory now) a e db).0) (sym s) ∙ h))
  where
    completed :
        (run_action (delivery_port factory now) (some on_completed) e db).0 ≡ ok u
        → Completed e.order_id db
            (run_action (delivery_port factory now) (some on_completed) e db).1
    completed k = complete_ok e.order_id db k
