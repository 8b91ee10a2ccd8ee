-- ===== src/Examples/Events.antt =====
-- Order events and Kafka messages on a small office: internal/service/orders,
-- internal/transport/kafka and internal/app/kafka_orders.go.
use service_courier_platform.Prelude.{
  ℕ, suc, ◌+◌, ◌*◌, ◌≡◌, ◌↔◌, ◌⊎◌, refl, ℤ, pos, String, ◌==◌, false, Option, none, some, List, [],
  ◌∷◌, if◌then◌else◌,
}
use service_courier_platform.Errors.{Result, ok, err, text}
use service_courier_platform.Database.{Db}
use service_courier_platform.DeliveryService.{deadline, minute}
use service_courier_platform.Orders.{
  Event, delivery_port, handle, get, on_created, on_canceled, on_completed,
}
use service_courier_platform.Orders.Redelivery.{Completed, handle-Completed, Again, duplicate}
use service_courier_platform.Kafka.{
  EventDto, Message, Received, message, closed, consume_claim, consume_message, give_up, to_domain,
}
use service_courier_platform.Kafka.Delivery.{Trace, consume_claim-Trace}
use service_courier_platform.Worker.Messages.{worker, created-Again-give_up}
use service_courier_platform.Examples.{anna, noon, office}

abbrev completed_event : Event
completed_event = record { order_id = "order-2"; status = " Completed"; created_at = noon }

selects_completed : get completed_event.status ≡ some on_completed
unfolding get service_courier_platform.Prelude.to_lower service_courier_platform.Prelude.trim_space
selects_completed = refl

is_handled : (handle (delivery_port deadline noon) completed_event office).0 ≡ ok tt
unfolding handle get service_courier_platform.Prelude.to_lower
    service_courier_platform.Prelude.trim_space service_courier_platform.Orders.act
    service_courier_platform.Repository.Deliveries.with_tx service_courier_platform.Database.call
    service_courier_platform.Orders.complete_body
    service_courier_platform.Repository.Deliveries.get_by_order_id
    service_courier_platform.Repository.Deliveries.update_courier_status
is_handled = refl

handle-Completed_example :
    Completed "order-2" office (handle (delivery_port deadline noon) completed_event office).1
handle-Completed_example =
    handle-Completed deadline noon completed_event office selects_completed is_handled

-- A decoder of texts that are the order's id.
abbrev by_id : String → Result EventDto
by_id value =
    if value == "{"
    then err (text "unexpected end of JSON input")
    else ok (record { order_id = value; status = "created"; created_at = noon })

-- A handler that counts the events, and fails on one order.
abbrev counting : Event → ℕ → Result (Unit {0}) × ℕ
counting e n = (if e.order_id == "order-9" then err (text "database down") else ok tt, suc n)

abbrev inbox : List Received
inbox =
    message (record { offset = 4; value = "order-8" })
    ∷ message (record { offset = 5; value = "{" })
    ∷ message (record { offset = 6; value = "order-9" })
    ∷ closed
    ∷ []

consume_claim-Trace_example : Trace by_id counting inbox 0 (consume_claim by_id counting inbox 0)
consume_claim-Trace_example = consume_claim-Trace by_id counting inbox 0

abbrev again_message : Message
again_message = record { offset = 7; value = "order-2" }

abbrev again_dto : EventDto
again_dto = record { order_id = "order-2"; status = "created"; created_at = noon }

again : Again deadline noon (to_domain again_dto) office
unfolding to_domain get deadline service_courier_platform.Prelude.to_lower
    service_courier_platform.Prelude.trim_space
    service_courier_platform.Repository.Deliveries.first_available
again = record {
  healthy = refl;
  selects = refl;
  fits = refl;
  named = refl;
  assigned = refl;
  courier = anna;
  free = refl;
  due = noon + 5 * minute;
  in_time = refl;
}

order_named : ((to_domain again_dto).order_id == "") ≡ false
unfolding to_domain service_courier_platform.Prelude.trim_space
order_named = refl

created-Again-give_up_example :
    (consume_message by_id (worker deadline noon none) again_message office).0 ≡ give_up duplicate
created-Again-give_up_example =
    created-Again-give_up deadline noon by_id again_message again_dto office refl order_named again
