-- ===== src/Worker/Messages.antt =====
-- The worker from end to end: a Kafka message, the gateway, the processor and the database
-- (internal/transport/kafka/consumer.go, internal/app/kafka_orders.go,
-- internal/service/orders/processor.go).
use service_courier_platform.Prelude.{String, ◌≡◌, refl, ◌∙◌, ap, false, Option, none, some, ◌==◌}
use service_courier_platform.Errors.{err_inj, Result, ok, err, is_permanent}
use service_courier_platform.Domain.{Time}
use service_courier_platform.Database.{Db}
use service_courier_platform.Gateway.{Order}
use service_courier_platform.DeliveryService.{TimeFactory}
use service_courier_platform.Orders.{Event, delivery_port, handle}
use service_courier_platform.Orders.Redelivery.{Again, duplicate, handle_created-Again}
use service_courier_platform.Kafka.{
  EventDto, Message, give_up, to_domain, consume_message, judge, decoded,
}
use service_courier_platform.Worker.{make_orders_kafka, looked_up}

-- The worker's handler with its parts in place.
abbrev pub worker :
    TimeFactory
    → Time
    → Option (String → Result (Option Order))
    → Event
    → Db
    → Result (Unit {0}) × Db
worker factory now gateway = make_orders_kafka (handle (delivery_port factory now)) gateway

module _ (factory : TimeFactory) (now : Time) (unmarshal : String → Result EventDto) where
  judged :
      (o : Result (Unit {0}) × Db)
      → o.0 ≡ err duplicate
      → is_permanent duplicate ≡ false
      → (judge unmarshal (worker factory now none) o).0 ≡ give_up duplicate
  unfolding judge
  judged (ok x, d) h p = cc
  judged (err x, d) h p = let same : x ≡ duplicate = err_inj h in rw (same, p)

  -- A message that decodes to a `created` event with an order id, for an order that has a
  -- delivery already, makes the consumer of a worker without a gateway give up with the
  -- database's unique violation, and not mark it, when an available courier has a deadline and
  -- every driver call works.
  pub created-Again-give_up :
      (msg : Message) (dto : EventDto) (db : Db)
      → unmarshal msg.value ≡ ok dto
      → ((to_domain dto).order_id == "") ≡ false
      → Again factory now (to_domain dto) db
      → (consume_message unmarshal (worker factory now none) msg db).0 ≡ give_up duplicate
  unfolding consume_message make_orders_kafka
  created-Again-give_up msg dto db u named a =
      let (answer, temporary) = handle_created-Again factory now (to_domain dto) db a in
      rw (u, decoded, named) (judged (worker factory now none (to_domain dto) db) answer temporary)

-- With a gateway, what the message says of the order's status and time plays no part.
pub make_orders_kafka-gateway :
    {S : Type 0} (handler : Event → S → Result (Unit {0}) × S)
    (get_by_id : String → Result (Option Order)) (e f : Event) (s : S)
    → e.order_id ≡ f.order_id
    → make_orders_kafka handler (some get_by_id) e s
      ≡ make_orders_kafka handler (some get_by_id) f s
unfolding make_orders_kafka
make_orders_kafka-gateway handler get_by_id e f s same =
    ap (λ i. looked_up handler (get_by_id i) e s) same ∙ refreshed (get_by_id f.order_id)
  where
    refreshed : (a : Result (Option Order)) → looked_up handler a e s ≡ looked_up handler a f s
    refreshed (err x) = refl
    refreshed (ok none) = refl
    refreshed (ok (some o)) =
        ap (λ i. handler (record { order_id = i; status = o.status; created_at = o.created_at }) s)
          same
