-- ===== src/Worker.antt =====
-- The worker's handler of an event: internal/app/kafka_orders.go.
pub mod Messages
pub mod Consumed
use service_courier_platform.Prelude.{String, Option, none, some}
use service_courier_platform.Errors.{Result, ok, err}
use service_courier_platform.Gateway.{Order}
use service_courier_platform.Orders.{Event}

-- The gateway's view of the order replaces what the event says of it.
abbrev pub refresh : Order → Event → Event
refresh o e = record e { status = o.status; created_at = o.created_at }

module _ {S : Type 0} (handle : Event → S → Result (Unit {0}) × S) where
  looked_up : Result (Option Order) → Event → S → Result (Unit {0}) × S
  looked_up (err x) e s = (err x, s)
  looked_up (ok none) e s = (ok tt, s)
  looked_up (ok (some o)) e s = handle (refresh o e) s

  -- `makeOrdersKafka`, with the gateway where there is one.
  unfoldable pub make_orders_kafka :
      Option (String → Result (Option Order)) → Event → S → Result (Unit {0}) × S
  unfolding looked_up
  make_orders_kafka none e s = handle e s
  make_orders_kafka (some get_by_id) e s = looked_up (get_by_id e.order_id) e s
