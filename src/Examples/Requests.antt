-- ===== src/Examples/Requests.antt =====
-- Requests to the HTTP handlers, and a short life of the system: internal/http/handlers.
use service_courier_platform.Prelude.{true}
use service_courier_platform.Database.{Db}
use service_courier_platform.DeliveryService.{deadline}
use service_courier_platform.HttpModels.{CreateCourierRequest, DeliveryRequest}
use service_courier_platform.Handlers.{RequestBody, value, create, assign}
use service_courier_platform.System.{Reachable, begin, next, post_courier, post_assign, migrated}
use service_courier_platform.System.Reachability.{IsSound, Reachable-IsSound}
use service_courier_platform.Examples.{noon}

abbrev pub clara_body : RequestBody CreateCourierRequest
clara_body = record {
  first = value (record {
    name = "Clara";
    phone = "+79990000003";
    status = "available";
    transport_type = "scooter";
  });
  at_end = true;
}

abbrev pub order_body : RequestBody DeliveryRequest
order_body = record { first = value (record { order_id = "order-2" }); at_end = true }

-- A courier registers and gets an order.
abbrev pub served_office : Db
served_office = (assign deadline noon order_body (create clara_body migrated).1).1

pub served_office-Reachable : Reachable served_office
served_office-Reachable = next (next begin (post_courier clara_body)) (post_assign noon order_body)

Reachable-IsSound_example : IsSound served_office
Reachable-IsSound_example = Reachable-IsSound served_office-Reachable
