-- ===== src/DeliveryService.antt =====
-- The delivery service: internal/service/delivery (usecase.go, factory.go, contracts.go), over the
-- transactions of internal/repository/delivery.go. Logging is left out.
pub mod Constraints
pub mod Assignment
pub mod Release
pub mod Unassignment
pub mod Undo
pub mod Outcomes
pub mod Refusal
use service_courier_platform.Prelude.{
  ℕ, ◌+◌, ◌*◌, ℤ, pos, String, Bool, ◌==◌, Option, none, some, leb_ℤ, if◌then◌else◌, trim_space,
}
use service_courier_platform.Errors.{
  Err, sentinel, invalid, conflict, not_found, wrap, text, Result, ok, err,
}
use service_courier_platform.Domain.{
  Courier, Delivery, Time, CourierTransportType, AssignResult, UnassignResult, status_available,
  status_busy, transport_type_foot, transport_type_scooter, transport_type_car,
}
use service_courier_platform.Database.{Db, M, ◌>>=◌, ◌>>◌, return, fail}
use service_courier_platform.Repository.Deliveries.{
  with_tx, find_available_courier_for_update, insert_delivery, update_courier_status,
  get_by_order_id, delete_by_order_id, release_couriers,
}

-- Durations are nanoseconds, as in package time.
abbrev pub second : ℕ
second = 1000000000

abbrev pub minute : ℕ
minute = 60 * second

-- `TimeFactory`.
abbrev pub TimeFactory : Type 0
TimeFactory = CourierTransportType → Time → Result Time

-- `defaultTimeFactory.Deadline`.
unfoldable pub deadline : TimeFactory
deadline transport now =
    if transport == transport_type_foot
    then ok (now + 30 * minute)
    else if transport == transport_type_scooter
    then ok (now + 15 * minute)
    else if transport == transport_type_car
    then ok (now + 5 * minute)
    else err (text "unknown transport type")

-- The timeout that `NewDeliveryService` keeps.
unfoldable pub operation_timeout : ℤ → ℤ
operation_timeout timeout = if leb_ℤ timeout (pos 0) then pos (3 * second) else timeout

-- `validateOrderID`.
unfoldable pub validate_order_id : String → Result String
validate_order_id raw =
    let order_id = trim_space raw in if order_id == "" then err (sentinel invalid) else ok order_id

abbrev pub lift : {A : Type 0} → Result A → M A
lift r db = (r, db)

-- `buildAssign`.
abbrev pub build_delivery : Time → Time → String → Courier → Delivery
build_delivery now due order_id c = record {
  id = pos 0;
  courier_id = c.id;
  order_id = order_id;
  assigned_at = now;
  deadline = due;
}

abbrev pub build_result : Time → String → Courier → AssignResult
build_result due order_id c = record {
  courier_id = c.id;
  order_id = order_id;
  transport_type = c.transport_type;
  deadline = due;
}

module _ (factory : TimeFactory) (now : Time) where
  assign_to : String → Courier → M AssignResult
  assign_to order_id c = do
    due ← lift (factory c.transport_type now)
    insert_delivery (build_delivery now due order_id c)
    update_courier_status c.id status_busy
    return (build_result due order_id c)

  assign_found : String → Option Courier → M AssignResult
  assign_found order_id none = fail (sentinel conflict)
  assign_found order_id (some c) = assign_to order_id c

  -- The body that `Assign` runs in a transaction.
  unfoldable pub assign_body : String → M AssignResult
  unfolding assign_to assign_found
  assign_body order_id = do found ← find_available_courier_for_update; assign_found order_id found

  -- `Service.Assign`.
  unfoldable pub assign : String → M AssignResult
  assign raw = do order_id ← lift (validate_order_id raw); with_tx (assign_body order_id)

abbrev unassigned : String → Delivery → UnassignResult
unassigned order_id d = record {
  courier_id = d.courier_id;
  order_id = order_id;
  status = "unassigned";
}

unassign_found : String → Option Delivery → M UnassignResult
unassign_found order_id none = fail (sentinel not_found)
unassign_found order_id (some d) = do
  delete_by_order_id order_id
  update_courier_status d.courier_id status_available
  return (unassigned order_id d)

-- The body that `Unassign` runs in a transaction.
unfoldable pub unassign_body : String → M UnassignResult
unfolding unassign_found
unassign_body order_id = do found ← get_by_order_id order_id; unassign_found order_id found

-- `Service.Unassign`.
unfoldable pub unassign : String → M UnassignResult
unassign raw = do order_id ← lift (validate_order_id raw); with_tx (unassign_body order_id)

-- `Service.ReleaseExpired`.
unfoldable pub release_expired : Time → M (Unit {0})
release_expired now = do release_couriers now; return tt
