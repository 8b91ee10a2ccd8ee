-- ===== src/Orders.antt =====
-- The processor of order events: internal/service/orders (processor.go, factory.go, event.go,
-- contracts.go).
pub mod Dispatch
pub mod Redelivery
pub mod Constraints
use service_courier_platform.Prelude.{
  String, ◌==◌, Option, none, some, List, [], ◌∷◌, if◌then◌else◌, trim_space, to_lower,
}
use service_courier_platform.Errors.{Sentinel, conflict, not_found, Result, ok, err, errors_is}
use service_courier_platform.Domain.{Delivery, Time, AssignResult, UnassignResult, status_available}
use service_courier_platform.Database.{Db, M, ◌>>=◌, return}
use service_courier_platform.Repository.Deliveries.{with_tx, get_by_order_id, update_courier_status}
use service_courier_platform.DeliveryService
use service_courier_platform.DeliveryService.{TimeFactory}

pub record Event : Type 0 where
  pub order_id : String
  pub status : String
  pub created_at : Time

-- `DeliveryPort`: what the processor needs of the delivery service.
pub record DeliveryPort : Type 0 where
  pub assign : String → M AssignResult
  pub unassign : String → M UnassignResult

-- The delivery service as such a port, at the time that its clock shows.
abbrev pub delivery_port : TimeFactory → Time → DeliveryPort
delivery_port factory now = record {
  assign = DeliveryService.assign factory now;
  unassign = DeliveryService.unassign;
}

-- The three actions of `actionFactory`.
pub data Action : Type 0 where
  on_created on_canceled on_completed : Action

-- The map that `newActionFactory` builds.
abbrev by_status : List (String × Action)
by_status =
    ("created", on_created)
    ∷ ("canceled", on_canceled)
    ∷ ("deleted", on_canceled)
    ∷ ("completed", on_completed)
    ∷ []

lookup : String → List (String × Action) → Option Action
lookup key [] = none
lookup key ((k, a) ∷ m) = if k == key then some a else lookup key m

-- `actionFactory.get`.
unfoldable pub get : String → Option Action
unfolding lookup
get status = lookup (to_lower (trim_space status)) by_status

-- `if errors.Is(err, …) { return nil }; return err`, with the result left out.
abbrev pub forgive : {A : Type 0} → Sentinel → Result A × Db → Result (Unit {0}) × Db
forgive s (ok a, db) = (ok tt, db)
forgive s (err e, db) = (if errors_is s e then ok tt else err e, db)

complete_found : Option Delivery → M (Unit {0})
complete_found none = return tt
complete_found (some d) = update_courier_status d.courier_id status_available

-- The body that `onCompleted` runs in a transaction.
unfoldable pub complete_body : String → M (Unit {0})
unfolding complete_found
complete_body order_id = do found ← get_by_order_id order_id; complete_found found

module _ (port : DeliveryPort) where
  -- `onCreated`, `onCanceled` and `onCompleted`.
  unfoldable pub act : Action → Event → M (Unit {0})
  act on_created e db = forgive conflict (port.assign e.order_id db)
  act on_canceled e db = forgive not_found (port.unassign e.order_id db)
  act on_completed e db = with_tx (complete_body e.order_id) db

  unfoldable pub run_action : Option Action → Event → M (Unit {0})
  run_action none e = return tt
  run_action (some a) e = act a e

  -- `Processor.Handle`.
  unfoldable pub handle : Event → M (Unit {0})
  unfolding run_action
  handle e = run_action (get e.status) e
