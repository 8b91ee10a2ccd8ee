-- ===== src/System.antt =====
-- The system as a whole: cmd/service-courier (the HTTP API and the ticker that releases couriers)
-- and cmd/worker (the Kafka consumer) on one database, whose calls may fail at any time. Each
-- request, event and tick is one step.
pub mod Formed
pub mod Updating
pub mod Reachability
pub mod Deadlines
pub mod Progress
use service_courier_platform.Prelude.{String, List, [], Option}
use service_courier_platform.Domain.{Time}
use service_courier_platform.Database.{Db, Fault}
use service_courier_platform.DeliveryService.{deadline, release_expired}
use service_courier_platform.Orders.{Event, delivery_port, handle}
use service_courier_platform.HttpModels.{
  CreateCourierRequest, UpdateCourierRequest, DeliveryRequest,
}
use service_courier_platform.Handlers.{RequestBody, create, update, assign, unassign}

-- The tables after the migrations.
abbrev pub migrated : Db
migrated = record {
  couriers = [];
  deliveries = [];
  last_courier = 0;
  last_delivery = 0;
  faults = [];
}

pub data Step (db : Db) : Db → Type 0 where
  post_courier : (body : RequestBody CreateCourierRequest) → Step db (create body db).1
  put_courier : (body : RequestBody UpdateCourierRequest) → Step db (update body db).1
  post_assign :
      (now : Time) (body : RequestBody DeliveryRequest) → Step db (assign deadline now body db).1
  post_unassign : (body : RequestBody DeliveryRequest) → Step db (unassign body db).1
  event : (now : Time) (e : Event) → Step db (handle (delivery_port deadline now) e db).1
  tick : (now : Time) → Step db (release_expired now db).1
  -- which of the next driver calls are going to fail
  outage : (faults : List (Option Fault)) → Step db (record db { faults = faults })

pub data Reachable : Db → Type 0 where
  begin : Reachable migrated
  next : {db after : Db} → Reachable db → Step db after → Reachable after
