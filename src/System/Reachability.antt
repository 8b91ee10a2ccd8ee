-- ===== src/System/Reachability.antt =====
-- What holds in every database that the system can reach, whatever requests and events come and
-- whichever driver calls fail.
use service_courier_platform.Prelude.{
  Bool, true, false, if◌then◌else◌, arith, ℕ, refl, String, ◌⊎◌, inl, inr, some,
}
use service_courier_platform.Errors.{sentinel, not_found, Result}
use service_courier_platform.Domain.{PartialCourierUpdate, Courier, Time}
use service_courier_platform.Database.{return, fail, Db, M}
use service_courier_platform.Database.Keeps.{then-Keeps, Keeps, bind-Keeps}
use service_courier_platform.Repository.Valid.{SameData-ValidAt, ValidAt, IsValid}
use service_courier_platform.Repository.Couriers.Insertion.{IsValid-at}
use service_courier_platform.Repository.Couriers.Constraints.{
  create-IsValid, update_partial-IsValid,
}
use service_courier_platform.DeliveryService
use service_courier_platform.DeliveryService.{minute, deadline, release_expired}
use service_courier_platform.DeliveryService.Constraints.{
  assign-Keeps, unassign-Keeps, release_expired-Keeps,
}
use service_courier_platform.Orders.{Event, handle, delivery_port}
use service_courier_platform.Orders.Constraints.{handle-Keeps, complete-Keeps}
use service_courier_platform.CourierService
use service_courier_platform.CourierService.{validate_create, validate_update}
use service_courier_platform.HttpModels.{
  Response, CreateCourierRequest, UpdateCourierRequest, DeliveryRequest, create_to_model,
  update_to_model,
}
use service_courier_platform.Handlers.{
  decode_json, create, create_with, update, update_with, assign, assign_with, unassign,
  unassign_with,
}
use service_courier_platform.System.{
  Step, post_courier, put_courier, post_assign, post_unassign, event, tick, outage, Reachable,
  begin, next, migrated,
}
use service_courier_platform.System.Updating.{update-Formed}
use service_courier_platform.System.Formed.{
  Formed, assign-Formed, unassign-Formed, release-Formed, complete-Formed, create-Formed,
}

-- The constraints of the migrations, and couriers that the service would accept.
pub record IsSound (db : Db) : Type 0 where
  pub valid : IsValid db
  pub formed : Formed db

IsValid-Keeps : {A : Type 0} {m : M A} → ((n : ℕ) → Keeps (ValidAt n) m) → Keeps IsValid m
IsValid-Keeps {m} h = record { at = λ db v. IsValid-at (m db).1 ((h db.last_courier).at db v) }

IsSound-Keeps : {A : Type 0} {m : M A} → Keeps IsValid m → Keeps Formed m → Keeps IsSound m
IsSound-Keeps h k = record {
  at = λ db s. record { valid = h.at db s.valid; formed = k.at db s.formed };
}

returned : {A : Type 0} (r : Result A) → Keeps IsValid (DeliveryService.lift r)
returned r = record { at = λ db v. v }

create-Sound : (c : Courier) → Keeps IsSound (CourierService.create (some c))
unfolding CourierService.create
create-Sound c =
    IsSound-Keeps (bind-Keeps (returned (validate_create (some c))) create-IsValid)
      (create-Formed c)

reported : (b : Bool) → Keeps IsValid (if b then return true else fail (sentinel not_found))
reported true = record { at = λ db v. v }
reported false = record { at = λ db v. v }

update-IsValid : (u : PartialCourierUpdate) → Keeps IsValid (CourierService.update_partial u)
unfolding CourierService.update_partial
update-IsValid u =
    then-Keeps (returned (validate_update u))
      (bind-Keeps (update_partial-IsValid u) (λ b. reported b))

update-Sound : (u : PartialCourierUpdate) → Keeps IsSound (CourierService.update_partial u)
update-Sound u = IsSound-Keeps (update-IsValid u) (update-Formed u)

assign-Sound : (now : Time) (raw : String) → Keeps IsSound (DeliveryService.assign deadline now raw)
assign-Sound now raw =
    IsSound-Keeps (IsValid-Keeps (λ n. assign-Keeps deadline now raw))
      (assign-Formed deadline now raw)

unassign-Sound : (raw : String) → Keeps IsSound (DeliveryService.unassign raw)
unassign-Sound raw = IsSound-Keeps (IsValid-Keeps (λ n. unassign-Keeps raw)) (unassign-Formed raw)

release-Sound : (now : Time) → Keeps IsSound (release_expired now)
release-Sound now =
    IsSound-Keeps (IsValid-Keeps (λ n. release_expired-Keeps now)) (release-Formed now)

handle-Sound : (now : Time) (e : Event) → Keeps IsSound (handle (delivery_port deadline now) e)
handle-Sound now e =
    handle-Keeps deadline now (assign-Sound now) unassign-Sound
      (λ o. IsSound-Keeps (IsValid-Keeps (λ n. complete-Keeps o)) (complete-Formed o)) e

-- The handlers keep what the services keep.
created_with :
    (d : Response ⊎ CreateCourierRequest) (db : Db) → IsSound db → IsSound (create_with d db).1
unfolding create_with
created_with (inl r) db s = s
created_with (inr q) db s = (create-Sound (create_to_model q)).at db s

updated_with :
    (d : Response ⊎ UpdateCourierRequest) (db : Db) → IsSound db → IsSound (update_with d db).1
unfolding update_with
updated_with (inl r) db s = s
updated_with (inr q) db s = (update-Sound (update_to_model q)).at db s

assigned_with :
    (now : Time) (d : Response ⊎ DeliveryRequest) (db : Db)
    → IsSound db
    → IsSound (assign_with deadline now d db).1
unfolding assign_with
assigned_with now (inl r) db s = s
assigned_with now (inr q) db s = (assign-Sound now q.order_id).at db s

unassigned_with :
    (d : Response ⊎ DeliveryRequest) (db : Db) → IsSound db → IsSound (unassign_with d db).1
unfolding unassign_with
unassigned_with (inl r) db s = s
unassigned_with (inr q) db s = (unassign-Sound q.order_id).at db s

-- Every step keeps the constraints of the migrations and leaves only well-formed couriers.
pub Step-IsSound : {db after : Db} → Step db after → IsSound db → IsSound after
unfolding create update assign unassign
Step-IsSound {db} (post_courier body) s = created_with (decode_json body) db s
Step-IsSound {db} (put_courier body) s = updated_with (decode_json body) db s
Step-IsSound {db} (post_assign now body) s = assigned_with now (decode_json body) db s
Step-IsSound {db} (post_unassign body) s = unassigned_with (decode_json body) db s
Step-IsSound {db} (event now e) s = (handle-Sound now e).at db s
Step-IsSound {db} (tick now) s = (release-Sound now).at db s
Step-IsSound {db} (outage fs) s = record {
  valid =
      SameData-ValidAt (record db { faults = fs }) db
        (record { couriers = refl; deliveries = refl; last_courier = refl; last_delivery = refl })
        s.valid;
  formed = s.formed;
}

migrated-IsSound : IsSound migrated
migrated-IsSound = record {
  valid = record {
    sequence = refl;
    ids = λ i. omega arith;
    bounded = tt;
    phones = λ p. omega arith;
    statuses = tt;
    orders = λ o. omega arith;
    owners = tt;
  };
  formed = tt;
}

-- In every reachable database the constraints of the migrations hold: the ids and phone numbers
-- of couriers and the order ids of deliveries are unique, a courier's id is at most the last
-- value of the sequence, and every delivery has a courier; and every courier is one that the
-- service would accept.
pub Reachable-IsSound : {db : Db} → Reachable db → IsSound db
Reachable-IsSound begin = migrated-IsSound
Reachable-IsSound (next r s) = Step-IsSound s (Reachable-IsSound r)
