-- ===== src/Examples/Boards.antt =====
-- The board of a small office: internal/service/delivery and internal/service/orders.
use service_courier_platform.Prelude.{
  ℤ, ◌≡◌, refl, subst, pos, ◌+◌, ◌*◌, [], ◌∷◌, some, inl, arith, any, leb, text_length, trim_space,
  ◌==◌, true, false,
}
use service_courier_platform.Errors.{ok}
use service_courier_platform.Domain.{AssignResult, Courier, Delivery, Time}
use service_courier_platform.Database.{exec, Db}
use service_courier_platform.DeliveryService.{minute, deadline, assign, release_expired}
use service_courier_platform.Repository.Deliveries.{of_order}
use service_courier_platform.System.{Reachable, tick, outage}
use service_courier_platform.System.Reachability.{IsSound}
use service_courier_platform.System.Progress.{Overdue, tick-serves}
use service_courier_platform.Board.{board, Move, expiring}
use service_courier_platform.Board.Refinement.{Step-Move}
use service_courier_platform.Board.Custody.{Undisturbed, at_first, later, Undisturbed-holds}
use service_courier_platform.Examples.{noon, office, office-IsValid}
use service_courier_platform.Examples.Requests.{served_office, served_office-Reachable}

office-IsSound : IsSound office
unfolding trim_space service_courier_platform.Domain.validate_phone
    service_courier_platform.Domain.status_valid service_courier_platform.Domain.transport_valid
office-IsSound = record {
  valid = office-IsValid;
  formed = (
    record { named = refl; phone = refl; status = refl; transport = refl },
    (record { named = refl; phone = refl; status = refl; transport = refl }, tt),
  );
}

Step-Move_example : Move (board office) (board (release_expired noon office).1) (expiring noon)
Step-Move_example = Step-Move (tick noon) office-IsSound

-- A tick, and the loss of the database.
quiet : Undisturbed "order-1" office (record (release_expired noon office).1 { faults = [] })
quiet = later (later at_first (tick noon) (λ h. cc)) (outage []) (λ h. cc)

Undisturbed-holds_example :
    (board (record (release_expired noon office).1 { faults = [] })).holder_of "order-1"
    ≡ some (pos 2, 630 * minute)
Undisturbed-holds_example = Undisturbed-holds office-IsSound quiet refl

-- Clara has had her order for sixteen minutes.
abbrev clara : Courier
clara = record {
  id = pos 1;
  name = "Clara";
  phone = "+79990000003";
  status = "busy";
  transport_type = "scooter";
}

abbrev her_order : Delivery
her_order = record {
  id = pos 1;
  courier_id = pos 1;
  order_id = "order-2";
  assigned_at = noon;
  deadline = noon + 15 * minute;
}

abbrev past_due : Time
past_due = noon + 16 * minute

abbrev clara_out : Db
clara_out = record {
  couriers = clara ∷ [];
  deliveries = her_order ∷ [];
  last_courier = 1;
  last_delivery = 1;
  faults = [];
}

served_office_is : served_office ≡ clara_out
unfolding service_courier_platform.Handlers.assign service_courier_platform.Handlers.decode_json
    service_courier_platform.DeliveryService.assign
    service_courier_platform.DeliveryService.deadline
    service_courier_platform.DeliveryService.validate_order_id
    service_courier_platform.Prelude.trim_space
    service_courier_platform.Repository.Deliveries.with_tx service_courier_platform.Database.call
    service_courier_platform.Handlers.create service_courier_platform.CourierService.create
    service_courier_platform.CourierService.validate_create
    service_courier_platform.Domain.validate_phone service_courier_platform.Domain.status_valid
    service_courier_platform.Domain.transport_valid
    service_courier_platform.Repository.Couriers.create
    service_courier_platform.DeliveryService.assign_body
    service_courier_platform.Repository.Deliveries.find_available_courier_for_update
    service_courier_platform.Repository.Deliveries.first_available
    service_courier_platform.Handlers.assign_with service_courier_platform.Handlers.create_with
    service_courier_platform.Repository.Couriers.insert_courier
    service_courier_platform.Repository.Deliveries.insert_delivery
    service_courier_platform.Repository.Deliveries.update_courier_status exec
served_office_is = refl

clara_out-Reachable : Reachable clara_out
clara_out-Reachable = subst Reachable served_office_is served_office-Reachable

no_other : any (of_order (trim_space "order-9")) clara_out.deliveries ≡ false
unfolding trim_space
no_other = refl

short_id : leb (text_length (trim_space "order-9")) 255 ≡ true
unfolding trim_space
short_id = refl

named_id : (trim_space "order-9" == "") ≡ false
unfolding trim_space
named_id = refl

Overdue-clara : Overdue clara_out past_due "order-9"
Overdue-clara = record {
  healthy = refl;
  courier = clara;
  listed = inl refl;
  busy = refl;
  old = her_order;
  recorded = inl refl;
  own = refl;
  late = omega arith;
  named = named_id;
  fits = short_id;
  fresh = no_other;
}

tick-serves_example :
    (r : AssignResult) × ((assign deadline past_due "order-9"
        (release_expired past_due clara_out).1).0
      ≡ ok r)
tick-serves_example = tick-serves past_due "order-9" clara_out-Reachable Overdue-clara
