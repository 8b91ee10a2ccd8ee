-- ===== src/Examples/Registering.antt =====
-- The courier service on a small office: internal/service/courier/courier.go.
use service_courier_platform.Prelude.{[], ◌∷◌, ◌≡◌, ◌↔◌, refl, pos, none, some}
use service_courier_platform.Errors.{ok}
use service_courier_platform.Domain.{Courier, PartialCourierUpdate}
use service_courier_platform.Repository.Couriers.{list}
use service_courier_platform.Repository.Couriers.Listing.{Listed, list-Listed}
use service_courier_platform.CourierService.{create, update_partial, validate_create}
use service_courier_platform.CourierService.Acceptance.{Accepted, validate_create-Accepted}
use service_courier_platform.CourierService.Outcomes.{
  create_answer, create-answer, update_answer, update-answer,
}
use service_courier_platform.Examples.{boris, anna, office, office-IsValid}

-- No transport type is given.
abbrev clara : Courier
clara = record {
  id = pos 0;
  name = "Clara";
  phone = "+79990000003";
  status = "available";
  transport_type = "";
}

-- Anna's phone number once more.
abbrev twin : Courier
twin = record clara { phone = anna.phone }

create-answer_example : (create (some twin) office).0 ≡ create_answer office (some twin)
create-answer_example = create-answer (some twin) office refl

abbrev to_scooter : PartialCourierUpdate
to_scooter = record {
  id = pos 1;
  name = none;
  phone = some "+79990000004";
  status = none;
  transport_type = some "scooter";
}

update-answer_example : (update_partial to_scooter office).0 ≡ update_answer office to_scooter
update-answer_example = update-answer to_scooter office refl office-IsValid

validate_create-Accepted_example :
    (validate_create (some clara) ≡ ok (record clara { transport_type = "on_foot" }))
    ↔ Accepted clara (record clara { transport_type = "on_foot" })
validate_create-Accepted_example =
    validate_create-Accepted clara (record clara { transport_type = "on_foot" })

second_page : (list (some (pos 5)) (some (pos 1)) office).0 ≡ ok (boris ∷ [])
unfolding list service_courier_platform.Database.call
second_page = refl

list-Listed_example : Listed (some (pos 5)) office.couriers (boris ∷ [])
list-Listed_example = list-Listed (some (pos 5)) (some (pos 1)) office second_page
