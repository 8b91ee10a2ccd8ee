-- ===== src/System/Deadlines.antt =====
-- The deadlines that the time factory gives to the couriers of a reachable database.
use service_courier_platform.Prelude.{
  both_tests, All-weaken, true, Bool-cases, ◌==◌, arith, ◌+◌, ◌*◌, ◌<◌, ◌≤◌, ◌≡◌, refl, inl, inr,
  All,
}
use service_courier_platform.Errors.{ok}
use service_courier_platform.Domain.{
  transport_valid, CourierTransportType, transport_type_foot, transport_type_scooter,
  transport_type_car, Time,
}
use service_courier_platform.Database.{Db}
use service_courier_platform.DeliveryService.{minute, deadline}
use service_courier_platform.CourierService.Validation.{IsWellFormed}
use service_courier_platform.System.{Reachable}
use service_courier_platform.System.Reachability.{Reachable-IsSound}

-- A deadline that the factory gives.
pub record Due (transport : CourierTransportType) (now : Time) : Type 0 where
  pub due : Time
  pub given : deadline transport now ≡ ok due
  pub later : now < due
  pub soon : due ≤ now + 30 * minute

pub known_transport : (t : CourierTransportType) (now : Time) → transport_valid t ≡ true → Due t now
unfolding deadline transport_valid
known_transport t now h = elim (Bool-cases (t == transport_type_foot)) [
  | inl e ↦ record {
    due = now + 30 * minute;
    given = rw e refl;
    later = omega arith;
    soon = omega arith;
  }
  | inr e ↦ elim (Bool-cases (t == transport_type_scooter)) [
    | inl f ↦ record {
      due = now + 15 * minute;
      given = rw (e, f) refl;
      later = omega arith;
      soon = omega arith;
    }
    | inr f ↦ elim (Bool-cases (t == transport_type_car)) [
      | inl g ↦ record {
        due = now + 5 * minute;
        given = rw (e, f, g) refl;
        later = omega arith;
        soon = omega arith;
      }
      | inr g ↦ absurd (both_tests (rw (e, f, g) at h) refl)
    ]
  ]
]

-- In every reachable database the time factory has a deadline for every courier, which is later
-- than now and at most thirty minutes away.
pub Reachable-Due :
    {db : Db} (now : Time) → Reachable db → All (λ c. Due c.transport_type now) db.couriers
Reachable-Due {db} now r =
    All-weaken (λ c. Due c.transport_type now) IsWellFormed
      (λ c w. known_transport c.transport_type now w.transport) db.couriers
      (Reachable-IsSound r).formed
