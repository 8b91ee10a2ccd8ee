-- ===== src/Examples.antt =====
-- Concrete databases, messages and limiters, and the theorems at them.
pub mod Assigning
pub mod Registering
pub mod Requests
pub mod Events
pub mod Limits
pub mod Calls
pub mod Running
pub mod Settings
pub mod Boards
pub mod Starting
pub mod Serving
use service_courier_platform.Repository.Valid.{IsValid}
use service_courier_platform.Prelude.{
  String, ◌==◌, ◌≡◌, ◌≤◌, suc, false, if◌then◌else◌, Bool-cases, inl, inr, arith, eqb_ℤ_iff, eq_iff,
  ℕ, ◌*◌, pos, refl, List, [], ◌∷◌,
}
use service_courier_platform.Domain.{Courier, Delivery, Time}
use service_courier_platform.Database.{Db}
use service_courier_platform.DeliveryService.{minute}

abbrev pub anna : Courier
anna = record {
  id = pos 1;
  name = "Anna";
  phone = "+79990000001";
  status = "available";
  transport_type = "car";
}

abbrev pub boris : Courier
boris = record {
  id = pos 2;
  name = "Boris";
  phone = "+79990000002";
  status = "busy";
  transport_type = "on_foot";
}

-- Boris delivers two orders: one is overdue at noon, the other is not.
abbrev pub noon : Time
noon = 720 * minute

abbrev pub overdue : Delivery
overdue = record {
  id = pos 1;
  courier_id = pos 2;
  order_id = "order-1";
  assigned_at = 600 * minute;
  deadline = 630 * minute;
}

abbrev pub running : Delivery
running = record {
  id = pos 2;
  courier_id = pos 2;
  order_id = "order-2";
  assigned_at = 700 * minute;
  deadline = 730 * minute;
}

abbrev pub office : Db
office = record {
  couriers = anna ∷ boris ∷ [];
  deliveries = running ∷ overdue ∷ [];
  last_courier = 2;
  last_delivery = 2;
  faults = [];
}

at_most_one :
    (a b t : String)
    → (a == b) ≡ false
    → (if a == t then suc (if b == t then 1 else 0) else (if b == t then 1 else 0)) ≤ 1
at_most_one a b t h = elim (Bool-cases (a == t)) [
  | inl e ↦ elim (Bool-cases (b == t)) [
    | inl f ↦ ground (arith, eq_iff a t, eq_iff b t, eq_iff a b)
    | inr f ↦ rw (e, f) (omega arith)
  ]
  | inr e ↦ ground arith
]

pub office-IsValid : IsValid office
office-IsValid = record {
  sequence = refl;
  ids = λ i. ground (arith, eqb_ℤ_iff (pos 1) i, eqb_ℤ_iff (pos 2) i);
  bounded = (refl, (refl, tt));
  phones = λ p. at_most_one anna.phone boris.phone p refl;
  statuses = (refl, (refl, tt));
  orders = λ o. at_most_one running.order_id overdue.order_id o refl;
  owners = (refl, (refl, tt));
}
