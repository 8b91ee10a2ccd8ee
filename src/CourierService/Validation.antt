-- ===== src/CourierService/Validation.antt =====
-- What the validation of internal/service/courier/courier.go accepts.
use service_courier_platform.Prelude.{
  ◌≡◌, ◌↔◌, ◌⊎◌, ◌<◌, pos_part, String, true, false, Option, none, some, arith,
}
use service_courier_platform.Errors.{ok}
use service_courier_platform.Domain.{
  Courier, PartialCourierUpdate, status_valid, transport_valid, validate_phone,
}
use service_courier_platform.CourierService.{
  validate_create, validate_update, with_transport, is_given, is_blank,
}

-- A courier that may be stored.
pub record IsWellFormed (c : Courier) : Type 0 where
  pub named : is_blank c.name ≡ false
  pub phone : validate_phone c.phone ≡ true
  pub status : status_valid c.status ≡ true
  pub transport : transport_valid c.transport_type ≡ true

-- `validateCreate` accepts a courier exactly when it is well formed with its transport type, or
-- `on_foot` for an empty one; it hands on the courier with that type and nothing else changed.
pub validate_create_iff :
    (c d : Courier)
    → (validate_create (some c) ≡ ok d) ↔ ((d ≡ with_transport c) × IsWellFormed (with_transport c))
unfolding validate_create
validate_create_iff c d = (accepted, λ (e, w). rw (w.named, w.phone, w.status, w.transport, e))
  where
    accepted :
        validate_create (some c) ≡ ok d → (d ≡ with_transport c) × IsWellFormed (with_transport c)
    accepted h = ground arith

-- An update field that is given passes the field's test.
abbrev pub Passes : Option String → (String → Type 0) → Type 0
Passes none P = Unit
Passes (some s) P = P s

pub record IsAllowed (u : PartialCourierUpdate) : Type 0 where
  pub id : 0 < pos_part u.id
  pub some_field :
      (is_given u.name ≡ true)
      ⊎ ((is_given u.phone ≡ true)
          ⊎ ((is_given u.status ≡ true) ⊎ (is_given u.transport_type ≡ true)))
  pub name : Passes u.name (λ s. is_blank s ≡ false)
  pub phone : Passes u.phone (λ s. validate_phone s ≡ true)
  pub status : Passes u.status (λ s. status_valid s ≡ true)
  pub transport : Passes u.transport_type (λ s. transport_valid s ≡ true)

-- `validateUpdate` accepts an update exactly when its id is positive, some field is given, and each
-- field that is given has a valid value.
pub validate_update_iff : (u : PartialCourierUpdate) → (validate_update u ≡ ok tt) ↔ IsAllowed u
unfolding validate_update
validate_update_iff u = (accepted, allowed)
  where
    accepted : validate_update u ≡ ok tt → IsAllowed u
    accepted h = ground arith

    allowed : IsAllowed u → validate_update u ≡ ok tt
    allowed a = ground arith
