-- ===== src/CourierService.antt =====
-- The courier service: internal/service/courier (courier.go, contracts.go), over
-- internal/repository/courier.go.
pub mod Validation
pub mod Acceptance
pub mod Registration
pub mod Outcomes
use service_courier_platform.Prelude.{
  ◌*◌, ℕ, ℤ, pos, String, Bool, true, false, not, ◌&&◌, ◌||◌, ◌==◌, List, [], ◌∷◌, Option, none,
  some, leb_ℤ, if◌then◌else◌, trim_space,
}
use service_courier_platform.Errors.{Err, sentinel, invalid, not_found, Result, ok, err}
use service_courier_platform.Domain.{
  Courier, PartialCourierUpdate, status_valid, transport_valid, validate_phone, transport_type_foot,
}
use service_courier_platform.Database.{Db, M, ◌>>=◌, ◌>>◌, return, fail}
use service_courier_platform.DeliveryService.{lift, second}
use service_courier_platform.Repository.Couriers

-- The timeout that `NewService` keeps.
unfoldable pub operation_timeout : ℤ → ℤ
operation_timeout timeout = if leb_ℤ timeout (pos 0) then pos (3 * second) else timeout

abbrev pub is_blank : String → Bool
is_blank s = trim_space s == ""

-- The transport type that is stored for a new courier.
abbrev pub with_transport : Courier → Courier
with_transport c = record c {
  transport_type = if c.transport_type == "" then transport_type_foot else c.transport_type;
}

-- `validateCreate`; the default that it writes into the courier is its result.
unfoldable pub validate_create : Option Courier → Result Courier
validate_create none = err (sentinel invalid)
validate_create (some c) =
    if is_blank c.name
    then err (sentinel invalid)
    else if not (validate_phone c.phone)
    then err (sentinel invalid)
    else if not (status_valid c.status)
    then err (sentinel invalid)
    else if not (transport_valid (with_transport c).transport_type)
    then err (sentinel invalid)
    else ok (with_transport c)

abbrev given_bad : Option String → (String → Bool) → Bool
given_bad none bad = false
given_bad (some s) bad = bad s

abbrev is_given : Option String → Bool
is_given none = false
is_given (some s) = true

rule_no_update_fields : PartialCourierUpdate → Bool
rule_no_update_fields u =
    not (is_given u.name)
    && (not (is_given u.phone) && (not (is_given u.status) && not (is_given u.transport_type)))

rule_bad_name : PartialCourierUpdate → Bool
rule_bad_name u = given_bad u.name (λ s. is_blank s)

rule_bad_phone : PartialCourierUpdate → Bool
rule_bad_phone u = given_bad u.phone (λ s. not (validate_phone s))

rule_bad_status : PartialCourierUpdate → Bool
rule_bad_status u = given_bad u.status (λ s. not (status_valid s))

rule_bad_transport_type : PartialCourierUpdate → Bool
rule_bad_transport_type u = given_bad u.transport_type (λ s. not (transport_valid s))

abbrev courier_update_rules : List (PartialCourierUpdate → Bool)
courier_update_rules =
    rule_no_update_fields ∷ rule_bad_name ∷ rule_bad_phone ∷ rule_bad_status
    ∷ rule_bad_transport_type ∷ []

check_rules : List (PartialCourierUpdate → Bool) → PartialCourierUpdate → Result (Unit {0})
check_rules [] u = ok tt
check_rules (bad ∷ rules) u =
    let rest = check_rules rules u in if bad u then err (sentinel invalid) else rest

-- `validateUpdate`.
unfoldable pub validate_update : PartialCourierUpdate → Result (Unit {0})
unfolding check_rules rule_no_update_fields rule_bad_name rule_bad_phone rule_bad_status
    rule_bad_transport_type
validate_update u =
    if leb_ℤ u.id (pos 0) then err (sentinel invalid) else check_rules courier_update_rules u

unfoldable pub or_not_found : Option Courier → M Courier
or_not_found none = fail (sentinel not_found)
or_not_found (some c) = return c

-- `Service.Get`.
unfoldable pub get : ℤ → M Courier
unfolding or_not_found
get id = do found ← Couriers.get id; or_not_found found

-- `Service.List`.
unfoldable pub list : Option ℤ → Option ℤ → M (List Courier)
list limit offset = Couriers.list limit offset

-- `Service.Create`.
unfoldable pub create : Option Courier → M ℤ
create given = do c ← lift (validate_create given); Couriers.create c

-- `Service.UpdatePartial`.
unfoldable pub update_partial : PartialCourierUpdate → M Bool
update_partial u = do
  lift (validate_update u)
  updated ← Couriers.update_partial u
  if updated then return true else fail (sentinel not_found)
