-- ===== src/Domain.antt =====
-- The entities: internal/domain/courier.go, delivery.go and status.go.
pub mod Phone
use Prim.Native.Char.{Char, code}
use service_courier_platform.Prelude.{
  ℕ, zero, suc, ℤ, String, Bool, true, false, ◌&&◌, ◌==◌, Option, List, [], ◌∷◌, leb, eqb,
  if◌then◌else◌,
}

-- A `time.Time`, in nanoseconds since Go's zero time; a `time.Duration` that is not negative.
abbrev pub Time : Type 0
Time = ℕ

-- `CourierStatus` and `CourierTransportType` are texts, as in the program.
abbrev pub CourierStatus : Type 0
CourierStatus = String

abbrev pub CourierTransportType : Type 0
CourierTransportType = String

pub record Courier : Type 0 where
  pub id : ℤ
  pub name : String
  pub phone : String
  pub status : CourierStatus
  pub transport_type : CourierTransportType

pub record PartialCourierUpdate : Type 0 where
  pub id : ℤ
  pub name : Option String
  pub phone : Option String
  pub status : Option CourierStatus
  pub transport_type : Option CourierTransportType

pub record Delivery : Type 0 where
  pub id : ℤ
  pub courier_id : ℤ
  pub order_id : String
  pub assigned_at : Time
  pub deadline : Time

pub record AssignResult : Type 0 where
  pub courier_id : ℤ
  pub order_id : String
  pub transport_type : CourierTransportType
  pub deadline : Time

pub record UnassignResult : Type 0 where
  pub courier_id : ℤ
  pub order_id : String
  pub status : String

abbrev pub status_available : CourierStatus
status_available = "available"

abbrev pub status_busy : CourierStatus
status_busy = "busy"

abbrev pub status_paused : CourierStatus
status_paused = "paused"

abbrev pub transport_type_foot : CourierTransportType
transport_type_foot = "on_foot"

abbrev pub transport_type_scooter : CourierTransportType
transport_type_scooter = "scooter"

abbrev pub transport_type_car : CourierTransportType
transport_type_car = "car"

abbrev pub allowed_statuses : List CourierStatus
allowed_statuses = status_available ∷ status_busy ∷ status_paused ∷ []

abbrev pub allowed_transport_types : List CourierTransportType
allowed_transport_types = transport_type_foot ∷ transport_type_scooter ∷ transport_type_car ∷ []

-- The loop of both `Valid` methods.
listed : String → List String → Bool
listed s [] = false
listed s (v ∷ vs) = if s == v then true else listed s vs

-- `CourierStatus.Valid`.
unfoldable pub status_valid : CourierStatus → Bool
unfolding listed
status_valid s = listed s allowed_statuses

-- `CourierTransportType.Valid`.
unfoldable pub transport_valid : CourierTransportType → Bool
unfolding listed
transport_valid t = listed t allowed_transport_types

abbrev pub is_digit : Char → Bool
is_digit c = leb b'0' (code c) && leb (code c) b'9'

-- `[0-9]{n}$`.
digits_to_end : ℕ → String → Bool
digits_to_end zero String.[] = true
digits_to_end zero (String.◌∷◌ c s) = false
digits_to_end (suc n) String.[] = false
digits_to_end (suc n) (String.◌∷◌ c s) = is_digit c && digits_to_end n s

-- `ValidatePhone`: the pattern ^\+[0-9]{11}$.
unfoldable pub validate_phone : String → Bool
unfolding digits_to_end
validate_phone String.[] = false
validate_phone (String.◌∷◌ c s) = eqb (code c) b'+' && digits_to_end 11 s
