-- ===== src/HttpModels.antt =====
-- Requests and responses as values, and their conversion to the entities:
-- internal/http/handlers/dto.go, delivery_dto.go, courier_convert.go, delivery_convert.go, and
-- writeJSON and writeError of helpers.go.
use service_courier_platform.Prelude.{ℕ, ℤ, pos, String, List, map, Option, none}
use service_courier_platform.Domain.{
  Courier, PartialCourierUpdate, AssignResult, UnassignResult, Time, CourierStatus,
  CourierTransportType,
}

pub record CourierDto : Type 0 where
  pub id : ℤ
  pub name : String
  pub phone : String
  pub status : CourierStatus
  pub transport_type : CourierTransportType

pub record CreateCourierRequest : Type 0 where
  pub name : String
  pub phone : String
  pub status : CourierStatus
  pub transport_type : CourierTransportType

pub record UpdateCourierRequest : Type 0 where
  pub id : ℤ
  pub name : Option String
  pub phone : Option String
  pub status : Option CourierStatus
  pub transport_type : Option CourierTransportType

-- The one field of the requests for a delivery.
pub record DeliveryRequest : Type 0 where
  pub order_id : String

pub record AssignDeliveryResponse : Type 0 where
  pub courier_id : ℤ
  pub order_id : String
  pub transport_type : String
  pub delivery_deadline : Time

pub record UnassignDeliveryResponse : Type 0 where
  pub order_id : String
  pub status : String
  pub courier_id : ℤ

-- `createCourierRequest.toModel`.
abbrev pub create_to_model : CreateCourierRequest → Courier
create_to_model req = record {
  id = pos 0;
  name = req.name;
  phone = req.phone;
  status = req.status;
  transport_type = req.transport_type;
}

-- `updateCourierRequest.toModel`.
abbrev pub update_to_model : UpdateCourierRequest → PartialCourierUpdate
update_to_model req = record {
  id = req.id;
  name = req.name;
  phone = req.phone;
  status = req.status;
  transport_type = req.transport_type;
}

abbrev pub model_to_response : Courier → CourierDto
model_to_response c = record {
  id = c.id;
  name = c.name;
  phone = c.phone;
  status = c.status;
  transport_type = c.transport_type;
}

abbrev pub models_to_response : List Courier → List CourierDto
models_to_response cs = map model_to_response cs

abbrev pub assign_result_to_response : AssignResult → AssignDeliveryResponse
assign_result_to_response r = record {
  courier_id = r.courier_id;
  order_id = r.order_id;
  transport_type = r.transport_type;
  delivery_deadline = r.deadline;
}

abbrev pub unassign_result_to_response : UnassignResult → UnassignDeliveryResponse
unassign_result_to_response r = record {
  order_id = r.order_id;
  status = r.status;
  courier_id = r.courier_id;
}

-- The JSON values that the handlers write.
pub data Body : Type 0 where
  error_body status_body message_body : String → Body
  id_body : ℤ → Body
  courier_body : CourierDto → Body
  couriers_body : List CourierDto → Body
  assigned_body : AssignDeliveryResponse → Body
  unassigned_body : UnassignDeliveryResponse → Body
  no_body : Body

-- `location` is the id in the header `Location`.
pub record Response : Type 0 where
  pub status : ℕ
  pub location : Option ℤ
  pub body : Body

abbrev pub write_json : ℕ → Body → Response
write_json status body = record { status = status; location = none; body = body }

abbrev pub write_error : ℕ → String → Response
write_error status msg = write_json status (error_body msg)
