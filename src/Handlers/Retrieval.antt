-- ===== src/Handlers/Retrieval.antt =====
-- Reading a courier where its creation says that it is: Create and GetByID of
-- internal/http/handlers/courier.go.

use service_courier_platform.Prelude.{◌≡◌, ℤ, some, inr}
use service_courier_platform.Database.{Db}
use service_courier_platform.CourierService
use service_courier_platform.CourierService.{with_transport}
use service_courier_platform.HttpModels.{
  Response, CreateCourierRequest, create_to_model, model_to_response, courier_body, write_json,
}
use service_courier_platform.Handlers.{RequestBody, decode_json, get_by_id, got}
use service_courier_platform.Handlers.Location.{format_int}

-- The courier that a `Location` leads to.
pub record Found (body : RequestBody CreateCourierRequest) (made : Response × Db) : Type 0 where
  pub id : ℤ
  pub request : CreateCourierRequest
  pub decoded : decode_json body ≡ inr request
  pub location : made.0.location ≡ some id
  pub got :
      (get_by_id (format_int id) made.1).0
      ≡ write_json 200 (
          courier_body
            (model_to_response (record (with_transport (create_to_model request)) { id = id })))
