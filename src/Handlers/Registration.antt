-- ===== src/Handlers/Registration.antt =====
-- What a response of POST /courier says of the tables: internal/http/handlers/courier.go.
use service_courier_platform.Prelude.{◌≡◌, ℤ, inr, some}
use service_courier_platform.Database.{Db}
use service_courier_platform.Repository.Couriers.Created.{Stored}
use service_courier_platform.CourierService
use service_courier_platform.CourierService.{with_transport, validate_create}
use service_courier_platform.CourierService.Validation.{IsWellFormed}
use service_courier_platform.HttpModels.{Response, CreateCourierRequest, create_to_model, id_body}
use service_courier_platform.Handlers.{RequestBody, decode_json}

-- The courier of a body has been stored.
pub record CreateDone (body : RequestBody CreateCourierRequest) (db end : Db) : Type 0 where
  pub request : CreateCourierRequest
  pub decoded : decode_json body ≡ inr request
  pub id : ℤ
  pub formed : IsWellFormed (with_transport (create_to_model request))
  pub effect : Stored (with_transport (create_to_model request)) id db end

-- The reply has the status 201, and tells the courier's id in the body and in `Location`.
pub record CreateTold (body : RequestBody CreateCourierRequest) (db : Db) (r : Response) (end : Db)
    : Type 0 where
  pub done : CreateDone body db end
  pub status : r.status ≡ 201
  pub content : r.body ≡ id_body done.id
  pub location : r.location ≡ some done.id
