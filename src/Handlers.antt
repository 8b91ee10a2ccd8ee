-- ===== src/Handlers.antt =====
-- The HTTP handlers: internal/http/handlers. The decoder of JSON, the router's parameters and the
-- query are arguments, and a response is what the handler writes. Logging is left out.
pub mod Numbers
pub mod Location
pub mod Answers
pub mod Registration
pub mod Retrieval
use service_courier_platform.Prelude.{
  ℕ, ℤ, pos, String, Bool, true, false, ◌||◌, ◌==◌, ◌⊎◌, inl, inr, List, map, Option, none, some,
  ltb_ℤ, leb_ℤ, if◌then◌else◌,
}
use service_courier_platform.Errors.{Err, invalid, conflict, not_found, Result, ok, err, errors_is}
use service_courier_platform.Domain.{
  Courier, PartialCourierUpdate, AssignResult, UnassignResult, Time, CourierStatus,
  CourierTransportType,
}
use service_courier_platform.Database.{Db, M}
use service_courier_platform.DeliveryService
use service_courier_platform.DeliveryService.{TimeFactory}
use service_courier_platform.CourierService
use service_courier_platform.HttpModels.{
  CourierDto, CreateCourierRequest, UpdateCourierRequest, AssignDeliveryResponse,
  UnassignDeliveryResponse, DeliveryRequest, create_to_model, update_to_model, model_to_response,
  models_to_response, assign_result_to_response, unassign_result_to_response, Body, error_body,
  status_body, message_body, id_body, courier_body, couriers_body, assigned_body, unassigned_body,
  no_body, Response, write_json, write_error,
}
use service_courier_platform.Handlers.Numbers.{parse_int}

-- What the decoder makes of a request's body: the answer of its first call, and whether the second
-- one is at the end of the input.
pub data Decoded (A : Type 0) : Type 0 where
  too_large malformed : Decoded A
  value : A → Decoded A

pub record RequestBody (A : Type 0) : Type 0 where
  pub first : Decoded A
  pub at_end : Bool

pub checked_end : {A : Type 0} → Decoded A → Bool → Response ⊎ A
checked_end too_large end = inl (write_error 413 "body too large")
checked_end malformed end = inl (write_error 400 "invalid json")
checked_end (value a) true = inr a
checked_end (value a) false = inl (write_error 400 "invalid json: trailing data")

-- `decodeJSON`.
unfoldable pub decode_json : {A : Type 0} → RequestBody A → Response ⊎ A
unfolding checked_end
decode_json body = checked_end body.first body.at_end

-- `idFromURL`.
unfoldable pub id_from_url : String → Option ℤ
id_from_url text = elim (parse_int text) [
  | none ↦ none
  | some id ↦ if leb_ℤ id (pos 0) then none else some id
]

abbrev pub respond : {A : Type 0} → (Result A → Response) → Result A × Db → Response × Db
respond f (r, db) = (f r, db)

abbrev pub internal_error : Response
internal_error = write_error 500 "internal error"

unfoldable pub got : Result Courier → Response
unfolding errors_is
got (ok c) = write_json 200 (courier_body (model_to_response c))
got (err e) = if errors_is not_found e then write_error 404 "not found" else internal_error

unfoldable pub get_with : Option ℤ → Db → Response × Db
get_with none db = (write_error 400 "invalid id", db)
get_with (some id) db = respond got (CourierService.get id db)

-- `CourierHandler.GetByID`.
unfoldable pub get_by_id : String → Db → Response × Db
unfolding get_with
get_by_id text db = get_with (id_from_url text) db

-- A query parameter that is not there, that is a number of at least 0, or that is refused.
pub data Param : Type 0 where
  absent refused : Param
  given : ℤ → Param

number : Option ℤ → Param
number none = refused
number (some n) = if ltb_ℤ n (pos 0) then refused else given n

unfoldable pub param : String → Param
unfolding number
param text = if text == "" then absent else number (parse_int text)

unfoldable pub listed_response : Result (List Courier) → Response
listed_response (ok cs) = write_json 200 (couriers_body (models_to_response cs))
listed_response (err e) = internal_error

unfoldable pub list_offset : Option ℤ → Param → Db → Response × Db
list_offset limit refused db = (write_error 400 "invalid offset", db)
list_offset limit absent db = respond listed_response (CourierService.list limit none db)
list_offset limit (given n) db = respond listed_response (CourierService.list limit (some n) db)

unfoldable pub list_limit : Param → Param → Db → Response × Db
list_limit refused offset db = (write_error 400 "invalid limit", db)
list_limit absent offset db = list_offset none offset db
list_limit (given n) offset db = list_offset (some n) offset db

-- `CourierHandler.List`, on the texts of `limit` and `offset`, empty where they are missing.
unfoldable pub list : String → String → Db → Response × Db
unfolding list_limit list_offset
list limit offset db = list_limit (param limit) (param offset) db

unfoldable pub created : Result ℤ → Response
unfolding errors_is
created (ok id) = record { status = 201; location = some id; body = id_body id }
created (err e) =
    if errors_is invalid e
    then write_error 400 "invalid input"
    else if errors_is conflict e
    then write_error 409 "phone already exists"
    else internal_error

unfoldable pub create_with : Response ⊎ CreateCourierRequest → Db → Response × Db
create_with (inl r) db = (r, db)
create_with (inr req) db = respond created (CourierService.create (some (create_to_model req)) db)

-- `CourierHandler.Create`.
unfoldable pub create : RequestBody CreateCourierRequest → Db → Response × Db
unfolding create_with
create body db = create_with (decode_json body) db

unfoldable pub updated : Result Bool → Response
unfolding errors_is
updated (ok b) = write_json 200 (status_body "ok")
updated (err e) =
    if errors_is invalid e
    then write_error 400 "invalid input"
    else if errors_is conflict e
    then write_error 409 "phone already exists"
    else if errors_is not_found e
    then write_error 404 "not found"
    else internal_error

unfoldable pub update_with : Response ⊎ UpdateCourierRequest → Db → Response × Db
update_with (inl r) db = (r, db)
update_with (inr req) db = respond updated (CourierService.update_partial (update_to_model req) db)

-- `CourierHandler.Update`.
unfoldable pub update : RequestBody UpdateCourierRequest → Db → Response × Db
unfolding update_with
update body db = update_with (decode_json body) db

unfoldable pub assigned : Result AssignResult → Response
unfolding errors_is
assigned (ok r) = write_json 200 (assigned_body (assign_result_to_response r))
assigned (err e) =
    if errors_is invalid e
    then write_error 400 "invalid input"
    else if errors_is conflict e
    then write_error 409 "no available couriers"
    else internal_error

module _ (factory : TimeFactory) (now : Time) where
  unfoldable pub assign_with : Response ⊎ DeliveryRequest → Db → Response × Db
  assign_with (inl r) db = (r, db)
  assign_with (inr req) db = respond assigned (DeliveryService.assign factory now req.order_id db)

  -- `DeliveryHandler.Assign`.
  unfoldable pub assign : RequestBody DeliveryRequest → Db → Response × Db
  unfolding assign_with
  assign body db = assign_with (decode_json body) db

unfoldable pub unassigned : Result UnassignResult → Response
unfolding errors_is
unassigned (ok r) = write_json 200 (unassigned_body (unassign_result_to_response r))
unassigned (err e) =
    if errors_is invalid e
    then write_error 400 "invalid input"
    else if errors_is not_found e
    then write_error 404 "delivery not found"
    else internal_error

unfoldable pub unassign_with : Response ⊎ DeliveryRequest → Db → Response × Db
unassign_with (inl r) db = (r, db)
unassign_with (inr req) db = respond unassigned (DeliveryService.unassign req.order_id db)

-- `DeliveryHandler.Unassign`.
unfoldable pub unassign : RequestBody DeliveryRequest → Db → Response × Db
unfolding unassign_with
unassign body db = unassign_with (decode_json body) db

-- `Handlers.Ping`, `HealthcheckHead` and `NotFound`.
abbrev pub ping : Response
ping = write_json 200 (message_body "pong")

abbrev pub healthcheck_head : Response
healthcheck_head = write_json 204 no_body

abbrev pub route_not_found : Response
route_not_found = write_error 404 "route not found"
