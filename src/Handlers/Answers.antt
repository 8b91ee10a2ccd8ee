-- ===== src/Handlers/Answers.antt =====
-- What a response of internal/http/handlers says of the tables.
use service_courier_platform.Prelude.{
  ℕ, ◌≡◌, ◌∙◌, sym, refl, ◌<◌, ◌≤◌, ℤ, pos, String, true, false, ◌⊎◌, inl, inr, Option, none, some,
  arith, trim_space, pos_part,
}
use service_courier_platform.Domain.{Time, AssignResult, UnassignResult}
use service_courier_platform.Database.{Db}
use service_courier_platform.Database.Calls.{SameTables}
use service_courier_platform.DeliveryService
use service_courier_platform.DeliveryService.{TimeFactory, lift}
use service_courier_platform.DeliveryService.Assignment.{Assigned}
use service_courier_platform.DeliveryService.Unassignment.{Unassigned}
use service_courier_platform.HttpModels.{Response, DeliveryRequest, assigned_body, unassigned_body}
use service_courier_platform.Handlers.{
  Decoded, too_large, malformed, value, RequestBody, checked_end, decode_json,
}

-- A reply that tells what has been done; or an error. After an error the tables are as they were,
-- or all has been done, when the answer of the database to it was lost.
pub data Answered (Told : Response → Db → Type 0) (Done : Db → Type 0) (db : Db)
    : Response × Db → Type 0 where
  accepted : {r : Response} {end : Db} → Told r end → Answered Told Done db (r, end)
  rejected :
      {r : Response} {end : Db}
      → 400 ≤ r.status
      → SameTables end db ⊎ Done end
      → Answered Told Done db (r, end)

pub unchanged : (db : Db) → SameTables db db
unchanged db = record { couriers = refl; deliveries = refl }

pub decode_rejected :
    {A : Type 0} (body : RequestBody A) {r : Response} → decode_json body ≡ inl r → 400 ≤ r.status
unfolding decode_json
decode_rejected {A} body {r} h = checked body.first body.at_end h
  where
    status_of : {x y : Response} → ◌≡◌ {A = Response ⊎ A} (inl x) (inl y) → x.status ≡ y.status
    status_of p = cc

    checked :
        (d : Decoded A) (b : service_courier_platform.Prelude.Bool)
        → checked_end d b ≡ inl r
        → 400 ≤ r.status
    checked too_large b k = let s : 413 ≡ r.status = status_of k in omega (arith, s)
    checked malformed b k = let s : 400 ≡ r.status = status_of k in omega (arith, s)
    checked (value a) true k = cc
    checked (value a) false k = let s : 400 ≡ r.status = status_of k in omega (arith, s)

module _ (factory : TimeFactory) (now : Time) where
  -- The order of a body has been assigned.
  pub record AssignDone (body : RequestBody DeliveryRequest) (db end : Db) : Type 0 where
    pub request : DeliveryRequest
    pub decoded : decode_json body ≡ inr request
    pub result : AssignResult
    pub effect : Assigned factory now (trim_space request.order_id) db end result

  -- The reply has the status 200, and tells the courier, the order, the transport and the deadline
  -- of the assignment.
  pub record AssignTold (body : RequestBody DeliveryRequest) (db : Db) (r : Response) (end : Db)
      : Type 0 where
    pub done : AssignDone body db end
    pub status : r.status ≡ 200
    pub content :
        r.body
        ≡ assigned_body (record {
          courier_id = done.result.courier_id;
          order_id = done.result.order_id;
          transport_type = done.result.transport_type;
          delivery_deadline = done.result.deadline;
        })
    pub location : r.location ≡ none

-- The order of a body has been taken back.
pub record UnassignDone (body : RequestBody DeliveryRequest) (db end : Db) : Type 0 where
  pub request : DeliveryRequest
  pub decoded : decode_json body ≡ inr request
  pub result : UnassignResult
  pub effect : Unassigned (trim_space request.order_id) db end result

-- The reply has the status 200, and tells the order, its status and its courier.
pub record UnassignTold (body : RequestBody DeliveryRequest) (db : Db) (r : Response) (end : Db)
    : Type 0 where
  pub done : UnassignDone body db end
  pub status : r.status ≡ 200
  pub content :
      r.body
      ≡ unassigned_body (record {
        order_id = done.result.order_id;
        status = done.result.status;
        courier_id = done.result.courier_id;
      })
  pub location : r.location ≡ none
