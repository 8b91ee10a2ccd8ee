-- ===== src/Board/Refinement.antt =====
-- The processes implement the board: internal/http/handlers, internal/service/orders and the
-- release of couriers, each on what the driver lets through.
use service_courier_platform.Prelude.{
  All-In, sym, refl, subst, String, Option, none, some, ◌⊎◌, inl, inr, trim_space,
}
use service_courier_platform.Errors.{Sentinel, Result}
use service_courier_platform.Domain.{Courier, Time, AssignResult}
use service_courier_platform.Database.{Db}
use service_courier_platform.Repository.Deliveries.{with_tx}
use service_courier_platform.DeliveryService
use service_courier_platform.DeliveryService.{deadline, release_expired}
use service_courier_platform.DeliveryService.Assignment.{Assigned, assign_ok}
use service_courier_platform.DeliveryService.Unassignment.{unassign_ok}
use service_courier_platform.DeliveryService.Refusal.{
  assign_refused, unassign_refused, complete_refused, release_state,
}
use service_courier_platform.Orders.{
  Event, Action, on_created, on_canceled, on_completed, get, act, run_action, handle, delivery_port,
  complete_body, forgive,
}
use service_courier_platform.Orders.Constraints.{forgive_state}
use service_courier_platform.Orders.Redelivery.{complete_ok}
use service_courier_platform.CourierService
use service_courier_platform.CourierService.Registration.{create_stores, create_refused}
use service_courier_platform.HttpModels.{
  Response, CreateCourierRequest, UpdateCourierRequest, DeliveryRequest, create_to_model,
  update_to_model,
}
use service_courier_platform.Handlers.{
  decode_json, create, create_with, update, update_with, assign, assign_with, unassign,
  unassign_with,
}
use service_courier_platform.System.{
  Step, post_courier, put_courier, post_assign, post_unassign, event, tick, outage,
}
use service_courier_platform.System.Formed.{by_result}
use service_courier_platform.System.Reachability.{IsSound}
use service_courier_platform.System.Deadlines.{known_transport}
use service_courier_platform.Board.{
  board, Request, assigning, unassigning, completing, expiring, registering, nothing, editing, Move,
  stays,
}
use service_courier_platform.Board.Moves.{
  stay, Assigned-Move, Unassigned-Move, Completed-Move, Stored-Move,
}
use service_courier_platform.Board.Lapse.{Released-Move}
use service_courier_platform.Board.Editing.{update-Move}

-- What a body asks for: nothing, when it cannot be decoded.
abbrev wanted : {A : Type 0} → (A → Request) → Response ⊎ A → Request
wanted f (inl r) = nothing
wanted f (inr a) = f a

abbrev action_request : Time → Event → Option Action → Request
action_request now e none = nothing
action_request now e (some on_created) = assigning now (trim_space e.order_id)
action_request now e (some on_canceled) = unassigning (trim_space e.order_id)
action_request now e (some on_completed) = completing e.order_id

-- What a step asks for. Of a request for an assignment, the order's id is trimmed; of an event
-- `completed` it is not.
abbrev pub request_of : {db after : Db} → Step db after → Request
request_of (post_courier body) = registering
request_of (put_courier body) = wanted (λ q. editing (update_to_model q).id) (decode_json body)
request_of (post_assign now body) =
    wanted (λ q. assigning now (trim_space q.order_id)) (decode_json body)
request_of (post_unassign body) =
    wanted (λ q. unassigning (trim_space q.order_id)) (decode_json body)
request_of (event now e) = action_request now e (get e.status)
request_of (tick now) = expiring now
request_of (outage fs) = nothing

resting : (db : Db) {r : Request} → Move (board db) (board db) r
resting db = stays (λ i. refl) (λ o. refl)

module _ (db : Db) (s : IsSound db) where
  Assigned-by_deadline :
      (now : Time) {order : String} {end : Db} {r : AssignResult}
      → Assigned deadline now order db end r
      → Move (board db) (board end) (assigning now order)
  Assigned-by_deadline now {end} a =
      Assigned-Move db end s.valid now
        (λ c i. known_transport c.transport_type now (All-In _ db.couriers c s.formed i).transport)
        a

  assign-Move :
      (now : Time) (raw : String)
      → Move
          (board db)
          (board (DeliveryService.assign deadline now raw db).1)
          (assigning now (trim_space raw))
  assign-Move now raw =
      by_result (λ d. Move (board db) (board d) (assigning now (trim_space raw)))
        (DeliveryService.assign deadline now raw db)
        (λ r k. Assigned-by_deadline now (assign_ok deadline now raw db k).1)
        (λ e k. elim (assign_refused deadline now raw db k) [
          | inl same ↦ stay _ db same
          | inr (r, a) ↦ Assigned-by_deadline now a
        ])

  unassign-Move :
      (raw : String)
      → Move (board db) (board (DeliveryService.unassign raw db).1) (unassigning (trim_space raw))
  unassign-Move raw =
      by_result (λ d. Move (board db) (board d) (unassigning (trim_space raw)))
        (DeliveryService.unassign raw db)
        (λ r k. Unassigned-Move db _ s.valid (unassign_ok raw db k).1)
        (λ e k. elim (unassign_refused raw db k) [
          | inl same ↦ stay _ db same
          | inr (r, u) ↦ Unassigned-Move db _ s.valid u
        ])

  complete-Move :
      (order : String)
      → Move (board db) (board (with_tx (complete_body order) db).1) (completing order)
  complete-Move order =
      by_result (λ d. Move (board db) (board d) (completing order))
        (with_tx (complete_body order) db)
        (λ r k. Completed-Move db _ s.valid (complete_ok order db k))
        (λ e k. elim (complete_refused order db k) [
          | inl same ↦ stay _ db same
          | inr c ↦ Completed-Move db _ s.valid c
        ])

  release-Move : (now : Time) → Move (board db) (board (release_expired now db).1) (expiring now)
  release-Move now = elim (release_state now db) [
    | inl same ↦ stay _ db same
    | inr r ↦ Released-Move db s.valid _ now r
  ]

  create-Move :
      (c : Courier) → Move (board db) (board (CourierService.create (some c) db).1) registering
  create-Move c =
      by_result (λ d. Move (board db) (board d) registering) (CourierService.create (some c) db)
        (λ id k. Stored-Move db _ s.valid (create_stores c db k).1)
        (λ e k. elim (create_refused c db k) [
          | inl same ↦ stay _ db same
          | inr (id, w, st) ↦ Stored-Move db _ s.valid st
        ])

  forgiven-Move :
      {A : Type 0} (l : Sentinel) (o : Result A × Db) {r : Request}
      → Move (board db) (board o.1) r
      → Move (board db) (board (forgive l o).1) r
  forgiven-Move l o {r} m = subst (λ d. Move (board db) (board d) r) (sym (forgive_state l o)) m

  action-Move :
      (now : Time) (e : Event) (a : Option Action)
      → Move
          (board db)
          (board (run_action (delivery_port deadline now) a e db).1)
          (action_request now e a)
  unfolding run_action act
  action-Move now e none = resting db
  action-Move now e (some on_created) = forgiven-Move _ _ (assign-Move now e.order_id)
  action-Move now e (some on_canceled) = forgiven-Move _ _ (unassign-Move e.order_id)
  action-Move now e (some on_completed) = complete-Move e.order_id

  created-Move :
      (d : Response ⊎ CreateCourierRequest)
      → Move (board db) (board (create_with d db).1) registering
  unfolding create_with
  created-Move (inl r) = resting db
  created-Move (inr q) = create-Move (create_to_model q)

  updated-Move :
      (d : Response ⊎ UpdateCourierRequest)
      → Move
          (board db)
          (board (update_with d db).1)
          (wanted (λ q. editing (update_to_model q).id) d)
  unfolding update_with
  updated-Move (inl r) = resting db
  updated-Move (inr q) = update-Move (update_to_model q) db

  assigned-Move :
      (now : Time) (d : Response ⊎ DeliveryRequest)
      → Move
          (board db)
          (board (assign_with deadline now d db).1)
          (wanted (λ q. assigning now (trim_space q.order_id)) d)
  unfolding assign_with
  assigned-Move now (inl r) = resting db
  assigned-Move now (inr q) = assign-Move now q.order_id

  unassigned-Move :
      (d : Response ⊎ DeliveryRequest)
      → Move
          (board db)
          (board (unassign_with d db).1)
          (wanted (λ q. unassigning (trim_space q.order_id)) d)
  unfolding unassign_with
  unassigned-Move (inl r) = resting db
  unassigned-Move (inr q) = unassign-Move q.order_id

-- Every step of the processes from a sound database is, on the board, a move that its request
-- allows: an assignment of an available courier to an order that nobody holds, with a deadline
-- within thirty minutes; the return of a held order; the end of an order, which its courier keeps;
-- the release of exactly the busy couriers that are late; a new courier; a new status; or nothing.
pub Step-Move :
    {db after : Db} (s : Step db after) → IsSound db → Move (board db) (board after) (request_of s)
unfolding create update assign unassign handle
Step-Move {db} (post_courier body) s = created-Move db s (decode_json body)
Step-Move {db} (put_courier body) s = updated-Move db s (decode_json body)
Step-Move {db} (post_assign now body) s = assigned-Move db s now (decode_json body)
Step-Move {db} (post_unassign body) s = unassigned-Move db s (decode_json body)
Step-Move {db} (event now e) s = action-Move db s now e (get e.status)
Step-Move {db} (tick now) s = release-Move db s now
Step-Move {db} (outage fs) s = resting db
