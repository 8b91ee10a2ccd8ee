-- ===== src/Board/Moves.antt =====
-- The board after each change of the tables that internal/service makes.
use service_courier_platform.Prelude.{
  All-In, ℤ, ◌≡◌, ◌∙◌, sym, ap, subst, String, map, In, none, some, eq_iff, inl, inr, ◌≤◌, ◌<◌, ◌+◌,
  ◌*◌,
}
use service_courier_platform.Errors.{ok_inj}
use service_courier_platform.Domain.{
  Courier, Delivery, CourierStatus, Time, AssignResult, UnassignResult, status_busy,
  status_available,
}
use service_courier_platform.Database.{Db}
use service_courier_platform.Database.Calls.{SameTables}
use service_courier_platform.Repository.{has_id, find_courier}
use service_courier_platform.Repository.Deliveries.{find_delivery}
use service_courier_platform.Repository.Valid.{restatus, IsValid}
use service_courier_platform.DeliveryService.{minute, deadline, build_delivery}
use service_courier_platform.DeliveryService.Assignment.{Assigned}
use service_courier_platform.System.Deadlines.{Due}
use service_courier_platform.DeliveryService.Unassignment.{Unassigned}
use service_courier_platform.Orders.Redelivery.{Completed}
use service_courier_platform.Repository.Couriers.Created.{Stored}
use service_courier_platform.Board.{
  board, status_in, holder_in, SameAs, turned, Request, assigning, unassigning, completing,
  registering, Move, stays, takes, gives_back, finishes, joins,
}
use service_courier_platform.Board.Statuses.{
  statuses-restatus, find_courier-any, find_courier-In, find_courier_fresh, statuses-cons,
}
use service_courier_platform.Board.Holders.{
  find_delivery-any-false, In-find_delivery, holders-keep, holders-cons,
}

-- Two databases with the same tables have the same board.
pub stay : (a b : Db) {r : Request} → SameTables a b → Move (board b) (board a) r
stay a b s =
    stays (λ i. ap (λ cs. status_in (find_courier i cs)) s.couriers)
      (λ o. ap (λ ds. holder_in (find_delivery o ds)) s.deliveries)

-- One courier's status is written.
pub restated :
    (before after : Db) (i : ℤ) (s : CourierStatus) (c : Courier)
    → find_courier i before.couriers ≡ some c
    → after.couriers ≡ map (restatus (has_id i) s) before.couriers
    → SameAs (board after).status_of (turned i s (board before).status_of)
restated before after i s c found e j =
    ap (λ cs. status_in (find_courier j cs)) e ∙ statuses-restatus s i before.couriers c found j

-- A delivery found has a courier.
owner :
    (db : Db) (o : String) (d : Delivery)
    → IsValid db
    → find_delivery o db.deliveries ≡ some d
    → (c : Courier) × (find_courier d.courier_id db.couriers ≡ some c)
owner db o d v e =
    find_courier-any d.courier_id db.couriers
      (All-In _ db.deliveries d v.owners (In-find_delivery o db.deliveries d e))

module _ (before after : Db) (v : IsValid before) where
  pub Unassigned-Move :
      {order : String} {r : UnassignResult}
      → Unassigned order before after r
      → Move (board before) (board after) (unassigning order)
  Unassigned-Move {order} u =
      let (c, found) = owner before order u.delivery v u.found in
      gives_back order u.delivery.courier_id u.delivery.deadline (ap holder_in u.found)
        (restated before after u.delivery.courier_id status_available c found u.freed)
        (λ o.
          ap (λ ds. holder_in (find_delivery o ds)) u.removed
          ∙ holders-keep order before.deliveries o)

  pub Completed-Move :
      {order : String}
      → Completed order before after
      → Move (board before) (board after) (completing order)
  Completed-Move {order} k = elim k.couriers [
    | inl (gone, same) ↦ stay after before (record { couriers = same; deliveries = k.deliveries })
    | inr (d, held, set) ↦
        let (c, found) = owner before order d v held in
        finishes order d.courier_id d.deadline (ap holder_in held)
          (restated before after d.courier_id status_available c found set)
          (λ o. ap (λ ds. holder_in (find_delivery o ds)) k.deliveries)
  ]

  -- An assignment, when the factory gives deadlines that are near.
  pub Assigned-Move :
      (now : Time) {order : String} {r : AssignResult}
      → ((c : Courier) → In c before.couriers → Due c.transport_type now)
      → Assigned deadline now order before after r
      → Move (board before) (board after) (assigning now order)
  Assigned-Move now {order} k a =
      let d = k a.courier a.chosen.listed in
      let same : d.due ≡ a.due = ok_inj (sym d.given ∙ a.in_time) in
      let found = find_courier-In a.courier before.couriers a.chosen.listed (v.ids a.courier.id) in
      takes now order a.courier.id a.due (subst (λ x. now < x) same d.later)
        (subst (λ x. x ≤ now + 30 * minute) same d.soon)
        (ap status_in found ∙ ap some ((eq_iff _ _).0 a.chosen.available))
        (ap holder_in (find_delivery-any-false order before.deliveries a.fresh))
        (restated before after a.courier.id status_busy a.courier found a.busy)
        (λ o.
          ap (λ ds. holder_in (find_delivery o ds)) a.recorded
          ∙ holders-cons (record (build_delivery now a.due order a.courier) { id = a.row_id })
              before.deliveries o)

  pub Stored-Move :
      {c : Courier} {id : ℤ}
      → Stored c id before after
      → Move (board before) (board after) registering
  Stored-Move {c} {id} s =
      let fresh : find_courier id before.couriers ≡ none =
        ap (λ x. find_courier x before.couriers) s.next
        ∙ find_courier_fresh before.last_courier before.couriers v.bounded in
      joins id c.status (ap status_in fresh)
        (λ j.
          ap (λ cs. status_in (find_courier j cs)) s.couriers
          ∙ statuses-cons id c before.couriers j)
        (λ o. ap (λ ds. holder_in (find_delivery o ds)) s.deliveries)
