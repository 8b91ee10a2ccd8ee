-- ===== src/DeliveryService/Unassignment.antt =====
-- What Unassign of internal/service/delivery/usecase.go has done when it returns a result, and
-- that it undoes Assign.
use service_courier_platform.Prelude.{
  ◌≢◌, ◌≡◌, ◌∙◌, sym, ap, subst, String, not, map, keep, Option, none, some, trim_space,
}
use service_courier_platform.Errors.{ok_inj, ok}
use service_courier_platform.Domain.{Delivery, UnassignResult, status_available}
use service_courier_platform.Database.{Db, call, ◌>>◌, return}
use service_courier_platform.Database.Calls.{SameData, SameData-refl, call-SameData, after-eq-ok}
use service_courier_platform.Repository.{has_id}
use service_courier_platform.Repository.Valid.{restatus}
use service_courier_platform.Repository.Deliveries.{
  of_order, find_delivery, with_tx, get_by_order_id, delete_by_order_id, update_courier_status,
}
use service_courier_platform.Repository.Deliveries.Effects.{
  delete_by_order_id_ok, update_courier_status_ok,
}
use service_courier_platform.Repository.Deliveries.Queries.{get_by_order_id_ok}
use service_courier_platform.Repository.Deliveries.Transactions.{with_tx_commits}
use service_courier_platform.DeliveryService.{
  lift, validate_order_id, unassigned, unassign_found, unassign_body, unassign,
}
use service_courier_platform.DeliveryService.Assignment.{validate_order_id_ok}

-- The order's delivery is gone, its courier is available, and nothing else has changed.
pub record Unassigned (order_id : String) (before after : Db) (r : UnassignResult) : Type 0 where
  pub delivery : Delivery
  pub found : find_delivery order_id before.deliveries ≡ some delivery
  pub result : r ≡ unassigned order_id delivery
  pub removed : after.deliveries ≡ keep (λ d. not (of_order order_id d)) before.deliveries
  pub freed :
      after.couriers ≡ map (restatus (has_id delivery.courier_id) status_available) before.couriers

pub Unassigned-same :
    {order_id : String} {start before end finish : Db} {r : UnassignResult}
    → SameData start before
    → SameData finish end
    → Unassigned order_id start end r
    → Unassigned order_id before finish r
Unassigned-same {order_id} s t u = record {
  delivery = u.delivery;
  found = ap (find_delivery order_id) (sym s.deliveries) ∙ u.found;
  result = u.result;
  removed = t.deliveries ∙ u.removed ∙ ap (keep (λ d. not (of_order order_id d))) s.deliveries;
  freed =
      t.couriers
      ∙ u.freed
      ∙ ap (map (restatus (has_id u.delivery.courier_id) status_available)) s.couriers;
}

unassign_found_ok :
    (order_id : String) (found : Option Delivery) (db : Db) {r : UnassignResult}
    → found ≡ find_delivery order_id db.deliveries
    → (unassign_found order_id found db).0 ≡ ok r
    → Unassigned order_id db (unassign_found order_id found db).1 r
unfolding unassign_found
unassign_found_ok order_id none db f h = cc
unassign_found_ok order_id (some d) db {r} f h =
    let res = unassigned order_id d in
    let rest = update_courier_status d.courier_id status_available >> return res in
    let (u, gone, ran) = after-eq-ok (delete_by_order_id order_id db) (λ _. rest) h in
    let mid = (delete_by_order_id order_id db).1 in
    let (v, set, end) =
      after-eq-ok (update_courier_status d.courier_id status_available mid) (λ _. return res)
        (ap (λ o. o.0) (sym ran) ∙ h) in
    let x = delete_by_order_id_ok order_id db gone in
    let b = update_courier_status_ok d.courier_id status_available mid set in
    let done = ran ∙ end in
    subst (λ o. Unassigned order_id db o.1 r) (sym done)
      (record {
        delivery = d;
        found = sym f;
        result = ok_inj (sym h ∙ ap (λ o. o.0) done);
        removed = b.deliveries ∙ x.deliveries;
        freed = b.couriers ∙ ap (map (restatus (has_id d.courier_id) status_available)) x.couriers;
      })

pub unassign_body_ok :
    (order_id : String) (db : Db) {r : UnassignResult}
    → (unassign_body order_id db).0 ≡ ok r
    → Unassigned order_id db (unassign_body order_id db).1 r
unfolding unassign_body
unassign_body_ok order_id db {r} h =
    let (found, looked, ran) =
      after-eq-ok (get_by_order_id order_id db) (unassign_found order_id) h in
    let (row, same) = get_by_order_id_ok order_id db looked in
    let mid = (get_by_order_id order_id db).1 in
    subst (λ o. Unassigned order_id db o.1 r) (sym ran)
      (Unassigned-same same (SameData-refl _) (
        unassign_found_ok order_id found mid
          (row ∙ sym (ap (find_delivery order_id) same.deliveries)) (ap (λ o. o.0) (sym ran) ∙ h)))

-- When `Unassign` returns a result, the trimmed order id is not empty and had a delivery, which is
-- the one in the result; that delivery is gone, its courier is available, and no other row has
-- changed.
pub unassign_ok :
    (raw : String) (db : Db) {r : UnassignResult}
    → (unassign raw db).0 ≡ ok r
    → (trim_space raw ≢ "") × Unassigned (trim_space raw) db (unassign raw db).1 r
unfolding unassign
unassign_ok raw db {r} h =
    let (order_id, valid, ran) =
      after-eq-ok (lift (validate_order_id raw) db) (λ o. with_tx (unassign_body o)) h in
    let (nonempty, trimmed) = validate_order_id_ok raw valid in
    let (done, kept) = with_tx_commits (unassign_body order_id) db (ap (λ o. o.0) (sym ran) ∙ h) in
    (
      nonempty,
      subst (λ o. Unassigned o db (unassign raw db).1 r) trimmed
          (subst (λ o. Unassigned order_id db o.1 r) (sym ran)
            (Unassigned-same (call-SameData db) kept (unassign_body_ok order_id (call db).1 done))),
    )
