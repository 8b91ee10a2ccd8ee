-- ===== src/DeliveryService/Constraints.antt =====
-- The delivery service keeps the constraints of db/migrations, whatever calls fail.
use service_courier_platform.Prelude.{ℕ, String, refl, Option, none, some}
use service_courier_platform.Errors.{Result}
use service_courier_platform.Domain.{Time, Courier, Delivery}
use service_courier_platform.Database.Keeps.{Keeps, bind-Keeps, then-Keeps}
use service_courier_platform.Repository.Valid.{ValidAt}
use service_courier_platform.Repository.Deliveries.Preservation.{
  return-Keeps, fail-Keeps, update_courier_status-Keeps, insert_delivery-Keeps,
  delete_by_order_id-Keeps, get_by_order_id-Keeps, find_available_courier_for_update-Keeps,
  with_tx-Keeps, release_couriers-Keeps,
}
use service_courier_platform.DeliveryService.{
  TimeFactory, lift, assign, assign_body, assign_found, assign_to, unassign, unassign_body,
  unassign_found, release_expired,
}

module _ {n : ℕ} where
  lift-Keeps : {A : Type 0} (r : Result A) → Keeps (ValidAt n) (lift r)
  lift-Keeps r = record { at = λ db v. v }

  assign_found-Keeps :
      (factory : TimeFactory) (now : Time) (order_id : String) (found : Option Courier)
      → Keeps (ValidAt n) (assign_found factory now order_id found)
  unfolding assign_found assign_to
  assign_found-Keeps factory now order_id none = fail-Keeps _
  assign_found-Keeps factory now order_id (some c) = bind-Keeps (lift-Keeps _) (λ due.
      then-Keeps (insert_delivery-Keeps _)
        (then-Keeps (update_courier_status-Keeps _ _ refl) (return-Keeps _)))

  pub assign-Keeps :
      (factory : TimeFactory) (now : Time) (raw : String)
      → Keeps (ValidAt n) (assign factory now raw)
  unfolding assign assign_body
  assign-Keeps factory now raw = bind-Keeps (lift-Keeps _) (λ order_id. with_tx-Keeps (
      bind-Keeps find_available_courier_for_update-Keeps (assign_found-Keeps factory now order_id)))

  unassign_found-Keeps :
      (order_id : String) (found : Option Delivery)
      → Keeps (ValidAt n) (unassign_found order_id found)
  unfolding unassign_found
  unassign_found-Keeps order_id none = fail-Keeps _
  unassign_found-Keeps order_id (some d) =
      then-Keeps (delete_by_order_id-Keeps _)
        (then-Keeps (update_courier_status-Keeps _ _ refl) (return-Keeps _))

  pub unassign-Keeps : (raw : String) → Keeps (ValidAt n) (unassign raw)
  unfolding unassign unassign_body
  unassign-Keeps raw = bind-Keeps (lift-Keeps _) (λ order_id.
      with_tx-Keeps (bind-Keeps (get_by_order_id-Keeps _) (unassign_found-Keeps order_id)))

  pub release_expired-Keeps : (now : Time) → Keeps (ValidAt n) (release_expired now)
  unfolding release_expired
  release_expired-Keeps now = then-Keeps (release_couriers-Keeps now) (return-Keeps tt)
