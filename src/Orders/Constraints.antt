-- ===== src/Orders/Constraints.antt =====
-- The processor of internal/service/orders/processor.go keeps the constraints of db/migrations.
use service_courier_platform.Prelude.{String, ℕ, refl, ◌≡◌, sym, subst, Option, none, some}
use service_courier_platform.Errors.{Sentinel, Result, ok, err}
use service_courier_platform.Domain.{Time, Delivery}
use service_courier_platform.Database.{Db, M}
use service_courier_platform.Database.Keeps.{Keeps, bind-Keeps}
use service_courier_platform.Repository.Valid.{ValidAt}
use service_courier_platform.Repository.Deliveries.Preservation.{
  return-Keeps, get_by_order_id-Keeps, update_courier_status-Keeps, with_tx-Keeps,
}
use service_courier_platform.Repository.Deliveries.{with_tx}
use service_courier_platform.DeliveryService.{TimeFactory, assign, unassign}
use service_courier_platform.Orders.{
  Event, delivery_port, Action, on_created, on_canceled, on_completed, forgive, act, complete_body,
  complete_found, run_action, handle, get,
}

pub forgive_state : {A : Type 0} (s : Sentinel) (o : Result A × Db) → (forgive s o).1 ≡ o.1
forgive_state s (ok a, db) = refl
forgive_state s (err e, db) = refl

forgive-Keeps :
    {P : Db → Type 0} {A : Type 0} (s : Sentinel) {m : M A}
    → Keeps P m
    → Keeps P (λ db. forgive s (m db))
forgive-Keeps {P} s {m} h = record {
  at = λ db v. subst P (sym (forgive_state s (m db))) (h.at db v);
}

-- What the three actions keep, the processor keeps.
module _ {P : Db → Type 0} (factory : TimeFactory) (now : Time)
    (assigns : (raw : String) → Keeps P (assign factory now raw))
    (unassigns : (raw : String) → Keeps P (unassign raw))
    (completes : (order_id : String) → Keeps P (with_tx (complete_body order_id))) where
  act-Keeps : (a : Action) (e : Event) → Keeps P (act (delivery_port factory now) a e)
  unfolding act
  act-Keeps on_created e = forgive-Keeps _ (assigns e.order_id)
  act-Keeps on_canceled e = forgive-Keeps _ (unassigns e.order_id)
  act-Keeps on_completed e = completes e.order_id

  run_action-Keeps :
      (a : Option Action) (e : Event) → Keeps P (run_action (delivery_port factory now) a e)
  unfolding run_action
  run_action-Keeps none e = record { at = λ db v. v }
  run_action-Keeps (some a) e = act-Keeps a e

  pub handle-Keeps : (e : Event) → Keeps P (handle (delivery_port factory now) e)
  unfolding handle
  handle-Keeps e = run_action-Keeps (get e.status) e

module _ {n : ℕ} where
  complete_found-Keeps : (found : Option Delivery) → Keeps (ValidAt n) (complete_found found)
  unfolding complete_found
  complete_found-Keeps none = return-Keeps tt
  complete_found-Keeps (some d) = update_courier_status-Keeps _ _ refl

  pub complete-Keeps : (order_id : String) → Keeps (ValidAt n) (with_tx (complete_body order_id))
  unfolding complete_body
  complete-Keeps order_id =
      with_tx-Keeps (bind-Keeps (get_by_order_id-Keeps order_id) complete_found-Keeps)
