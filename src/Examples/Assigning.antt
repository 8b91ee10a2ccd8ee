-- ===== src/Examples/Assigning.antt =====
-- The delivery service on a small office: internal/service/delivery/usecase.go.
use service_courier_platform.Prelude.{
  ◌≡◌, ◌≢◌, refl, pos, ◌+◌, ◌*◌, trim_space, In, inl, inr, arith, [], ◌∷◌, none, some,
}
use service_courier_platform.Errors.{ok, err, text, wrap}
use service_courier_platform.Domain.{AssignResult, UnassignResult}
use service_courier_platform.Database.{exec, Db, call, broken}
use service_courier_platform.Database.Calls.{SameTables}
use service_courier_platform.Repository.Deliveries.{
  with_tx, find_available_courier_for_update, first_available, insert_delivery,
  update_courier_status, get_by_order_id, delete_by_order_id, release_couriers,
}
use mathlib.Core.List.{Permᴰ}
use mathlib.Core.List.Permᴰ
use service_courier_platform.Repository.Deliveries.Unordered.{first_available-Perm}
use service_courier_platform.Repository.Deliveries.Transactions.{Ended, with_tx_atomic}
use service_courier_platform.DeliveryService.{
  assign, assign_body, unassign, unassign_body, release_expired, deadline, minute,
  validate_order_id,
}
use service_courier_platform.DeliveryService.Assignment.{Assigned, assign_ok}
use service_courier_platform.DeliveryService.Unassignment.{Unassigned, unassign_ok}
use service_courier_platform.DeliveryService.Undo.{unassign-assign}
use service_courier_platform.DeliveryService.Outcomes.{assign_answer, assign-answer}
use service_courier_platform.DeliveryService.Release.{release_expired-frees_running}
use service_courier_platform.Examples.{
  anna, boris, boris, noon, overdue, running, office, office-IsValid,
}

abbrev anna_result : AssignResult
anna_result = record {
  courier_id = pos 1;
  order_id = "order-3";
  transport_type = "car";
  deadline = noon + 5 * minute;
}

to_anna : (assign deadline noon " order-3 " office).0 ≡ ok anna_result
unfolding assign deadline validate_order_id trim_space with_tx call assign_body
    find_available_courier_for_update first_available insert_delivery update_courier_status
to_anna = refl

assign_ok_example :
    (trim_space " order-3 " ≢ "")
    × Assigned deadline noon
        (trim_space " order-3 ")
        office
        (assign deadline noon " order-3 " office).1
        anna_result
assign_ok_example = assign_ok deadline noon " order-3 " office to_anna

abbrev boris_result : UnassignResult
boris_result = record { courier_id = pos 2; order_id = "order-2"; status = "unassigned" }

from_boris : (unassign "order-2" office).0 ≡ ok boris_result
unfolding unassign validate_order_id trim_space with_tx call unassign_body get_by_order_id
    delete_by_order_id update_courier_status
from_boris = refl

unassign_ok_example :
    (trim_space "order-2" ≢ "")
    × Unassigned (trim_space "order-2") office (unassign "order-2" office).1 boris_result
unassign_ok_example = unassign_ok "order-2" office from_boris

abbrev back_result : UnassignResult
back_result = record { courier_id = pos 1; order_id = "order-3"; status = "unassigned" }

and_back : (unassign " order-3 " (assign deadline noon " order-3 " office).1).0 ≡ ok back_result
unfolding unassign assign deadline validate_order_id trim_space with_tx call assign_body
    find_available_courier_for_update first_available insert_delivery update_courier_status
    unassign_body get_by_order_id delete_by_order_id
and_back = refl

unassign-assign_example :
    SameTables (unassign " order-3 " (assign deadline noon " order-3 " office).1).1 office
unassign-assign_example =
    unassign-assign deadline noon " order-3 " office office-IsValid to_anna and_back

assign-answer_example :
    (assign deadline noon "order-2" office).0 ≡ assign_answer deadline noon office "order-2"
assign-answer_example = assign-answer deadline noon office "order-2" refl

released : (release_expired noon office).0 ≡ ok tt
unfolding release_expired release_couriers call exec
released = refl

release_expired-frees_running_example :
    In (record boris { status = "available" }) (release_expired noon office).1.couriers
    × In running (release_expired noon office).1.deliveries
release_expired-frees_running_example =
    release_expired-frees_running noon office boris overdue running (inr (inl refl)) refl
      (inr (inl refl)) refl (omega arith) (inl refl) refl (omega arith) released

-- The connection breaks on the third call of the transaction, after the insert.
abbrev cut : Db
cut = record office { faults = none ∷ none ∷ none ∷ some (broken "reset") ∷ [] }

cut_off_run :
    (with_tx (assign_body deadline noon "order-3") cut).0
    ≡ err (wrap "update courier status" (text "reset"))
unfolding with_tx assign_body deadline call find_available_courier_for_update first_available
    insert_delivery update_courier_status
cut_off_run = refl

with_tx_atomic_example :
    Ended
      (assign_body deadline noon "order-3")
      cut
      (wrap "update courier status" (text "reset"))
      (with_tx (assign_body deadline noon "order-3") cut).1
with_tx_atomic_example = with_tx_atomic (assign_body deadline noon "order-3") cut cut_off_run

-- The couriers in the other order.
first_available-Perm_example :
    first_available office.deliveries office.couriers
    ≡ first_available office.deliveries (boris ∷ anna ∷ [])
first_available-Perm_example =
    first_available-Perm office.deliveries office.deliveries office.couriers (boris ∷ anna ∷ [])
      office-IsValid.ids (Permᴰ.refl office.deliveries) (Permᴰ.swap refl refl)
