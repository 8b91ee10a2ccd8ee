-- ===== src/DeliveryService/Refusal.antt =====
-- Assign, Unassign and ReleaseExpired of internal/service/delivery/usecase.go when they fail, and the
-- transaction of a completed order.
use service_courier_platform.Prelude.{
  ◌≡◌, ◌∙◌, sym, subst, ◌⊎◌, inl, inr, String, refl, ℕ, trim_space,
}
use service_courier_platform.Errors.{Err, Result, ok, err}
use service_courier_platform.Domain.{Time, AssignResult, UnassignResult}
use service_courier_platform.Database.{Db, return, call, exec, after, relabel}
use service_courier_platform.Database.Keeps.{relabel_state}
use service_courier_platform.Database.Calls.{SameTables, SameData, call-SameData, exec_state}
use service_courier_platform.Repository.Deliveries.{with_tx, release_couriers, release_rows}
use service_courier_platform.Repository.Deliveries.Transactions.{with_tx_atomic, undone, unheard}
use service_courier_platform.DeliveryService.{
  TimeFactory, lift, validate_order_id, assign, assign_body, unassign, unassign_body,
  release_expired,
}
use service_courier_platform.DeliveryService.Assignment.{
  Assigned, Assigned-same, assign_body_ok, validate_order_id_ok,
}
use service_courier_platform.DeliveryService.Unassignment.{
  Unassigned, Unassigned-same, unassign_body_ok,
}
use service_courier_platform.DeliveryService.Release.{Released, released}
use service_courier_platform.Orders.{complete_body}
use service_courier_platform.Orders.Redelivery.{Completed, Completed-same, complete_body_ok}

pub tables_of : {a b : Db} → SameData a b → SameTables a b
tables_of s = record { couriers = s.couriers; deliveries = s.deliveries }

-- When `Assign` returns an error, no table has changed; or the assignment has been made, and the
-- answer of its commit was lost.
pub assign_refused :
    (factory : TimeFactory) (now : Time) (raw : String) (db : Db) {e : Err}
    → (assign factory now raw db).0 ≡ err e
    → SameTables (assign factory now raw db).1 db
      ⊎ ((r : AssignResult) × Assigned factory now
            (trim_space raw)
            db
            (assign factory now raw db).1
            r)
unfolding assign
assign_refused factory now raw db {e} h = validated (validate_order_id raw) refl h
  where
    validated :
        (v : Result String)
        → validate_order_id raw ≡ v
        → (after (lift v db) (λ o. with_tx (assign_body factory now o))).0 ≡ err e
        → SameTables (after (lift v db) (λ o. with_tx (assign_body factory now o))).1 db
          ⊎ ((r : AssignResult) × Assigned factory now
                (trim_space raw)
                db
                (after (lift v db) (λ o. with_tx (assign_body factory now o))).1
                r)
    validated (err x) q k = inl (record { couriers = refl; deliveries = refl })
    validated (ok o) q k = elim (with_tx_atomic (assign_body factory now o) db k) [
      | undone s ↦ inl s
      | unheard r lost why ran kept ↦ inr (
        r,
        subst (λ i. Assigned factory now i db (with_tx (assign_body factory now o) db).1 r)
            (validate_order_id_ok raw q).1
            (Assigned-same factory now (call-SameData db) kept
              (assign_body_ok factory now o (call db).1 ran)),
      )
    ]

-- The same of `Unassign`.
pub unassign_refused :
    (raw : String) (db : Db) {e : Err}
    → (unassign raw db).0 ≡ err e
    → SameTables (unassign raw db).1 db
      ⊎ ((r : UnassignResult) × Unassigned (trim_space raw) db (unassign raw db).1 r)
unfolding unassign
unassign_refused raw db {e} h = validated (validate_order_id raw) refl h
  where
    validated :
        (v : Result String)
        → validate_order_id raw ≡ v
        → (after (lift v db) (λ o. with_tx (unassign_body o))).0 ≡ err e
        → SameTables (after (lift v db) (λ o. with_tx (unassign_body o))).1 db
          ⊎ ((r : UnassignResult) × Unassigned
                (trim_space raw)
                db
                (after (lift v db) (λ o. with_tx (unassign_body o))).1
                r)
    validated (err x) q k = inl (record { couriers = refl; deliveries = refl })
    validated (ok o) q k = elim (with_tx_atomic (unassign_body o) db k) [
      | undone s ↦ inl s
      | unheard r lost why ran kept ↦ inr (
        r,
        subst (λ i. Unassigned i db (with_tx (unassign_body o) db).1 r)
            (validate_order_id_ok raw q).1
            (Unassigned-same (call-SameData db) kept (unassign_body_ok o (call db).1 ran)),
      )
    ]

-- The same of the transaction of a completed order.
pub complete_refused :
    (order_id : String) (db : Db) {e : Err}
    → (with_tx (complete_body order_id) db).0 ≡ err e
    → SameTables (with_tx (complete_body order_id) db).1 db
      ⊎ Completed order_id db (with_tx (complete_body order_id) db).1
complete_refused order_id db h = elim (with_tx_atomic (complete_body order_id) db h) [
  | undone s ↦ inl s
  | unheard u lost why ran kept ↦
      inr (Completed-same (call-SameData db) kept (complete_body_ok order_id (call db).1 ran))
]

end_of_release : (o : Result ℕ × Db) → (after o (λ _. return tt)).1 ≡ o.1
end_of_release (ok k, db) = refl
end_of_release (err e, db) = refl

-- Whatever `ReleaseExpired` answers, no table has changed, or the couriers are released.
pub release_state :
    (now : Time) (db : Db)
    → SameTables (release_expired now db).1 db ⊎ Released now db (release_expired now db).1
unfolding release_expired release_couriers
release_state now db =
    let same : (release_expired now db).1 ≡ (exec (release_rows now) db).1 =
      end_of_release (relabel "release expired couriers" (exec (release_rows now) db))
      ∙ relabel_state "release expired couriers" (exec (release_rows now) db) in
    subst (λ d. SameTables d db ⊎ Released now db d) (sym same)
      (elim (exec_state (release_rows now) db) [
        | inl e ↦ inl (subst (λ d. SameTables d db) (sym e) (tables_of (call-SameData db)))
        | inr e ↦
            inr (subst (Released now db) (sym e) (released now (call db).1 db (call-SameData db)))
      ])
