-- ===== src/Repository/Deliveries.antt =====
-- DeliveryRepo and TxRepo of internal/repository/delivery.go, their SQL statements among it.
pub mod Transactions
pub mod Choice
pub mod Effects
pub mod Healthy
pub mod Unordered
pub mod Queries
pub mod Preservation
use service_courier_platform.Prelude.{
  ℕ, suc, ℤ, pos, String, Bool, not, ◌&&◌, ◌||◌, ◌==◌, List, [], ◌∷◌, map, Option, none, some, eqb,
  eqb_ℤ, ltb_ℤ, ltb, leb, any, keep, count, if◌then◌else◌, text_length,
}
use service_courier_platform.Errors.{Err, sentinel, no_rows, pg, text, wrap, Result, ok, err}
use service_courier_platform.Domain.{
  Courier, Delivery, CourierStatus, Time, status_available, status_busy,
}
use service_courier_platform.Database.{
  is_late, exec, check_status, Db, M, ◌>>=◌, ◌>>◌, return, fail, labelled, call, restore,
}
use service_courier_platform.Repository.{has_id, or_missing}

-- `tx.Rollback` after the error of the body; its own error hides that one.
rolled_back : {A : Type 0} → Err → Result (Unit {0}) × Db → Result A × Db
rolled_back e (ok _, db) = (err e, db)
rolled_back e (err r, db) = (err (wrap "rollback tx" r), db)

-- `tx.Commit`. The changes of a transaction stay when the server has committed it, which it may
-- have done although the call fails; they are gone when it has not.
committed : {A : Type 0} → A → Db → Bool → Result (Unit {0}) × Db → Result A × Db
committed a start done (ok _, db) = (ok a, db)
committed a start done (err e, db) =
    (err (wrap "commit tx" e), if done then db else restore start db)

-- PostgreSQL drops the changes of a transaction that is rolled back, or whose connection is lost.
finish : {A : Type 0} → Db → Result A × Db → Result A × Db
unfolding rolled_back committed
finish start (err e, db) = rolled_back e (call (restore start db))
finish start (ok a, db) = committed a start (is_late db.faults) (call db)

-- `DeliveryRepo.WithTx`. The body returns its result, where the program's closure assigns it.
unfoldable pub with_tx : {A : Type 0} → M A → M A
unfolding finish
with_tx fn = do labelled "begin tx" call; λ start. finish start (fn start)

-- `(SELECT COUNT(*) FROM delivery d WHERE d.courier_id = c.id)`.
abbrev pub load : List Delivery → Courier → ℕ
load ds c = count (λ d. eqb_ℤ d.courier_id c.id) ds

-- The order of `ORDER BY load ASC, c.id ASC`, strictly.
abbrev pub precedes : List Delivery → Courier → Courier → Bool
precedes ds c d = ltb (load ds c) (load ds d) || (eqb (load ds c) (load ds d) && ltb_ℤ c.id d.id)

abbrev pub is_available : Courier → Bool
is_available c = c.status == status_available

-- The first of the available couriers in that order.
unfoldable pub first_available : List Delivery → List Courier → Option Courier
first_available ds [] = none
first_available ds (c ∷ cs) =
    let rest = first_available ds cs in
    if is_available c
    then elim rest [ none ↦ some c | some d ↦ if precedes ds d c then some d else some c ]
    else rest

select_available : M Courier
select_available db = elim (first_available db.deliveries db.couriers) [
  | none ↦ (err (sentinel no_rows), db)
  | some c ↦ (ok c, db)
]

-- `TxRepo.FindAvailableCourierForUpdate`.
unfoldable pub find_available_courier_for_update : M (Option Courier)
unfolding select_available
find_available_courier_for_update db =
    or_missing "find available courier" ((call >> select_available) db)

-- `if ct.RowsAffected() == 0 { return fmt.Errorf(…) }`.
abbrev pub require_rows : Err → ℕ → M (Unit {0})
require_rows e affected = if eqb affected 0 then fail e else return tt

-- The `UPDATE` of one courier's status, with the number of rows affected.
set_status : ℤ → CourierStatus → M ℕ
set_status id status db =
    if any (has_id id) db.couriers && not (check_status status) then (err (pg "23514"), db) else (
      ok (count (has_id id) db.couriers),
      record db {
        couriers = map (λ c. if has_id id c then record c { status = status } else c) db.couriers;
      },
    )

-- `TxRepo.UpdateCourierStatus`.
unfoldable pub update_courier_status : ℤ → CourierStatus → M (Unit {0})
unfolding set_status
update_courier_status id status = do
  affected ← labelled "update courier status" (call >> set_status id status)
  require_rows (text "courier not found") affected

-- The `INSERT`: the text fits its column, the sequence moves on, the constraints are checked.
insert_row : Delivery → M ℤ
insert_row d db =
    let id : ℤ = pos (suc db.last_delivery) in
    let next = record db { last_delivery = suc db.last_delivery } in
    if not (leb (text_length d.order_id) 255)
    then (err (pg "22001"), next)
    else if any (λ e. e.order_id == d.order_id) db.deliveries
    then (err (pg "23505"), next)
    else if any (has_id d.courier_id) db.couriers
    then (ok id, record next { deliveries = record d { id = id } ∷ db.deliveries })
    else (err (pg "23503"), next)

-- `TxRepo.InsertDelivery`; the id that it writes into the delivery is its result.
unfoldable pub insert_delivery : Delivery → M ℤ
unfolding insert_row
insert_delivery d = labelled "insert delivery" (call >> insert_row d)

abbrev pub of_order : String → Delivery → Bool
of_order order_id d = d.order_id == order_id

abbrev pub find_delivery : String → List Delivery → Option Delivery
find_delivery order_id [] = none
find_delivery order_id (d ∷ ds) = if of_order order_id d then some d else find_delivery order_id ds

select_delivery : String → M Delivery
select_delivery order_id db = elim (find_delivery order_id db.deliveries) [
  | none ↦ (err (sentinel no_rows), db)
  | some d ↦ (ok d, db)
]

-- `TxRepo.GetByOrderID`.
unfoldable pub get_by_order_id : String → M (Option Delivery)
unfolding select_delivery
get_by_order_id order_id db =
    or_missing "get delivery by order" ((call >> select_delivery order_id) db)

delete_rows : String → M ℕ
delete_rows order_id db = (
  ok (count (of_order order_id) db.deliveries),
  record db { deliveries = keep (λ d. not (of_order order_id d)) db.deliveries },
)

-- `TxRepo.DeleteByOrderID`.
unfoldable pub delete_by_order_id : String → M (Unit {0})
unfolding delete_rows
delete_by_order_id order_id = do
  affected ← labelled "delete delivery by order" (call >> delete_rows order_id)
  require_rows (text "delivery not found") affected

-- The `WHERE` clause of the release: busy, with a delivery whose deadline has passed.
abbrev pub is_expired : Time → List Delivery → Courier → Bool
is_expired now ds c =
    c.status == status_busy && any (λ d. eqb_ℤ d.courier_id c.id && ltb d.deadline now) ds

unfoldable pub release_rows : Time → M ℕ
release_rows now db = (
  ok (count (is_expired now db.deliveries) db.couriers),
  record db {
    couriers =
        map
          (λ c.
            if is_expired now db.deliveries c then record c { status = status_available } else c)
          db.couriers;
  },
)

-- `DeliveryRepo.ReleaseCouriers`.
unfoldable pub release_couriers : Time → M ℕ
unfolding release_rows
release_couriers now = labelled "release expired couriers" (exec (release_rows now))
