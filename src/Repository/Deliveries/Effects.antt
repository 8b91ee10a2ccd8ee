-- ===== src/Repository/Deliveries/Effects.antt =====
-- What the operations of internal/repository/delivery.go have done when they succeed.
use service_courier_platform.Prelude.{
  ℕ, suc, ℤ, pos, ◌≡◌, ◌∙◌, sym, ap, String, true, false, not, ◌∷◌, any, Bool-cases, subst,
  count-zero_of_any, any_of_count, inl, inr, arith, text_length, leb, map, keep, eqb, ◌≢◌,
}
use service_courier_platform.Errors.{err_ok, Err, Result, ok, text}
use service_courier_platform.Domain.{Delivery, CourierStatus}
use service_courier_platform.Database.{Db, M, call, check_status, labelled, ◌>>◌, ◌>>=◌}
use service_courier_platform.Database.Calls.{SameData, Ran, call-then_ok, after-eq-ok}
use service_courier_platform.Repository.{has_id}
use service_courier_platform.Repository.Valid.{restatus}
use service_courier_platform.Repository.Deliveries.{
  require_rows, of_order, set_status, insert_row, delete_rows, update_courier_status,
  insert_delivery, delete_by_order_id,
}

-- An inserted row: its order had none, and nothing else changed.
pub record Inserted (d : Delivery) (before after : Db) : Type 0 where
  pub fresh : any (of_order d.order_id) before.deliveries ≡ false
  pub owned : any (has_id d.courier_id) before.couriers ≡ true
  pub id : ℤ
  pub deliveries : after.deliveries ≡ record d { id = id } ∷ before.deliveries
  pub couriers : after.couriers ≡ before.couriers

insert_row_ok :
    (d : Delivery) (db : Db) {i : ℤ}
    → (insert_row d db).0 ≡ ok i
    → Inserted d db (insert_row d db).1
unfolding insert_row
insert_row_ok d db h = elim (Bool-cases (leb (text_length d.order_id) 255)) [
  | inr long ↦ absurd (err_ok (rw long at h))
  | inl fits ↦ elim (Bool-cases (any (of_order d.order_id) db.deliveries)) [
    | inl taken ↦ absurd (err_ok (rw (fits, taken) at h))
    | inr fresh ↦ elim (Bool-cases (any (has_id d.courier_id) db.couriers)) [
      | inr orphan ↦ absurd (err_ok (rw (fits, fresh, orphan) at h))
      | inl owned ↦ record {
        fresh = fresh;
        owned = owned;
        id = pos (suc db.last_delivery);
        deliveries = rw (fits, fresh, owned);
        couriers = rw (fits, fresh, owned);
      }
    ]
  ]
]

Inserted-same :
    (d : Delivery) {start before after : Db}
    → SameData start before
    → Inserted d start after
    → Inserted d before after
Inserted-same d s i = record {
  fresh = ap (any (of_order d.order_id)) (sym s.deliveries) ∙ i.fresh;
  owned = ap (any (has_id d.courier_id)) (sym s.couriers) ∙ i.owned;
  id = i.id;
  deliveries = i.deliveries ∙ ap (λ t. record d { id = i.id } ∷ t) s.deliveries;
  couriers = i.couriers ∙ s.couriers;
}

pub insert_delivery_ok :
    (d : Delivery) (db : Db) {i : ℤ}
    → (insert_delivery d db).0 ≡ ok i
    → Inserted d db (insert_delivery d db).1
unfolding insert_delivery
insert_delivery_ok d db h =
    let r = call-then_ok (insert_row d) "insert delivery" db h in
    subst (λ o. Inserted d db o.1) (sym r.ran)
      (Inserted-same d r.same (insert_row_ok d r.start (ap (λ o. o.0) (sym r.ran) ∙ h)))

-- A written status: the courier is there, and only its status changed.
pub record StatusSet (id : ℤ) (status : CourierStatus) (before after : Db) : Type 0 where
  pub there : any (has_id id) before.couriers ≡ true
  pub couriers : after.couriers ≡ map (restatus (has_id id) status) before.couriers
  pub deliveries : after.deliveries ≡ before.deliveries

StatusSet-same :
    (id : ℤ) (status : CourierStatus) {start before after : Db}
    → SameData start before
    → StatusSet id status start after
    → StatusSet id status before after
StatusSet-same id status s i = record {
  there = ap (any (has_id id)) (sym s.couriers) ∙ i.there;
  couriers = i.couriers ∙ ap (map (restatus (has_id id) status)) s.couriers;
  deliveries = i.deliveries ∙ s.deliveries;
}

set_status_ok :
    (id : ℤ) (status : CourierStatus) (db : Db) {k : ℕ}
    → (set_status id status db).0 ≡ ok k
    → k ≢ 0
    → StatusSet id status db (set_status id status db).1
unfolding set_status
set_status_ok id status db {k} h nz = elim (Bool-cases (any (has_id id) db.couriers)) [
  | inr no_row ↦ absurd (nz (ground (arith, count-zero_of_any (has_id id) db.couriers no_row)))
  | inl row ↦ elim (Bool-cases (check_status status)) [
    | inl good ↦ record { there = row; couriers = rw (row, good); deliveries = rw (row, good) }
    | inr bad ↦ absurd (err_ok (rw (row, bad) at h))
  ]
]

-- A counted statement that affected rows.
record Counted (m : M ℕ) (db : Db) (out : Result (Unit {0}) × Db) : Type 0 where
  start : Db
  same : SameData start db
  rows : ℕ
  some_rows : rows ≢ 0
  counted : (m start).0 ≡ ok rows
  state : out.1 ≡ (m start).1

require_ok :
    (m : M ℕ) (e : Err) (db : Db) (k : ℕ) (r : Result ℕ × Db) {u : Unit {0}}
    → r.0 ≡ ok k
    → Ran m db r
    → (require_rows e k r.1).0 ≡ ok u
    → Counted m db (require_rows e k r.1)
require_ok m e db k r counted ran h = elim (Bool-cases (eqb k 0)) [
  | inl z ↦ absurd (err_ok (rw z at h))
  | inr z ↦ record {
    start = ran.start;
    same = ran.same;
    rows = k;
    some_rows = ground arith;
    counted = ap (λ o. o.0) (sym ran.ran) ∙ counted;
    state = rw z (ap (λ o. o.1) ran.ran);
  }
]

Counted-ok :
    (m : M ℕ) (l : String) (e : Err) (db : Db) {u : Unit {0}}
    → ((labelled l (call >> m) >>= require_rows e) db).0 ≡ ok u
    → Counted m db ((labelled l (call >> m) >>= require_rows e) db)
Counted-ok m l e db h =
    let (k, counted, rest) = after-eq-ok (labelled l (call >> m) db) (require_rows e) h in
    subst (Counted m db) (sym rest) (
      require_ok m e db k (labelled l (call >> m) db) counted (call-then_ok m l db counted)
        (ap (λ o. o.0) (sym rest) ∙ h))

pub update_courier_status_ok :
    (id : ℤ) (status : CourierStatus) (db : Db) {u : Unit {0}}
    → (update_courier_status id status db).0 ≡ ok u
    → StatusSet id status db (update_courier_status id status db).1
unfolding update_courier_status
update_courier_status_ok id status db h =
    let c =
      Counted-ok (set_status id status) "update courier status" (text "courier not found") db h in
    subst (StatusSet id status db) (sym c.state)
      (StatusSet-same id status c.same (set_status_ok id status c.start c.counted c.some_rows))

-- The rows of an order are gone, and nothing else changed.
pub record Deleted (order_id : String) (before after : Db) : Type 0 where
  pub there : any (of_order order_id) before.deliveries ≡ true
  pub deliveries : after.deliveries ≡ keep (λ d. not (of_order order_id d)) before.deliveries
  pub couriers : after.couriers ≡ before.couriers

delete_rows_ok :
    (order_id : String) (start before : Db) {k : ℕ}
    → SameData start before
    → (delete_rows order_id start).0 ≡ ok k
    → k ≢ 0
    → Deleted order_id before (delete_rows order_id start).1
unfolding delete_rows
delete_rows_ok order_id start before {k} s h nz = record {
  there =
      ap (any (of_order order_id)) (sym s.deliveries)
      ∙ any_of_count (of_order order_id) start.deliveries (λ z. nz (ground (arith, z)));
  deliveries = ap (keep (λ d. not (of_order order_id d))) s.deliveries;
  couriers = s.couriers;
}

pub delete_by_order_id_ok :
    (order_id : String) (db : Db) {u : Unit {0}}
    → (delete_by_order_id order_id db).0 ≡ ok u
    → Deleted order_id db (delete_by_order_id order_id db).1
unfolding delete_by_order_id
delete_by_order_id_ok order_id db h =
    let c =
      Counted-ok (delete_rows order_id) "delete delivery by order" (text "delivery not found") db
        h in
    subst (Deleted order_id db) (sym c.state)
      (delete_rows_ok order_id c.start db c.same c.counted c.some_rows)
