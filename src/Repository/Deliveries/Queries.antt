-- ===== src/Repository/Deliveries/Queries.antt =====
-- What the queries of internal/repository/delivery.go and courier.go read when they succeed.
use mathlib.Core.Path.{ap₂}
use service_courier_platform.Prelude.{
  ◌≡◌, refl, ◌∙◌, sym, ap, subst, String, false, Bool-cases, inl, inr, Option, none, some, arith,
}
use service_courier_platform.Errors.{err_ok, Err, Result, ok, err, is_not_found}
use service_courier_platform.Domain.{Courier, Delivery}
use service_courier_platform.Database.{Db, M, after, call, ◌>>◌}
use service_courier_platform.Database.Calls.{SameData, call-SameData, call_found}
use service_courier_platform.Repository.{or_missing}
use service_courier_platform.Repository.Deliveries.{
  find_delivery, first_available, select_available, select_delivery, get_by_order_id,
  find_available_courier_for_update,
}

-- A query of one row, which changes nothing: it finds the row that `find` finds.
record Reads {A : Type 0} (find : Db → Option A) (m : M A) : Type 0 where
  some_row : (db : Db) {a : A} → (m db).0 ≡ ok a → find db ≡ some a
  no_row : (db : Db) {e : Err} → (m db).0 ≡ err e → find db ≡ none
  state : (db : Db) → (m db).1 ≡ db

module _ {A : Type 0} {find : Db → Option A} {m : M A} (reads : Reads find m) (l : String) where
  answer_ok :
      (db : Db) (r : Result A × Db) {o : Option A}
      → r ≡ m db
      → (or_missing l r).0 ≡ ok o
      → (o ≡ find db) × ((or_missing l r).1 ≡ db)
  answer_ok db (ok a, after) e h =
      (cc (reads.some_row db (ap (λ x. x.0) (sym e))), ap (λ x. x.1) e ∙ reads.state db)
  answer_ok db (err x, after) {o} e h = elim (Bool-cases (is_not_found x)) [
    | inl nf ↦
        let k : ok none ≡ ok o = rw nf at h in
        (cc (k, reads.no_row db (ap (λ x. x.0) (sym e))), ap (λ x. x.1) e ∙ reads.state db)
    | inr fd ↦ absurd (err_ok (rw fd at h))
  ]

  queried_ok :
      (c : Result (Unit {0}) × Db) {o : Option A}
      → ((e : Err) → c.0 ≡ err e → is_not_found e ≡ false)
      → (or_missing l (after c (λ _. m))).0 ≡ ok o
      → (o ≡ find c.1) × ((or_missing l (after c (λ _. m))).1 ≡ c.1)
  queried_ok (ok _, db) good h = answer_ok db (m db) refl h
  queried_ok (err e, db) good h = absurd (err_ok (rw (good e refl) at h))

  query_ok :
      (db : Db) {o : Option A}
      → ((d : Db) → SameData d db → find d ≡ find db)
      → (or_missing l ((call >> m) db)).0 ≡ ok o
      → (o ≡ find db) × SameData (or_missing l ((call >> m) db)).1 db
  query_ok db {o} same h =
      let (found, state) = queried_ok (call db) (λ e k. call_found db k) h in
      (
        found ∙ same (call db).1 (call-SameData db),
        subst (λ d. SameData d db) (sym state) (call-SameData db),
      )

abbrev order_row : String → Db → Option Delivery
order_row o db = find_delivery o db.deliveries

select_delivery-Reads : (o : String) → Reads (order_row o) (select_delivery o)
unfolding select_delivery
select_delivery-Reads o = record {
  some_row = λ db h. ground arith;
  no_row = λ db h. ground arith;
  state = λ db. ground arith;
}

pub get_by_order_id_ok :
    (o : String) (db : Db) {found : Option Delivery}
    → (get_by_order_id o db).0 ≡ ok found
    → (found ≡ find_delivery o db.deliveries) × SameData (get_by_order_id o db).1 db
unfolding get_by_order_id
get_by_order_id_ok o db h =
    query_ok (select_delivery-Reads o) _ db (λ d s. ap (find_delivery o) s.deliveries) h

abbrev available_row : Db → Option Courier
available_row db = first_available db.deliveries db.couriers

select_available-Reads : Reads available_row select_available
unfolding select_available
select_available-Reads = record {
  some_row = λ db h. ground arith;
  no_row = λ db h. ground arith;
  state = λ db. ground arith;
}

pub find_available_courier_for_update_ok :
    (db : Db) {found : Option Courier}
    → (find_available_courier_for_update db).0 ≡ ok found
    → (found ≡ first_available db.deliveries db.couriers)
      × SameData (find_available_courier_for_update db).1 db
unfolding find_available_courier_for_update
find_available_courier_for_update_ok db h =
    query_ok select_available-Reads _ db (λ d s. ap₂ first_available s.deliveries s.couriers) h
