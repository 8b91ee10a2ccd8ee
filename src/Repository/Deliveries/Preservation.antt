-- ===== src/Repository/Deliveries/Preservation.antt =====
-- The operations of internal/repository/delivery.go keep the constraints of db/migrations,
-- whatever calls fail.
use service_courier_platform.Prelude.{
  ℕ, suc, ℤ, pos, ◌≡◌, refl, String, Bool, true, false, not, any, Bool-cases, inl, inr, subst, sym,
  Option-cases, text_length, leb, eqb,
}
use service_courier_platform.Errors.{Err, Result, ok, err, text}
use service_courier_platform.Domain.{Delivery, CourierStatus, Time, status_available}
use service_courier_platform.Database.{is_late, Db, M, return, fail, call, check_status, restore}
use service_courier_platform.Database.Calls.{call-SameData}
use service_courier_platform.Database.Keeps.{
  exec-Keeps, Keeps, bind-Keeps, then-Keeps, labelled-Keeps,
}
use service_courier_platform.Repository.{has_id, or_missing}
use service_courier_platform.Repository.Valid.{
  ValidAt, SameData-ValidAt, restatus-ValidAt, keep-ValidAt, cons-ValidAt,
}
use service_courier_platform.Repository.Deliveries.{
  require_rows, of_order, set_status, insert_row, delete_rows, release_rows, is_expired, with_tx,
  finish, rolled_back, committed, update_courier_status, insert_delivery, delete_by_order_id,
  get_by_order_id, find_available_courier_for_update, release_couriers, select_available,
  select_delivery, first_available, find_delivery,
}

pub missing_state : {A : Type 0} (m : String) (o : Result A × Db) → (or_missing m o).1 ≡ o.1
missing_state m (ok a, db) = refl
missing_state m (err e, db) = refl

module _ {n : ℕ} where
  pub return-Keeps : {A : Type 0} (a : A) → Keeps (ValidAt n) (return a)
  return-Keeps a = record { at = λ db v. v }

  pub fail-Keeps : {A : Type 0} (e : Err) → Keeps (ValidAt n) (fail {A = A} e)
  fail-Keeps e = record { at = λ db v. v }

  pub call-Keeps : Keeps (ValidAt n) call
  call-Keeps = record { at = λ db v. SameData-ValidAt (call db).1 db (call-SameData db) v }

  set_status-Keeps :
      (id : ℤ) (status : CourierStatus)
      → check_status status ≡ true
      → Keeps (ValidAt n) (set_status id status)
  unfolding set_status
  set_status-Keeps id status s = record {
    at = λ db v. elim (Bool-cases (any (has_id id) db.couriers)) [
      | inl e ↦ rw (e, s) (restatus-ValidAt (has_id id) status db s v)
      | inr e ↦ rw e (restatus-ValidAt (has_id id) status db s v)
    ];
  }

  check_affected : (k : ℕ) (e : Err) → Keeps (ValidAt n) (require_rows e k)
  check_affected k e = elim (Bool-cases (eqb k 0)) [
    | inl z ↦ rw z (fail-Keeps e)
    | inr z ↦ rw z (return-Keeps tt)
  ]

  pub update_courier_status-Keeps :
      (id : ℤ) (status : CourierStatus)
      → check_status status ≡ true
      → Keeps (ValidAt n) (update_courier_status id status)
  unfolding update_courier_status
  update_courier_status-Keeps id status s =
      bind-Keeps (labelled-Keeps _ (then-Keeps call-Keeps (set_status-Keeps id status s)))
        (λ k. check_affected k (text "courier not found"))

  touch : (db : Db) (k : ℕ) → ValidAt n db → ValidAt n (record db { last_delivery = k })
  touch db k v = record {
    sequence = v.sequence;
    ids = v.ids;
    bounded = v.bounded;
    phones = v.phones;
    statuses = v.statuses;
    orders = v.orders;
    owners = v.owners;
  }

  insert_row-Keeps : (d : Delivery) → Keeps (ValidAt n) (insert_row d)
  unfolding insert_row
  insert_row-Keeps d = record {
    at = λ db v.
        let w = touch db (suc db.last_delivery) v in
        elim (Bool-cases (leb (text_length d.order_id) 255)) [
          | inr long ↦ rw long w
          | inl fits ↦ elim (Bool-cases (any (of_order d.order_id) db.deliveries)) [
            | inl taken ↦ rw (fits, taken) w
            | inr fresh ↦ elim (Bool-cases (any (has_id d.courier_id) db.couriers)) [
              | inl owned ↦
                  rw (fits, fresh, owned)
                    (cons-ValidAt (record d { id = pos (suc db.last_delivery) })
                      (record db { last_delivery = suc db.last_delivery }) fresh owned w)
              | inr orphan ↦ rw (fits, fresh, orphan) w
            ]
          ]
        ];
  }

  pub insert_delivery-Keeps : (d : Delivery) → Keeps (ValidAt n) (insert_delivery d)
  unfolding insert_delivery
  insert_delivery-Keeps d = labelled-Keeps _ (then-Keeps call-Keeps (insert_row-Keeps d))

  pub delete_by_order_id-Keeps : (o : String) → Keeps (ValidAt n) (delete_by_order_id o)
  unfolding delete_by_order_id delete_rows
  delete_by_order_id-Keeps o =
      bind-Keeps
        (labelled-Keeps _ (
          then-Keeps call-Keeps
            (record { at = λ db v. keep-ValidAt (λ d. not (of_order o d)) db v })))
        (λ k. check_affected k (text "delivery not found"))

  pub release_couriers-Keeps : (now : Time) → Keeps (ValidAt n) (release_couriers now)
  unfolding release_couriers release_rows
  release_couriers-Keeps now = labelled-Keeps _ (
      exec-Keeps call-Keeps (record {
        at = λ db v. restatus-ValidAt (is_expired now db.deliveries) status_available db refl v;
      }))

  or_missing-Keeps :
      {A : Type 0} (l : String) {m : M A}
      → Keeps (ValidAt n) m
      → Keeps (ValidAt n) (λ db. or_missing l (m db))
  or_missing-Keeps l {m} h = record {
    at = λ db v. subst (ValidAt n) (sym (missing_state l (m db))) (h.at db v);
  }

  pub get_by_order_id-Keeps : (o : String) → Keeps (ValidAt n) (get_by_order_id o)
  unfolding get_by_order_id select_delivery
  get_by_order_id-Keeps o = or_missing-Keeps _ (
      then-Keeps call-Keeps (record {
        at = λ db v. elim (Option-cases (find_delivery o db.deliveries)) [
          | inl e ↦ rw (e, select_delivery) v
          | inr (d, e) ↦ rw (e, select_delivery) v
        ];
      }))

  pub find_available_courier_for_update-Keeps : Keeps (ValidAt n) find_available_courier_for_update
  unfolding find_available_courier_for_update select_available
  find_available_courier_for_update-Keeps = or_missing-Keeps _ (
      then-Keeps call-Keeps (record {
        at = λ db v. elim (Option-cases (first_available db.deliveries db.couriers)) [
          | inl e ↦ rw (e, select_available) v
          | inr (c, e) ↦ rw (e, select_available) v
        ];
      }))

  restore-ValidAt : (start db : Db) → ValidAt n start → ValidAt n db → ValidAt n (restore start db)
  restore-ValidAt start db v w = record {
    sequence = w.sequence;
    ids = v.ids;
    bounded = v.bounded;
    phones = v.phones;
    statuses = v.statuses;
    orders = v.orders;
    owners = v.owners;
  }

  rolled_back_valid :
      (A : Type 0) (e : Err) (o : Result (Unit {0}) × Db)
      → ValidAt n o.1
      → ValidAt n (rolled_back {A = A} e o).1
  unfolding rolled_back
  rolled_back_valid A e (ok _, db) v = v
  rolled_back_valid A e (err r, db) v = v

  committed_valid :
      {A : Type 0} (a : A) (start : Db) (done : Bool) (o : Result (Unit {0}) × Db)
      → ValidAt n start
      → ValidAt n o.1
      → ValidAt n (committed a start done o).1
  unfolding committed
  committed_valid a start done (ok _, db) v w = w
  committed_valid a start true (err e, db) v w = w
  committed_valid a start false (err e, db) v w = restore-ValidAt start db v w

  finish_valid :
      {A : Type 0} (start : Db) (o : Result A × Db)
      → ValidAt n start
      → ValidAt n o.1
      → ValidAt n (finish start o).1
  unfolding finish
  finish_valid {A} start (err x, db) v w =
      rolled_back_valid A x (call (restore start db))
        (call-Keeps.at (restore start db) (restore-ValidAt start db v w))
  finish_valid start (ok a, db) v w =
      committed_valid a start (is_late db.faults) (call db) v (call-Keeps.at db w)

  -- A transaction keeps the constraints if its body does.
  pub with_tx-Keeps :
      {A : Type 0} {fn : M A} → Keeps (ValidAt n) fn → Keeps (ValidAt n) (with_tx fn)
  unfolding with_tx
  with_tx-Keeps {fn} h =
      bind-Keeps (labelled-Keeps _ call-Keeps)
        (λ _. record { at = λ start v. finish_valid start (fn start) v (h.at start v) })
