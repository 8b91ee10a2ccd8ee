-- ===== src/Repository/Deliveries/Healthy.antt =====
-- The operations of internal/repository/delivery.go when no driver call fails.
use service_courier_platform.Prelude.{
  ◌≡◌, String, ℤ, suc, pos, true, false, [], ◌∷◌, map, any, Option-cases, inl, inr, text_length,
  leb, arith, count, count-pos_of_any, ◌<◌, eqb,
}
use service_courier_platform.Errors.{is_not_found, ok, err, pg, wrap}
use service_courier_platform.Domain.{Delivery, CourierStatus}
use service_courier_platform.Database.{Db, check_status}
use service_courier_platform.Database.Calls.{call-no_faults}
use service_courier_platform.Repository.{has_id}
use service_courier_platform.Repository.Valid.{restatus}
use service_courier_platform.Repository.Deliveries.{
  of_order, first_available, find_available_courier_for_update, insert_delivery, insert_row,
  set_status, update_courier_status, select_available, find_delivery, get_by_order_id,
  select_delivery,
}

module _ (db : Db) (healthy : db.faults ≡ []) where
  pub find_available_healthy :
      find_available_courier_for_update db ≡ (ok (first_available db.deliveries db.couriers), db)
  unfolding find_available_courier_for_update select_available is_not_found
  find_available_healthy = elim (Option-cases (first_available db.deliveries db.couriers)) [
    | inl e ↦ rw (call-no_faults db healthy, e, select_available)
    | inr (c, e) ↦ rw (call-no_faults db healthy, e, select_available)
  ]

  pub get_by_order_id_healthy :
      (o : String) → get_by_order_id o db ≡ (ok (find_delivery o db.deliveries), db)
  unfolding get_by_order_id select_delivery is_not_found
  get_by_order_id_healthy o = elim (Option-cases (find_delivery o db.deliveries)) [
    | inl e ↦ rw (call-no_faults db healthy, e, select_delivery)
    | inr (d, e) ↦ rw (call-no_faults db healthy, e, select_delivery)
  ]

  pub insert_long :
      (d : Delivery)
      → leb (text_length d.order_id) 255 ≡ false
      → insert_delivery d db ≡ (
        err (wrap "insert delivery" (pg "22001")),
        record db { last_delivery = suc db.last_delivery },
      )
  unfolding insert_delivery insert_row
  insert_long d long = rw (call-no_faults db healthy, long)

  pub insert_taken :
      (d : Delivery)
      → leb (text_length d.order_id) 255 ≡ true
      → any (of_order d.order_id) db.deliveries ≡ true
      → insert_delivery d db ≡ (
        err (wrap "insert delivery" (pg "23505")),
        record db { last_delivery = suc db.last_delivery },
      )
  unfolding insert_delivery insert_row
  insert_taken d fits taken = rw (call-no_faults db healthy, fits, taken)

  pub insert_fresh :
      (d : Delivery)
      → leb (text_length d.order_id) 255 ≡ true
      → any (of_order d.order_id) db.deliveries ≡ false
      → any (has_id d.courier_id) db.couriers ≡ true
      → insert_delivery d db ≡ (
        ok (pos (suc db.last_delivery)),
        record db {
          deliveries = record d { id = pos (suc db.last_delivery) } ∷ db.deliveries;
          last_delivery = suc db.last_delivery;
        },
      )
  unfolding insert_delivery insert_row
  insert_fresh d fits fresh owned = rw (call-no_faults db healthy, fits, fresh, owned)

  pub update_healthy :
      (id : ℤ) (status : CourierStatus)
      → check_status status ≡ true
      → any (has_id id) db.couriers ≡ true
      → update_courier_status id status db
        ≡ (ok tt, record db { couriers = map (restatus (has_id id) status) db.couriers })
  unfolding update_courier_status set_status
  update_healthy id status good there =
      let rows : 0 < count (has_id id) db.couriers =
        count-pos_of_any (has_id id) db.couriers there in
      let some_rows : eqb (count (has_id id) db.couriers) 0 ≡ false = ground arith in
      rw (call-no_faults db healthy, good, there, some_rows)
