-- ===== src/Repository/Couriers.antt =====
-- CourierRepo of internal/repository/courier.go, its SQL statements among it.
pub mod Insertion
pub mod Update
pub mod Constraints
pub mod Created
pub mod Listing
use service_courier_platform.Prelude.{
  ℕ, suc, ℤ, pos, negsuc, String, Bool, not, ◌&&◌, ◌==◌, List, [], ◌∷◌, map, Option, none, some,
  leb_ℤ, ltb, any, take, drop, if◌then◌else◌,
}
use service_courier_platform.Errors.{
  sentinel, conflict, no_rows, pg, wrap, Result, ok, err, is_duplicate,
}
use service_courier_platform.Domain.{Courier, PartialCourierUpdate}
use service_courier_platform.Database.{check_status, Db, M, ◌>>=◌, ◌>>◌, return, call, exec}
use service_courier_platform.Repository.{has_id, find_courier, or_missing}

-- The row of a query by id, or ErrNoRows.
unfoldable pub select_courier : ℤ → M Courier
select_courier id db = elim (find_courier id db.couriers) [
  | none ↦ (err (sentinel no_rows), db)
  | some c ↦ (ok c, db)
]

-- `CourierRepo.Get`.
unfoldable pub get : ℤ → M (Option Courier)
unfolding select_courier
get id db = or_missing "get courier" ((call >> select_courier id) db)

insert_by_id : Courier → List Courier → List Courier
insert_by_id c [] = c ∷ []
insert_by_id c (d ∷ ds) = if leb_ℤ c.id d.id then c ∷ d ∷ ds else d ∷ insert_by_id c ds

-- `ORDER BY id`.
unfoldable pub order_by_id : List Courier → List Courier
unfolding insert_by_id
order_by_id [] = []
order_by_id (c ∷ cs) = insert_by_id c (order_by_id cs)

-- `LIMIT` and `OFFSET`, each where it is given; PostgreSQL refuses a negative count.
limit_to : Option ℤ → List Courier → Result (List Courier)
limit_to none cs = ok cs
limit_to (some (pos n)) cs = ok (take n cs)
limit_to (some (negsuc n)) cs = err (pg "2201W")

offset_by : Option ℤ → List Courier → Result (List Courier)
offset_by none cs = ok cs
offset_by (some (pos n)) cs = ok (drop n cs)
offset_by (some (negsuc n)) cs = err (pg "2201X")

page : Option ℤ → Result (List Courier) → Result (List Courier)
page limit (ok cs) = limit_to limit cs
page limit (err e) = err e

-- `CourierRepo.List`: the query, and the rows with their error at the end.
unfoldable pub list : Option ℤ → Option ℤ → M (List Courier)
unfolding limit_to offset_by page order_by_id
list limit offset = do
  call
  rows ← λ db. (page limit (offset_by offset (order_by_id db.couriers)), db)
  call
  return rows

-- The `INSERT`: the sequence moves on, then the constraints are checked.
unfoldable pub insert_courier : Courier → M ℤ
insert_courier c db =
    let id : ℤ = pos (suc db.last_courier) in
    let next = record db { last_courier = suc db.last_courier } in
    if not (check_status c.status)
    then (err (pg "23514"), next)
    else if any (λ d. d.phone == c.phone) db.couriers
    then (err (pg "23505"), next)
    else (ok id, record next { couriers = record c { id = id } ∷ db.couriers })

-- `if IsDuplicate(err) { return ErrConflict }`.
abbrev pub or_conflict : {A : Type 0} → String → Result A × Db → Result A × Db
or_conflict m (ok a, db) = (ok a, db)
or_conflict m (err e, db) = (err (if is_duplicate e then sentinel conflict else wrap m e), db)

-- `CourierRepo.Create`.
unfoldable pub create : Courier → M ℤ
unfolding insert_courier
create c db = or_conflict "create courier" (exec (insert_courier c) db)

abbrev pub coalesce : {A : Type 0} → Option A → A → A
coalesce none a = a
coalesce (some b) a = b

-- The `SET` clause.
abbrev pub apply_update : PartialCourierUpdate → Courier → Courier
apply_update u c = record c {
  name = coalesce u.name c.name;
  phone = coalesce u.phone c.phone;
  status = coalesce u.status c.status;
  transport_type = coalesce u.transport_type c.transport_type;
}

-- The row with the id, if there is one, and the number of rows affected.
unfoldable pub update_courier : PartialCourierUpdate → M ℕ
update_courier u db = elim (find_courier u.id db.couriers) [
  | none ↦ (ok 0, db)
  | some c ↦
      if not (check_status (apply_update u c).status)
      then (err (pg "23514"), db)
      else if any (λ d. d.phone == (apply_update u c).phone && not (has_id u.id d)) db.couriers
      then (err (pg "23505"), db)
      else (
        ok 1,
        record db {
          couriers = map (λ d. if has_id u.id d then apply_update u d else d) db.couriers;
        },
      )
]

-- `CourierRepo.UpdatePartial`.
unfoldable pub update_partial : PartialCourierUpdate → M Bool
unfolding update_courier
update_partial u = do
  affected ← λ db. or_conflict "update courier" (exec (update_courier u) db)
  return (ltb 0 affected)
