-- ===== src/Repository/Couriers/Constraints.antt =====
-- CourierRepo of internal/repository/courier.go keeps the constraints of db/migrations.
use service_courier_platform.Prelude.{◌≡◌, sym, subst, refl, String}
use service_courier_platform.Errors.{Result, ok, err}
use service_courier_platform.Domain.{Courier, PartialCourierUpdate}
use service_courier_platform.Database.{Db, M, call}
use service_courier_platform.Database.Calls.{call-SameData}
use service_courier_platform.Database.Keeps.{Keeps, exec-Keeps, bind-Keeps}
use service_courier_platform.Repository.Valid.{IsValid, SameData-ValidAt}
use service_courier_platform.Repository.Couriers.{or_conflict, create, update_partial}
use service_courier_platform.Repository.Couriers.Insertion.{IsValid-at, insert_courier-IsValid}
use service_courier_platform.Repository.Couriers.Update.{update_courier-IsValid}

conflict_state : {A : Type 0} (m : String) (o : Result A × Db) → (or_conflict m o).1 ≡ o.1
conflict_state m (ok a, db) = refl
conflict_state m (err e, db) = refl

call-IsValid : Keeps IsValid call
call-IsValid = record {
  at = λ db v. IsValid-at (call db).1 (SameData-ValidAt (call db).1 db (call-SameData db) v);
}

conflict-IsValid :
    {A : Type 0} (l : String) {m : M A}
    → Keeps IsValid m
    → Keeps IsValid (λ db. or_conflict l (m db))
conflict-IsValid l {m} h = record {
  at = λ db v. subst IsValid (sym (conflict_state l (m db))) (h.at db v);
}

-- `Create` keeps the constraints, and the ids within the sequence, whatever calls fail.
pub create-IsValid : (c : Courier) → Keeps IsValid (create c)
unfolding create
create-IsValid c = conflict-IsValid _ (exec-Keeps call-IsValid (insert_courier-IsValid c))

-- So does `UpdatePartial`: a phone number that another courier has is never written.
pub update_partial-IsValid : (u : PartialCourierUpdate) → Keeps IsValid (update_partial u)
unfolding update_partial
update_partial-IsValid u =
    bind-Keeps (conflict-IsValid _ (exec-Keeps call-IsValid (update_courier-IsValid u)))
      (λ affected. record { at = λ db v. v })
