-- ===== src/CourierService/Registration.antt =====
-- What Create of internal/service/courier/courier.go stores, and that Get finds it again.
use service_courier_platform.Prelude.{
  ◌⊎◌, inl, inr, ◌≡◌, ◌∙◌, sym, ap, refl, subst, suc, ℤ, pos, ◌∷◌, [], Option, none, some,
  eqb_ℤ_refl, any,
}
use service_courier_platform.Errors.{Err, Result, ok, err}
use service_courier_platform.Domain.{Courier}
use service_courier_platform.Database.{Db, after}
use service_courier_platform.Database.Calls.{SameTables, after-eq-ok}
use service_courier_platform.DeliveryService.{lift}
use service_courier_platform.Repository.Couriers
use service_courier_platform.Repository.{find_courier}
use service_courier_platform.Repository.Couriers.Created.{
  Stored, create_ok, create_state, get_healthy,
}
use service_courier_platform.CourierService.{
  validate_create, with_transport, create, get, or_not_found,
}
use service_courier_platform.CourierService.Validation.{IsWellFormed, validate_create_iff}

-- When `Create` returns an id, the courier is well formed with its transport type, or `on_foot`
-- for an empty one; it is stored so, under the next id of the sequence, with a phone number that
-- no other row has; and no other row has changed.
pub create_stores :
    (c : Courier) (db : Db) {id : ℤ}
    → (create (some c) db).0 ≡ ok id
    → IsWellFormed (with_transport c) × Stored (with_transport c) id db (create (some c) db).1
unfolding create
create_stores c db {id} h =
    let (d, valid, ran) = after-eq-ok (lift (validate_create (some c)) db) Couriers.create h in
    let (same, formed) = (validate_create_iff c d).0 valid in
    (
      formed,
      subst (λ o. Stored (with_transport c) id db o.1) (sym ran)
          (subst (λ x. Stored x id db (Couriers.create d db).1) same
            (create_ok d db (ap (λ o. o.0) (sym ran) ∙ h))),
    )

-- When `Create` returns an error, no table has changed; or the courier is stored all the same, and
-- the answer of the INSERT was lost.
pub create_refused :
    (c : Courier) (db : Db) {e : Err}
    → (create (some c) db).0 ≡ err e
    → SameTables (create (some c) db).1 db
      ⊎ ((id : ℤ) × IsWellFormed (with_transport c)
          × Stored (with_transport c) id db (create (some c) db).1)
unfolding create
create_refused c db {e} h = validated (validate_create (some c)) refl
  where
    validated :
        (v : Result Courier)
        → validate_create (some c) ≡ v
        → SameTables (after (lift v db) Couriers.create).1 db
          ⊎ ((id : ℤ) × IsWellFormed (with_transport c)
              × Stored (with_transport c) id db (after (lift v db) Couriers.create).1)
    validated (err x) q = inl (record { couriers = refl; deliveries = refl })
    validated (ok d) q = elim (create_state d db) [
      | inl s ↦ inl s
      | inr (id, s) ↦
          let (same, formed) = (validate_create_iff c d).0 q in
          inr (id, formed, subst (λ x. Stored x id db (Couriers.create d db).1) same s)
    ]

-- A courier that has been created is found under its id, as it was validated, when every call of
-- the later `Get` works.
pub get-create :
    (c : Courier) (db : Db) {id : ℤ}
    → (create (some c) db).0 ≡ ok id
    → (create (some c) db).1.faults ≡ []
    → (get id (create (some c) db).1).0 ≡ ok (record (with_transport c) { id = id })
unfolding get or_not_found
get-create c db {id} h healthy =
    let after = (create (some c) db).1 in
    let stored = (create_stores c db h).1 in
    let row : find_courier id after.couriers ≡ some (record (with_transport c) { id = id }) =
      ap (find_courier id) stored.couriers ∙ first_row id (with_transport c) db.couriers in
    rw (get_healthy id after healthy, row) refl
  where
    first_row :
        (i : ℤ) (d : Courier) (cs : service_courier_platform.Prelude.List Courier)
        → find_courier i (record d { id = i } ∷ cs) ≡ some (record d { id = i })
    first_row i d cs = rw (eqb_ℤ_refl i)
