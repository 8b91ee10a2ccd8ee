-- ===== src/Router/Reads.antt =====
-- Get and List of internal/http/handlers/courier.go only read: what the calls of the driver keep,
-- they keep.
use service_courier_platform.Prelude.{
  ◌≡◌, sym, refl, subst, ℤ, Option, none, some, inl, inr, Option-cases,
}
use service_courier_platform.Domain.{Courier}
use service_courier_platform.Database.{Db, M, call, ◌>>◌}
use service_courier_platform.Database.Keeps.{Keeps, bind-Keeps, then-Keeps}
use service_courier_platform.Repository.{find_courier}
use service_courier_platform.Repository.Deliveries.Preservation.{missing_state}
use service_courier_platform.Repository.Couriers
use service_courier_platform.Repository.Couriers.{select_courier}
use service_courier_platform.CourierService
use service_courier_platform.CourierService.{or_not_found}
use service_courier_platform.Handlers.{
  Param, refused, absent, given, get_with, list_limit, list_offset,
}

module _ {P : Db → Type 0} (called : Keeps P call) where
  same-Keeps : {A : Type 0} {m : M A} → ((db : Db) → (m db).1 ≡ db) → Keeps P m
  same-Keeps h = record { at = λ db r. subst P (sym (h db)) r }

  select_state : (id : ℤ) (db : Db) → (select_courier id db).1 ≡ db
  unfolding select_courier
  select_state id db = elim (Option-cases (find_courier id db.couriers)) [
    | inl e ↦ rw (e, select_courier) refl
    | inr (c, e) ↦ rw (e, select_courier) refl
  ]

  stored_get-Keeps : (id : ℤ) → Keeps P (Couriers.get id)
  unfolding Couriers.get
  stored_get-Keeps id = record {
    at = λ db r.
        subst P (sym (missing_state "get courier" ((call >> select_courier id) db)))
          ((then-Keeps called (same-Keeps (select_state id))).at db r);
  }

  get-Keeps : (id : ℤ) → Keeps P (CourierService.get id)
  unfolding CourierService.get or_not_found
  get-Keeps id = bind-Keeps (stored_get-Keeps id) known
    where
      known : (o : Option Courier) → Keeps P (or_not_found o)
      known none = same-Keeps (λ db. refl)
      known (some c) = same-Keeps (λ db. refl)

  list-Keeps : (limit offset : Option ℤ) → Keeps P (CourierService.list limit offset)
  unfolding CourierService.list Couriers.list
  list-Keeps limit offset =
      then-Keeps called
        (bind-Keeps (same-Keeps (λ db. refl)) (λ rows. then-Keeps called (same-Keeps (λ db. refl))))

  pub got_with : (o : Option ℤ) (db : Db) → P db → P (get_with o db).1
  unfolding get_with
  got_with none db r = r
  got_with (some id) db r = (get-Keeps id).at db r

  offset_with : (limit : Option ℤ) (p : Param) (db : Db) → P db → P (list_offset limit p db).1
  unfolding list_offset
  offset_with limit refused db r = r
  offset_with limit absent db r = (list-Keeps limit none).at db r
  offset_with limit (given n) db r = (list-Keeps limit (some n)).at db r

  pub limit_with : (p q : Param) (db : Db) → P db → P (list_limit p q db).1
  unfolding list_limit
  limit_with refused q db r = r
  limit_with absent q db r = offset_with none q db r
  limit_with (given n) q db r = offset_with (some n) q db r
