-- ===== src/System/Formed.antt =====
-- Every operation that writes couriers keeps them well formed: internal/service/courier,
-- internal/service/delivery and internal/service/orders.
use service_courier_platform.Prelude.{
  ℤ, List, ◌≡◌, sym, refl, subst, String, Bool, true, map, All, All-map, some, inl, inr, Bool-cases,
}
use service_courier_platform.Errors.{Result, ok, err, Err}
use service_courier_platform.Domain.{
  Courier, Time, AssignResult, UnassignResult, CourierStatus, status_valid, status_busy,
  status_available,
}
use service_courier_platform.Database.{Db}
use service_courier_platform.Database.Calls.{SameTables}
use service_courier_platform.Database.Keeps.{Keeps}
use service_courier_platform.Repository.{has_id}
use service_courier_platform.Repository.Couriers.Created.{Stored}
use service_courier_platform.Repository.Valid.{restatus}
use service_courier_platform.Repository.Deliveries.{with_tx}
use service_courier_platform.DeliveryService.{TimeFactory, assign, unassign, release_expired}
use service_courier_platform.DeliveryService.Assignment.{Assigned, assign_ok}
use service_courier_platform.DeliveryService.Unassignment.{Unassigned, unassign_ok}
use service_courier_platform.DeliveryService.Refusal.{
  assign_refused, unassign_refused, complete_refused, release_state,
}
use service_courier_platform.Orders.{complete_body}
use service_courier_platform.Orders.Redelivery.{Completed, complete_ok}
use service_courier_platform.CourierService
use service_courier_platform.CourierService.{validate_update, is_blank, with_transport}
use service_courier_platform.CourierService.Validation.{IsWellFormed}
use service_courier_platform.CourierService.Registration.{create_stores, create_refused}

abbrev pub Formed : Db → Type 0
Formed db = All IsWellFormed db.couriers

same-Formed : {a b : Db} → SameTables a b → Formed b → Formed a
same-Formed s h = subst (All IsWellFormed) (sym s.couriers) h

restatus-IsWellFormed :
    (chosen : Courier → Bool) (status : CourierStatus) (c : Courier)
    → status_valid status ≡ true
    → IsWellFormed c
    → IsWellFormed (restatus chosen status c)
restatus-IsWellFormed chosen status c s w = elim (Bool-cases (chosen c)) [
  | inl e ↦ rw e (record { named = w.named; phone = w.phone; status = s; transport = w.transport })
  | inr e ↦ rw e w
]

restatused :
    (chosen : Courier → Bool) (status : CourierStatus) {cs : List Courier} (ds : List Courier)
    → status_valid status ≡ true
    → cs ≡ map (restatus chosen status) ds
    → All IsWellFormed ds
    → All IsWellFormed cs
restatused chosen status {cs} ds s e h = subst (All IsWellFormed) (sym e) (
    All-map IsWellFormed (restatus chosen status) (λ c w. restatus-IsWellFormed chosen status c s w)
      ds h)

busy_valid : status_valid status_busy ≡ true
unfolding status_valid
busy_valid = refl

available_valid : status_valid status_available ≡ true
unfolding status_valid
available_valid = refl

-- Whether a call succeeded or failed.
pub by_result :
    {A : Type 0} (P : Db → Type 0) (o : Result A × Db)
    → ((a : A) → o.0 ≡ ok a → P o.1)
    → ((e : Err) → o.0 ≡ err e → P o.1)
    → P o.1
by_result P (ok a, db) f g = f a refl
by_result P (err e, db) f g = g e refl

Assigned-Formed :
    {factory : TimeFactory} {now : Time} {order : String} {db end : Db} {r : AssignResult}
    → Assigned factory now order db end r
    → Formed db
    → Formed end
Assigned-Formed {db} a h =
    restatused (has_id a.courier.id) status_busy db.couriers busy_valid a.busy h

pub assign-Formed :
    (factory : TimeFactory) (now : Time) (raw : String) → Keeps Formed (assign factory now raw)
assign-Formed factory now raw = record {
  at = λ db h.
      by_result Formed (assign factory now raw db)
        (λ r k. Assigned-Formed (assign_ok factory now raw db k).1 h)
        (λ e k. elim (assign_refused factory now raw db k) [
          | inl s ↦ same-Formed s h
          | inr (r, a) ↦ Assigned-Formed a h
        ]);
}

Unassigned-Formed :
    {order : String} {db end : Db} {r : UnassignResult}
    → Unassigned order db end r
    → Formed db
    → Formed end
Unassigned-Formed {db} u h =
    restatused (has_id u.delivery.courier_id) status_available db.couriers available_valid u.freed h

pub unassign-Formed : (raw : String) → Keeps Formed (unassign raw)
unassign-Formed raw = record {
  at = λ db h.
      by_result Formed (unassign raw db) (λ r k. Unassigned-Formed (unassign_ok raw db k).1 h)
        (λ e k. elim (unassign_refused raw db k) [
          | inl s ↦ same-Formed s h
          | inr (r, u) ↦ Unassigned-Formed u h
        ]);
}

pub release-Formed : (now : Time) → Keeps Formed (release_expired now)
release-Formed now = record {
  at = λ db h. elim (release_state now db) [
    | inl s ↦ same-Formed s h
    | inr r ↦ restatused _ status_available db.couriers available_valid r.couriers h
  ];
}

Completed-Formed : {order : String} {db end : Db} → Completed order db end → Formed db → Formed end
Completed-Formed {db} c h = elim c.couriers [
  | inl (gone, same) ↦ subst (All IsWellFormed) (sym same) h
  | inr (d, found, set) ↦
      restatused (has_id d.courier_id) status_available db.couriers available_valid set h
]

pub complete-Formed : (order_id : String) → Keeps Formed (with_tx (complete_body order_id))
complete-Formed order_id = record {
  at = λ db h.
      by_result Formed (with_tx (complete_body order_id) db)
        (λ r k. Completed-Formed (complete_ok order_id db k) h)
        (λ e k. elim (complete_refused order_id db k) [
          | inl s ↦ same-Formed s h
          | inr c ↦ Completed-Formed c h
        ]);
}

Stored-Formed :
    {c : Courier} {id : ℤ} {db end : Db}
    → IsWellFormed c
    → Stored c id db end
    → Formed db
    → Formed end
Stored-Formed w s h =
    subst (All IsWellFormed) (sym s.couriers)
      (record { named = w.named; phone = w.phone; status = w.status; transport = w.transport }, h)

pub create-Formed : (c : Courier) → Keeps Formed (CourierService.create (some c))
create-Formed c = record {
  at = λ db h.
      by_result Formed (CourierService.create (some c) db)
        (λ id k. Stored-Formed (create_stores c db k).0 (create_stores c db k).1 h)
        (λ e k. elim (create_refused c db k) [
          | inl s ↦ same-Formed s h
          | inr (id, w, s) ↦ Stored-Formed w s h
        ]);
}
