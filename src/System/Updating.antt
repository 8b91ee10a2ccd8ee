-- ===== src/System/Updating.antt =====
-- Updates keep couriers well formed: UpdatePartial of internal/service/courier/courier.go.
use service_courier_platform.Prelude.{
  ◌≡◌, sym, refl, subst, String, Bool, true, false, not, ◌&&◌, ◌==◌, any, All, All-map, Option,
  none, some, inl, inr, Bool-cases, Option-cases, if◌then◌else◌,
}
use service_courier_platform.Errors.{sentinel, not_found, Result, ok, err}
use service_courier_platform.Domain.{Courier, PartialCourierUpdate, status_valid}
use service_courier_platform.Database.{return, fail, Db, M, call, check_status}
use service_courier_platform.Database.Calls.{call-SameData}
use service_courier_platform.Database.Keeps.{Keeps, bind-Keeps, then-Keeps, exec-Keeps}
use service_courier_platform.Repository.{find_courier, has_id}
use service_courier_platform.Repository.Couriers
use service_courier_platform.Repository.Couriers.{
  update_courier, apply_update, coalesce, or_conflict,
}
use service_courier_platform.CourierService
use service_courier_platform.CourierService.{validate_update, is_blank, with_transport}
use service_courier_platform.CourierService.Validation.{
  IsWellFormed, IsAllowed, Passes, validate_update_iff,
}
use service_courier_platform.System.Formed.{Formed}

-- A field that the update leaves passes its test.
coalesce_passes :
    (o : Option String) (P : String → Type 0) (s : String) → Passes o P → P s → P (coalesce o s)
coalesce_passes none P s h k = k
coalesce_passes (some x) P s h k = h

updated_formed :
    (u : PartialCourierUpdate) (c : Courier)
    → IsAllowed u
    → IsWellFormed c
    → IsWellFormed (apply_update u c)
updated_formed u c a w = record {
  named = coalesce_passes u.name (λ s. is_blank s ≡ false) c.name a.name w.named;
  phone = coalesce_passes u.phone _ c.phone a.phone w.phone;
  status = coalesce_passes u.status (λ s. status_valid s ≡ true) c.status a.status w.status;
  transport = coalesce_passes u.transport_type _ c.transport_type a.transport w.transport;
}

written_formed :
    (u : PartialCourierUpdate) (c : Courier)
    → IsAllowed u
    → IsWellFormed c
    → IsWellFormed (if has_id u.id c then apply_update u c else c)
written_formed u c a w = elim (Bool-cases (has_id u.id c)) [
  | inl e ↦ rw e (updated_formed u c a w)
  | inr e ↦ rw e w
]

update_courier-Formed : (u : PartialCourierUpdate) → IsAllowed u → Keeps Formed (update_courier u)
unfolding update_courier
update_courier-Formed u a = record {
  at = λ db h.
      let all = All-map IsWellFormed _ (λ c w. written_formed u c a w) db.couriers h in
      elim (Option-cases (find_courier u.id db.couriers)) [
        | inl e ↦ rw (e, update_courier) h
        | inr (c, e) ↦ elim (Bool-cases (check_status (apply_update u c).status)) [
          | inr bad ↦ rw (e, bad, update_courier) h
          | inl good ↦
              elim (Bool-cases (
                any (λ d. d.phone == (apply_update u c).phone && not (has_id u.id d))
                  db.couriers)) [
                    | inl taken ↦ rw (e, good, taken, update_courier) h
                    | inr fresh ↦ rw (e, good, fresh, update_courier) all
                  ]
        ]
      ];
}

call-Formed : Keeps Formed call
call-Formed = record { at = λ db h. subst (All IsWellFormed) (sym (call-SameData db).couriers) h }

pub conflict_state : {A : Type 0} (l : String) (o : Result A × Db) → (or_conflict l o).1 ≡ o.1
conflict_state l (ok a, db) = refl
conflict_state l (err e, db) = refl

conflict-Formed :
    {A : Type 0} (l : String) {m : M A} → Keeps Formed m → Keeps Formed (λ db. or_conflict l (m db))
conflict-Formed l {m} h = record {
  at = λ db v. subst Formed (sym (conflict_state l (m db))) (h.at db v);
}

stored_update-Formed :
    (u : PartialCourierUpdate) → IsAllowed u → Keeps Formed (Couriers.update_partial u)
unfolding Couriers.update_partial
stored_update-Formed u a =
    bind-Keeps (conflict-Formed _ (exec-Keeps call-Formed (update_courier-Formed u a)))
      (λ k. record { at = λ db h. h })

validated-Formed :
    (u : PartialCourierUpdate) (v : Result (Unit {0}))
    → validate_update u ≡ v
    → Keeps Formed (CourierService.update_partial u)
unfolding CourierService.update_partial
validated-Formed u (err e) q = record { at = λ db h. rw q h }
validated-Formed u (ok _) q =
    then-Keeps (record { at = λ db h. h })
      (bind-Keeps (stored_update-Formed u ((validate_update_iff u).0 q)) (λ b. reported b))
  where
    reported : (b : Bool) → Keeps Formed (if b then return true else fail (sentinel not_found))
    reported true = record { at = λ db h. h }
    reported false = record { at = λ db h. h }

pub update-Formed : (u : PartialCourierUpdate) → Keeps Formed (CourierService.update_partial u)
update-Formed u = validated-Formed u (validate_update u) refl
