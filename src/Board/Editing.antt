-- ===== src/Board/Editing.antt =====
-- The board after UpdatePartial of internal/service/courier/courier.go.
use mathlib.Core.Path.{ap₂}
use service_courier_platform.Prelude.{
  ◌≡◌, ◌∙◌, sym, ap, refl, subst, Bool, true, false, not, ◌&&◌, ◌==◌, any, map, some, Bool-cases,
  Option-cases, inl, inr, if◌then◌else◌,
}
use service_courier_platform.Errors.{sentinel, not_found, Result, ok, err}
use service_courier_platform.Domain.{Courier, PartialCourierUpdate}
use service_courier_platform.Database.{Db, M, after, return, fail, call, exec, check_status}
use service_courier_platform.Database.Calls.{SameTables, call-SameData, exec_state}
use service_courier_platform.Repository.{has_id, find_courier}
use service_courier_platform.Repository.Couriers
use service_courier_platform.Repository.Couriers.{apply_update, update_courier, or_conflict}
use service_courier_platform.Repository.Deliveries.{find_delivery}
use service_courier_platform.System.Updating.{conflict_state}
use service_courier_platform.CourierService
use service_courier_platform.CourierService.{validate_update}
use service_courier_platform.DeliveryService.Refusal.{tables_of}
use service_courier_platform.Board.{board, status_in, holder_in, editing, Move, stays, changes}
use service_courier_platform.Board.Statuses.{statuses_turned}
use service_courier_platform.Board.Moves.{stay}

-- The board reads the tables only.
pub board-SameTables : (a b : Db) → SameTables a b → board a ≡ board b
board-SameTables a b s =
    ap₂
      (λ cs ds. record {
        status_of = λ i. status_in (find_courier i cs);
        holder_of = λ o. holder_in (find_delivery o ds);
      })
      s.couriers s.deliveries

pub after_state :
    {A B : Type 0} (o : Result A × Db) (f : A → M B)
    → ((a : A) (d : Db) → (f a d).1 ≡ d)
    → (after o f).1 ≡ o.1
after_state (ok a, d) f h = h a d
after_state (err e, d) f h = refl

module _ (u : PartialCourierUpdate) where
  written_same :
      (d : Courier) → has_id u.id d ≡ false → (if has_id u.id d then apply_update u d else d) ≡ d
  written_same d e = rw e refl

  written_key : (d : Courier) → (if has_id u.id d then apply_update u d else d).id ≡ d.id
  written_key d = elim (Bool-cases (has_id u.id d)) [ inl e ↦ rw e refl | inr e ↦ rw e refl ]

  row_changes :
      (db : Db) (c : Courier)
      → find_courier u.id db.couriers ≡ some c
      → Move
          (board db)
          (board (record db {
            couriers = map (λ d. if has_id u.id d then apply_update u d else d) db.couriers;
          }))
          (editing u.id)
  row_changes db c e =
      changes u.id c.status (if has_id u.id c then apply_update u c else c).status (ap status_in e)
        (statuses_turned (λ d. if has_id u.id d then apply_update u d else d) u.id db.couriers c
          written_key written_same e)
        (λ o. refl)

  unmoved : (db : Db) → Move (board db) (board db) (editing u.id)
  unmoved db = stays (λ i. refl) (λ o. refl)

  update_courier-Move : (db : Db) → Move (board db) (board (update_courier u db).1) (editing u.id)
  unfolding update_courier
  update_courier-Move db = elim (Option-cases (find_courier u.id db.couriers)) [
    | inl e ↦ rw (e, update_courier) (unmoved db)
    | inr (c, e) ↦ elim (Bool-cases (check_status (apply_update u c).status)) [
      | inr bad ↦ rw (e, bad, update_courier) (unmoved db)
      | inl good ↦
          elim (Bool-cases
            (any (λ d. d.phone == (apply_update u c).phone && not (has_id u.id d)) db.couriers)) [
              | inl taken ↦ rw (e, good, taken, update_courier) (unmoved db)
              | inr fresh ↦ rw (e, good, fresh, update_courier) (row_changes db c e)
            ]
    ]
  ]

  called-Move : (db : Db) → Move (board db) (board (exec (update_courier u) db).1) (editing u.id)
  called-Move db =
      let same = tables_of (call-SameData db) in
      elim (exec_state (update_courier u) db) [
        | inl e ↦
            subst (λ d. Move (board db) (board d) (editing u.id)) (sym e) (stay (call db).1 db same)
        | inr e ↦
            subst (λ d. Move (board db) (board d) (editing u.id)) (sym e)
              (subst (λ b. Move b (board (update_courier u (call db).1).1) (editing u.id))
                (board-SameTables (call db).1 db same) (update_courier-Move (call db).1))
      ]

  stored-Move : (db : Db) → Move (board db) (board (Couriers.update_partial u db).1) (editing u.id)
  unfolding Couriers.update_partial
  stored-Move db =
      subst (λ d. Move (board db) (board d) (editing u.id))
        (sym (after_state _ _ (λ k d. refl) ∙ conflict_state _ (exec (update_courier u) db)))
        (called-Move db)

  reported_state :
      (b : Bool) (d : Db) → ((if b then return true else fail (sentinel not_found)) d).1 ≡ d
  reported_state true d = refl
  reported_state false d = refl

  judged-Move :
      (db : Db) (v : Result (Unit {0}))
      → validate_update u ≡ v
      → Move (board db) (board (CourierService.update_partial u db).1) (editing u.id)
  unfolding CourierService.update_partial
  judged-Move db (err e) q = rw q (unmoved db)
  judged-Move db (ok _) q = rw q (
      subst (λ d. Move (board db) (board d) (editing u.id))
        (sym (after_state (Couriers.update_partial u db) _ reported_state)) (stored-Move db))

  pub update-Move :
      (db : Db) → Move (board db) (board (CourierService.update_partial u db).1) (editing u.id)
  update-Move db = judged-Move db (validate_update u) refl
