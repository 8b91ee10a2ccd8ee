-- ===== src/CourierService/Outcomes.antt =====
-- What Create and UpdatePartial of internal/service/courier/courier.go answer when no driver call
-- fails.
use service_courier_platform.Prelude.{
  some_inj, ℕ, ltb, List, ◌∷◌, All, subst, ◌≡◌, ◌∙◌, sym, ap, refl, suc, ℤ, pos, String, Bool, true,
  false, not, ◌&&◌, ◌==◌, [], any, Option, none, some, if◌then◌else◌, Bool-cases, Option-cases, inl,
  inr, arith,
}
use service_courier_platform.Errors.{
  ok_inj, pg, Err, Result, ok, err, sentinel, conflict, not_found, is_duplicate,
}
use service_courier_platform.Domain.{Courier, PartialCourierUpdate, status_valid}
use service_courier_platform.Database.{exec, after, return, fail, Db, check_status}
use service_courier_platform.Database.Calls.{call-no_faults}
use service_courier_platform.Repository.Couriers
use service_courier_platform.Repository.{find_courier, has_id}
use service_courier_platform.Repository.Valid.{IsValid, has_phone}
use service_courier_platform.Repository.Couriers.{apply_update, insert_courier, update_courier}
use service_courier_platform.CourierService.{
  validate_create, validate_update, create, update_partial,
}
use service_courier_platform.CourierService.Validation.{
  Passes, validate_create_iff, validate_update_iff, IsAllowed,
}

pub check_of_valid : (s : String) → status_valid s ≡ true → check_status s ≡ true
unfolding status_valid
check_of_valid s h = ground arith

store_answer : Db → Result Courier → Result ℤ
store_answer db (err e) = err e
store_answer db (ok c) =
    if any (has_phone c.phone) db.couriers
    then err (sentinel conflict)
    else ok (pos (suc db.last_courier))

-- A description of the answer of `Create`.
unfoldable pub create_answer : Db → Option Courier → Result ℤ
unfolding store_answer
create_answer db given = store_answer db (validate_create given)

insert_healthy :
    (c : Courier) (db : Db)
    → db.faults ≡ []
    → check_status c.status ≡ true
    → (Couriers.create c db).0 ≡ store_answer db (ok c)
unfolding Couriers.create insert_courier store_answer is_duplicate exec
insert_healthy c db h s = elim (Bool-cases (any (has_phone c.phone) db.couriers)) [
  | inl e ↦ rw (call-no_faults db h, s, e) refl
  | inr e ↦ rw (call-no_faults db h, s, e) refl
]

judged :
    (c : Courier) (db : Db)
    → db.faults ≡ []
    → (v : Result Courier) → validate_create (some c) ≡ v
    → (create (some c) db).0 ≡ store_answer db (validate_create (some c))
unfolding create store_answer
judged c db h (err e) q = rw q refl
judged c db h (ok d) q =
    let (same, formed) = (validate_create_iff c d).0 q in
    let status : check_status d.status ≡ true =
      ap (λ x. check_status x.status) same ∙ check_of_valid c.status formed.status in
    rw q (insert_healthy d db h status)

-- With every driver call working, `Create` answers by the validation, and then by whether the phone
-- number is taken: ErrConflict, or the next id of the sequence. The check on the status in the
-- database never fails.
pub create-answer :
    (given : Option Courier) (db : Db)
    → db.faults ≡ []
    → (create given db).0 ≡ create_answer db given
unfolding create create_answer store_answer validate_create
create-answer none db h = refl
create-answer (some c) db h = judged c db h (validate_create (some c)) refl

-- Another courier has the phone number that the update leaves in the row.
abbrev pub phone_taken : PartialCourierUpdate → Courier → Db → Bool
phone_taken u c db =
    any (λ d. d.phone == (apply_update u c).phone && not (has_id u.id d)) db.couriers

row_answer : PartialCourierUpdate → Db → Option Courier → Result Bool
row_answer u db none = err (sentinel not_found)
row_answer u db (some c) = if phone_taken u c db then err (sentinel conflict) else ok true

checked_answer : PartialCourierUpdate → Db → Result (Unit {0}) → Result Bool
checked_answer u db (err e) = err e
checked_answer u db (ok _) = row_answer u db (find_courier u.id db.couriers)

-- A description of the answer of `UpdatePartial`.
unfoldable pub update_answer : Db → PartialCourierUpdate → Result Bool
unfolding row_answer checked_answer
update_answer db u = checked_answer u db (validate_update u)

-- The status that the update leaves is one of the three.
status_left :
    (u : PartialCourierUpdate) (c : Courier)
    → IsAllowed u
    → check_status c.status ≡ true
    → check_status (apply_update u c).status ≡ true
status_left u c a h = elim (Option-cases u.status) [
  | inl e ↦ rw e h
  | inr (t, e) ↦
      rw e (check_of_valid t (subst (λ o. Passes o (λ s. status_valid s ≡ true)) e a.status))
]

found_row :
    (P : Courier → Type 0) (i : ℤ) (cs : List Courier) {c : Courier}
    → find_courier i cs ≡ some c
    → All P cs
    → P c
found_row P i [] h a = cc
found_row P i (x ∷ xs) h (p, a) = elim (Bool-cases (has_id i x)) [
  | inl e ↦ subst P (some_inj (rw e at h)) p
  | inr e ↦ found_row P i xs (rw e at h) a
]

row_absent :
    (u : PartialCourierUpdate) (db : Db)
    → find_courier u.id db.couriers ≡ none
    → update_courier u db ≡ (ok 0, db)
unfolding update_courier
row_absent u db e = rw (e, update_courier) refl

module _ (u : PartialCourierUpdate) (db : Db) (c : Courier)
    (here : find_courier u.id db.couriers ≡ some c)
    (good : check_status (apply_update u c).status ≡ true) where
  row_clashes : phone_taken u c db ≡ true → update_courier u db ≡ (err (pg "23505"), db)
  unfolding update_courier
  row_clashes t = rw (here, good, t, update_courier) refl

  row_written : phone_taken u c db ≡ false → (update_courier u db).0 ≡ ok 1
  unfolding update_courier
  row_written t = rw (here, good, t, update_courier) refl

-- What follows the `UPDATE`.
reported :
    (o : Result ℕ × Db)
    → o.0 ≡ ok 1
    → (after
        (after (Couriers.or_conflict "update courier" o) (λ k. return (ltb 0 k)))
        (λ b. if b then return true else fail (sentinel not_found))).0
      ≡ ok true
reported (ok k, db) h = let one : k ≡ 1 = ok_inj h in rw one refl
reported (err e, db) h = cc

row_updated :
    (u : PartialCourierUpdate) (db : Db)
    → db.faults ≡ []
    → validate_update u ≡ ok tt
    → All (λ c. check_status c.status ≡ true) db.couriers
    → (update_partial u db).0 ≡ row_answer u db (find_courier u.id db.couriers)
unfolding update_partial Couriers.update_partial row_answer is_duplicate exec
row_updated u db h q v = elim (Option-cases (find_courier u.id db.couriers)) [
  | inl e ↦ rw (q, call-no_faults db h, row_absent u db e, e) refl
  | inr (c, e) ↦
      let s =
        status_left u c ((validate_update_iff u).0 q)
          (found_row (λ c. check_status c.status ≡ true) u.id db.couriers e v) in
      elim (Bool-cases (phone_taken u c db)) [
        | inl t ↦ rw (q, call-no_faults db h, row_clashes u db c e s t, e, t) refl
        | inr t ↦
            rw (q, call-no_faults db h, e, t)
              (reported (update_courier u db) (row_written u db c e s t))
      ]
]

update_refused :
    (u : PartialCourierUpdate) (db : Db) {e : Err}
    → validate_update u ≡ err e
    → (update_partial u db).0 ≡ err e
unfolding update_partial
update_refused u db q = rw q refl

-- With every driver call working, in a database whose constraints hold, `UpdatePartial` answers by
-- the validation, by whether there is a row with the id, and by whether another courier has the
-- phone number that the row is to have: ErrInvalid, ErrNotFound, ErrConflict, and else true.
pub update-answer :
    (u : PartialCourierUpdate) (db : Db)
    → db.faults ≡ []
    → IsValid db
    → (update_partial u db).0 ≡ update_answer db u
unfolding update_answer checked_answer
update-answer u db h v = checked (validate_update u) refl
  where
    checked :
        (r : Result (Unit {0}))
        → validate_update u ≡ r
        → (update_partial u db).0 ≡ checked_answer u db (validate_update u)
    checked (err e) q = update_refused u db q ∙ sym (ap (checked_answer u db) q)
    checked (ok _) q = row_updated u db h q v.statuses ∙ sym (ap (checked_answer u db) q)
