-- ===== src/Repository/Couriers/Created.antt =====
-- What Create and Get of internal/repository/courier.go have done when they return.
use service_courier_platform.Prelude.{
  ◌⊎◌, ◌∙◌, Option, none, some, [], String, subst, ◌≡◌, sym, ap, refl, suc, ℤ, pos, false, ◌∷◌, any,
  Bool-cases, inl, inr,
}
use service_courier_platform.Errors.{
  err_ok, ok_inj, sentinel, no_rows, is_not_found, Result, ok, err,
}
use service_courier_platform.Domain.{Courier}
use service_courier_platform.Database.Calls.{
  SameTables, SameData, call-SameData, call-no_faults, exec_ok, exec_state,
}
use service_courier_platform.Database.{call, exec, Db, check_status}
use service_courier_platform.Repository.Valid.{has_phone}
use service_courier_platform.Repository.{find_courier, or_missing}
use service_courier_platform.Repository.Couriers.{
  or_conflict, create, get, select_courier, insert_courier,
}

-- A new row at the head of the table, with the next id, and a phone number that no row had.
pub record Stored (c : Courier) (id : ℤ) (before after : Db) : Type 0 where
  pub next : id ≡ pos (suc before.last_courier)
  pub fresh : any (has_phone c.phone) before.couriers ≡ false
  pub couriers : after.couriers ≡ record c { id = id } ∷ before.couriers
  pub deliveries : after.deliveries ≡ before.deliveries

insert_courier_ok :
    (c : Courier) (db : Db) {id : ℤ}
    → (insert_courier c db).0 ≡ ok id
    → Stored c id db (insert_courier c db).1
unfolding insert_courier
insert_courier_ok c db {id} h = elim (Bool-cases (check_status c.status)) [
  | inr bad ↦ absurd (err_ok (rw bad at h))
  | inl good ↦ elim (Bool-cases (any (has_phone c.phone) db.couriers)) [
    | inl taken ↦ absurd (err_ok (rw (good, taken) at h))
    | inr fresh ↦
        let same : pos (suc db.last_courier) ≡ id = ok_inj (rw (good, fresh) at h) in
        rw (good, fresh)
          (record {
            next = sym same;
            fresh = fresh;
            couriers = ap (λ i. record c { id = i } ∷ db.couriers) same;
            deliveries = refl;
          })
  ]
]

Stored-same :
    {c : Courier} {id : ℤ} {start before after : Db}
    → SameData start before
    → Stored c id start after
    → Stored c id before after
Stored-same {c} {id} s t = record {
  next = t.next ∙ ap (λ n. pos (suc n)) s.last_courier;
  fresh = ap (any (has_phone c.phone)) (sym s.couriers) ∙ t.fresh;
  couriers = t.couriers ∙ ap (λ cs. record c { id = id } ∷ cs) s.couriers;
  deliveries = t.deliveries ∙ s.deliveries;
}

conflict_ok :
    {A : Type 0} (l : String) (o : Result A × Db) {a : A}
    → (or_conflict l o).0 ≡ ok a
    → or_conflict l o ≡ o
conflict_ok l (ok a, db) h = refl
conflict_ok l (err e, db) h = cc

-- When `Create` returns an id, the row is stored under it, and nothing else has changed.
pub create_ok :
    (c : Courier) (db : Db) {id : ℤ} → (create c db).0 ≡ ok id → Stored c id db (create c db).1
unfolding create
create_ok c db {id} h =
    let whole = conflict_ok "create courier" (exec (insert_courier c) db) h in
    let done = whole ∙ exec_ok (insert_courier c) db (ap (λ o. o.0) (sym whole) ∙ h) in
    subst (λ o. Stored c id db o.1) (sym done)
      (Stored-same (call-SameData db)
        (insert_courier_ok c (call db).1 (ap (λ o. o.0) (sym done) ∙ h)))

-- `Get` with every call working returns the row with the id, or nothing.
pub get_healthy :
    (id : ℤ) (db : Db) → db.faults ≡ [] → get id db ≡ (ok (find_courier id db.couriers), db)
unfolding get select_courier is_not_found
get_healthy id db h = rw (call-no_faults db h) (found (find_courier id db.couriers) refl)
  where
    found :
        (o : Option Courier)
        → find_courier id db.couriers ≡ o
        → or_missing "get courier" (select_courier id db) ≡ (ok o, db)
    found none e = rw (absent e) refl
      where
        absent :
            find_courier id db.couriers ≡ none → select_courier id db ≡ (err (sentinel no_rows), db)
        absent q = rw (q, select_courier) refl
    found (some c) e = rw (present e) refl
      where
        present : find_courier id db.couriers ≡ some c → select_courier id db ≡ (ok c, db)
        present q = rw (q, select_courier) refl

-- What the `INSERT` leaves, whatever it answers: the tables as they were, or the new row.
insert_courier_state :
    (c : Courier) (db : Db)
    → SameTables (insert_courier c db).1 db ⊎ ((id : ℤ) × Stored c id db (insert_courier c db).1)
unfolding insert_courier
insert_courier_state c db = elim (Bool-cases (check_status c.status)) [
  | inr bad ↦ rw bad (inl (record { couriers = refl; deliveries = refl }))
  | inl good ↦ elim (Bool-cases (any (has_phone c.phone) db.couriers)) [
    | inl taken ↦ rw (good, taken) (inl (record { couriers = refl; deliveries = refl }))
    | inr fresh ↦
        rw (good, fresh)
          (inr (
            pos (suc db.last_courier),
            record { next = refl; fresh = fresh; couriers = refl; deliveries = refl },
          ))
  ]
]

conflict_state : {A : Type 0} (m : String) (o : Result A × Db) → (or_conflict m o).1 ≡ o.1
conflict_state m (ok a, db) = refl
conflict_state m (err e, db) = refl

-- Whatever `Create` answers, no table has changed, or the row is stored.
pub create_state :
    (c : Courier) (db : Db)
    → SameTables (create c db).1 db ⊎ ((id : ℤ) × Stored c id db (create c db).1)
unfolding create
create_state c db =
    subst (λ d. SameTables d db ⊎ ((id : ℤ) × Stored c id db d))
      (sym (conflict_state "create courier" (exec (insert_courier c) db)))
      (elim (exec_state (insert_courier c) db) [
        | inl e ↦ inl (record {
          couriers = ap (λ d. d.couriers) e ∙ (call-SameData db).couriers;
          deliveries = ap (λ d. d.deliveries) e ∙ (call-SameData db).deliveries;
        })
        | inr e ↦
            subst (λ d. SameTables d db ⊎ ((id : ℤ) × Stored c id db d)) (sym e)
              (elim (insert_courier_state c (call db).1) [
                | inl t ↦ inl (record {
                  couriers = t.couriers ∙ (call-SameData db).couriers;
                  deliveries = t.deliveries ∙ (call-SameData db).deliveries;
                })
                | inr (id, t) ↦ inr (id, Stored-same (call-SameData db) t)
              ])
      ])
