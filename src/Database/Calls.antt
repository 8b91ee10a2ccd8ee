-- ===== src/Database/Calls.antt =====
-- A driver call changes no table.
use service_courier_platform.Prelude.{
  Bool, true, ◌⊎◌, inl, inr, ◌≡◌, arith, [], ◌∷◌, none, some, false, List, Option, String, refl,
}
use service_courier_platform.Errors.{Err, Result, ok, err, is_not_found}
use service_courier_platform.Database.{
  Db, M, Fault, cut_off, timed_out, refused, broken, late_cut_off, late_timed_out, late_broken,
  carried, is_late, exec, fault_err, draw, call, ◌>>◌, after, relabel, labelled,
}

-- The parts of the database that a client can read are the same.
pub record SameTables (a b : Db) : Type 0 where
  pub couriers : a.couriers ≡ b.couriers
  pub deliveries : a.deliveries ≡ b.deliveries

pub record SameData (a b : Db) : Type 0 where
  pub couriers : a.couriers ≡ b.couriers
  pub deliveries : a.deliveries ≡ b.deliveries
  pub last_courier : a.last_courier ≡ b.last_courier
  pub last_delivery : a.last_delivery ≡ b.last_delivery

pub SameData-refl : (db : Db) → SameData db db
SameData-refl db = record {
  couriers = refl;
  deliveries = refl;
  last_courier = refl;
  last_delivery = refl;
}

draw-SameData : (fs : List (Option Fault)) (db : Db) → SameData (draw fs db).1 db
unfolding draw
draw-SameData [] db = ground arith
draw-SameData (none ∷ fs) db = ground arith
draw-SameData (some e ∷ fs) db = ground arith

pub call-SameData : (db : Db) → SameData (call db).1 db
unfolding call
call-SameData db = draw-SameData db.faults db

fault_found : (f : Fault) → is_not_found (fault_err f) ≡ false
unfolding is_not_found
fault_found cut_off = refl
fault_found timed_out = refl
fault_found (refused c) = refl
fault_found (broken m) = refl
fault_found late_cut_off = refl
fault_found late_timed_out = refl
fault_found (late_broken m) = refl

draw_found :
    (fs : List (Option Fault)) (db : Db) {e : Err} → (draw fs db).0 ≡ err e → is_not_found e ≡ false
unfolding draw
draw_found [] db h = cc
draw_found (none ∷ fs) db h = cc
draw_found (some f ∷ fs) db h = ground (arith, fault_found f)

-- The error of a failed call is never the answer "no row".
pub call_found : (db : Db) {e : Err} → (call db).0 ≡ err e → is_not_found e ≡ false
unfolding call
call_found db h = draw_found db.faults db h

-- With no fault left a call succeeds and changes nothing.
pub call-no_faults : (db : Db) → db.faults ≡ [] → call db ≡ (ok tt, db)
unfolding call
call-no_faults db e = rw (e, draw)

pub relabel_ok :
    {A : Type 0} (l : String) (o : Result A × Db) {a : A} → (relabel l o).0 ≡ ok a → relabel l o ≡ o
relabel_ok l (ok a, db) h = refl
relabel_ok l (err e, db) h = cc

-- A statement that succeeded ran on the data that its caller had.
pub record Ran {A : Type 0} (m : M A) (db : Db) (out : Result A × Db) : Type 0 where
  pub start : Db
  pub same : SameData start db
  pub ran : out ≡ m start

then_ok :
    {A : Type 0} (m : M A) (l : String) (o : Result (Unit {0}) × Db) {db : Db} {a : A}
    → SameData o.1 db
    → (relabel l (after o (λ _. m))).0 ≡ ok a
    → Ran m db (relabel l (after o (λ _. m)))
then_ok m l (ok _, start) s h = record { start = start; same = s; ran = relabel_ok l (m start) h }
then_ok m l (err e, start) s h = cc

pub call-then_ok :
    {A : Type 0} (m : M A) (l : String) (db : Db) {a : A}
    → (labelled l (call >> m) db).0 ≡ ok a
    → Ran m db (labelled l (call >> m) db)
call-then_ok m l db h = then_ok m l (call db) (call-SameData db) h

-- Inversion of a successful sequence.
pub after-eq-ok :
    {A B : Type 0} (o : Result A × Db) (f : A → M B) {b : B}
    → (after o f).0 ≡ ok b
    → (a : A) × (o.0 ≡ ok a) × (after o f ≡ f a o.1)
after-eq-ok (ok a, db) f h = (a, refl, refl)
after-eq-ok (err e, db) f h = cc

carried_ok :
    {A : Type 0} (b : Bool) (m : M A) (o : Result (Unit {0}) × Db) {a : A}
    → (carried b m o).0 ≡ ok a
    → carried b m o ≡ m o.1
unfolding carried
carried_ok b m (ok _, db) h = refl
carried_ok b m (err e, db) h = cc

-- A statement that answers ran on the data that its caller had.
pub exec_ok :
    {A : Type 0} (m : M A) (db : Db) {a : A} → (exec m db).0 ≡ ok a → exec m db ≡ m (call db).1
unfolding exec
exec_ok m db h = carried_ok (is_late db.faults) m (call db) h

carried_state :
    {A : Type 0} (b : Bool) (m : M A) (o : Result (Unit {0}) × Db)
    → ((carried b m o).1 ≡ o.1) ⊎ ((carried b m o).1 ≡ (m o.1).1)
unfolding carried
carried_state b m (ok _, db) = inr refl
carried_state true m (err e, db) = inr refl
carried_state false m (err e, db) = inl refl

-- Whatever a statement answers, it has run or it has not.
pub exec_state :
    {A : Type 0} (m : M A) (db : Db)
    → ((exec m db).1 ≡ (call db).1) ⊎ ((exec m db).1 ≡ (m (call db).1).1)
unfolding exec
exec_state m db = carried_state (is_late db.faults) m (call db)

pub exec-no_faults : {A : Type 0} (m : M A) (db : Db) → db.faults ≡ [] → exec m db ≡ m db
unfolding exec carried
exec-no_faults m db h = rw (call-no_faults db h) refl
