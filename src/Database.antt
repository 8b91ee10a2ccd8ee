-- ===== src/Database.antt =====
-- The database that internal/repository talks to: the tables of db/migrations, and the calls of
-- the driver. A call may fail, as `faults` says; the program has no other view of the network,
-- of timeouts and of a cancelled context. The server may have carried out a call that fails, where
-- its answer is lost.
pub mod Calls
pub mod Keeps
use service_courier_platform.Prelude.{
  ℕ, List, [], ◌∷◌, Option, none, some, String, Bool, true, false, ◌||◌, ◌==◌, if◌then◌else◌,
}
use service_courier_platform.Errors.{
  Err, sentinel, canceled, deadline_exceeded, pg, text, wrap, Result, ok, err,
}
use service_courier_platform.Domain.{Courier, Delivery}

-- A failure of a driver call: the context ended, the server answered with an error code, or the
-- connection broke. The late ones come after the server has carried out the call. None of them is
-- `pgx.ErrNoRows`, which is the answer of a query with no row.
pub data Fault : Type 0 where
  cut_off timed_out : Fault
  refused broken : String → Fault
  late_cut_off late_timed_out : Fault
  late_broken : String → Fault

abbrev pub fault_err : Fault → Err
fault_err cut_off = sentinel canceled
fault_err timed_out = sentinel deadline_exceeded
fault_err (refused code) = pg code
fault_err (broken m) = text m
fault_err late_cut_off = sentinel canceled
fault_err late_timed_out = sentinel deadline_exceeded
fault_err (late_broken m) = text m

abbrev late : Fault → Bool
late late_cut_off = true
late late_timed_out = true
late (late_broken m) = true
late _ = false

-- The next call fails when the server has carried it out.
unfoldable pub is_late : List (Option Fault) → Bool
is_late (some f ∷ fs) = late f
is_late _ = false

pub record Db : Type 0 where
  -- the table `couriers`, and `delivery`
  pub couriers : List Courier
  pub deliveries : List Delivery
  -- the last value of each table's sequence
  pub last_courier : ℕ
  pub last_delivery : ℕ
  -- what becomes of the next driver calls; when the list has ended, they succeed
  pub faults : List (Option Fault)

-- `CHECK (status IN ('available','busy','paused'))`.
abbrev pub check_status : String → Bool
check_status s = s == "available" || (s == "busy" || s == "paused")

abbrev pub M : Type 0 → Type 0
M A = Db → Result A × Db

abbrev pub after : {A B : Type 0} → Result A × Db → (A → M B) → Result B × Db
after (ok a, db) f = f a db
after (err e, db) f = (err e, db)

infixl 5 ◌>>=◌ ◌>>◌
abbrev pub ◌>>=◌ : {A B : Type 0} → M A → (A → M B) → M B
◌>>=◌ m f db = after (m db) f

abbrev pub ◌>>◌ : {A B : Type 0} → M A → M B → M B
◌>>◌ m k db = after (m db) (λ _. k)

abbrev pub return : {A : Type 0} → A → M A
return a db = (ok a, db)

abbrev pub fail : {A : Type 0} → Err → M A
fail e db = (err e, db)

-- `fmt.Errorf` round the error of a call.
abbrev pub relabel : {A : Type 0} → String → Result A × Db → Result A × Db
relabel m (ok a, db) = (ok a, db)
relabel m (err e, db) = (err (wrap m e), db)

abbrev pub labelled : {A : Type 0} → String → M A → M A
labelled m f db = relabel m (f db)

-- The next call of the driver.
draw : List (Option Fault) → Db → Result (Unit {0}) × Db
draw [] db = (ok tt, db)
draw (none ∷ fs) db = (ok tt, record db { faults = fs })
draw (some f ∷ fs) db = (err (fault_err f), record db { faults = fs })

unfoldable pub call : M (Unit {0})
unfolding draw
call db = draw db.faults db

-- What becomes of a statement that stands for itself, by the answer of its call.
unfoldable pub carried : {A : Type 0} → Bool → M A → Result (Unit {0}) × Db → Result A × Db
carried done m (ok _, db) = m db
carried done m (err e, db) = (err e, if done then (m db).1 else db)

-- A statement outside of a transaction, which PostgreSQL commits at once.
unfoldable pub exec : {A : Type 0} → M A → M A
unfolding carried
exec m db = carried (is_late db.faults) m (call db)

-- The tables as they were when a transaction began. Sequences are not rolled back.
abbrev pub restore : Db → Db → Db
restore start db = record db { couriers = start.couriers; deliveries = start.deliveries }
