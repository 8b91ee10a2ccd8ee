-- ===== src/Repository/Deliveries/Transactions.antt =====
-- WithTx of internal/repository/delivery.go, for every body and all faults.
use service_courier_platform.Prelude.{
  ◌≡◌, ◌∙◌, sym, ◌⊎◌, inl, inr, Bool, true, false, refl, [], arith,
}
use service_courier_platform.Errors.{Err, wrap, Result, ok, err, err_inj}
use service_courier_platform.Database.{Db, M, call, is_late, restore, relabel, after}
use service_courier_platform.Database.Calls.{SameTables, SameData, call-SameData, call-no_faults}
use service_courier_platform.Repository.Deliveries.{with_tx, finish, rolled_back, committed}

rolled_back_keeps :
    (A : Type 0) (e : Err) (o : Result (Unit {0}) × Db) {start : Db}
    → SameTables o.1 start
    → SameTables (rolled_back {A = A} e o).1 start
unfolding rolled_back
rolled_back_keeps A e (ok _, db) h = h
rolled_back_keeps A e (err r, db) h = h

-- How a transaction ends that reports an error: its changes are gone; or its body has succeeded,
-- they are all there, and the answer of the commit was lost.
pub data Ended {A : Type 0} (fn : M A) (db : Db) (e : Err) (end : Db) : Type 0 where
  undone : SameTables end db → Ended fn db e end
  unheard :
      (a : A) (lost : Err)
      → e ≡ wrap "commit tx" lost
      → (fn (call db).1).0 ≡ ok a
      → SameData end (fn (call db).1).1
      → Ended fn db e end

committed_err :
    {A : Type 0} (a : A) (start : Db) (done : Bool) (o : Result (Unit {0}) × Db) {before : Db}
    {e : Err}
    → SameData o.1 before
    → (committed a start done o).0 ≡ err e
    → SameTables (committed a start done o).1 start
      ⊎ ((lost : Err) × (e ≡ wrap "commit tx" lost) × SameData (committed a start done o).1 before)
unfolding committed
committed_err a start done (ok _, db) s h = cc
committed_err a start true (err x, db) s h = inr (x, sym (err_inj h), s)
committed_err a start false (err x, db) s h = inl (record { couriers = refl; deliveries = refl })

finish_err :
    {A : Type 0} (start : Db) (o : Result A × Db) {e : Err}
    → (finish start o).0 ≡ err e
    → SameTables (finish start o).1 start
      ⊎ ((a : A) × (lost : Err) × (e ≡ wrap "commit tx" lost)
          × (o.0 ≡ ok a)
          × SameData (finish start o).1 o.1)
unfolding finish
finish_err {A} start (err x, db) h = inl (
    rolled_back_keeps A x (call (restore start db))
      (ground (arith, call-SameData (restore start db))))
finish_err start (ok a, db) h =
    elim (committed_err a start (is_late db.faults) (call db) (call-SameData db) h) [
      | inl s ↦ inl s
      | inr (lost, why, s) ↦ inr (a, lost, why, refl, s)
    ]

began_err :
    {A : Type 0} (fn : M A) (o : Result (Unit {0}) × Db) {db : Db} {e : Err}
    → SameTables o.1 db
    → (after (relabel "begin tx" o) (λ _ start. finish start (fn start))).0 ≡ err e
    → SameTables (after (relabel "begin tx" o) (λ _ start. finish start (fn start))).1 db
      ⊎ ((a : A) × (lost : Err) × (e ≡ wrap "commit tx" lost)
          × ((fn o.1).0 ≡ ok a)
          × SameData
              (after (relabel "begin tx" o) (λ _ start. finish start (fn start))).1
              (fn o.1).1)
began_err fn (err x, start) s h = inl s
began_err fn (ok _, start) s h = elim (finish_err start (fn start) h) [
  | inr done ↦ inr done
  | inl t ↦
      inl (record { couriers = t.couriers ∙ s.couriers; deliveries = t.deliveries ∙ s.deliveries })
]

-- When `WithTx` returns an error, it is all or nothing: no table has changed; or the body has
-- succeeded and the tables are as it left them, and the error is that of the commit, whose answer
-- was lost.
pub with_tx_atomic :
    {A : Type 0} (fn : M A) (db : Db) {e : Err}
    → (with_tx fn db).0 ≡ err e
    → Ended fn db e (with_tx fn db).1
unfolding with_tx
with_tx_atomic fn db h =
    elim (began_err fn (call db)
      (record {
        couriers = (call-SameData db).couriers;
        deliveries = (call-SameData db).deliveries;
      })
      h) [ inl s ↦ undone s | inr (a, lost, why, ran, s) ↦ unheard a lost why ran s ]

committed_ok :
    {A : Type 0} (a : A) (start : Db) (done : Bool) (o : Result (Unit {0}) × Db) {b : A}
    → (committed a start done o).0 ≡ ok b
    → (ok a ≡ ok b) × ((committed a start done o).1 ≡ o.1)
unfolding committed
committed_ok a start done (ok _, db) h = (h, refl)
committed_ok a start done (err x, db) h = cc

rolled_back_err :
    {A : Type 0} (e : Err) (o : Result (Unit {0}) × Db) {a : A}
    → (rolled_back {A = A} e o).0 ≡ ok a
    → ⊥
unfolding rolled_back
rolled_back_err e (ok _, db) h = cc
rolled_back_err e (err r, db) h = cc

finish_ok :
    {A : Type 0} (start : Db) (o : Result A × Db) {b : A}
    → (finish start o).0 ≡ ok b
    → (o.0 ≡ ok b) × SameData (finish start o).1 o.1
unfolding finish rolled_back
finish_ok start (err x, db) h = absurd (rolled_back_err x (call (restore start db)) h)
finish_ok start (ok a, db) h =
    let (same, state) = committed_ok a start (is_late db.faults) (call db) h in
    (same, rw state (call-SameData db))

began_ok :
    {A : Type 0} (fn : M A) (o : Result (Unit {0}) × Db) {b : A}
    → (after (relabel "begin tx" o) (λ _ start. finish start (fn start))).0 ≡ ok b
    → ((fn o.1).0 ≡ ok b)
      × SameData (after (relabel "begin tx" o) (λ _ start. finish start (fn start))).1 (fn o.1).1
began_ok fn (ok _, start) h = finish_ok start (fn start) h
began_ok fn (err x, start) h = cc

-- When it returns a value, the body returned it, and the data are those that the body left.
pub with_tx_commits :
    {A : Type 0} (fn : M A) (db : Db) {a : A}
    → (with_tx fn db).0 ≡ ok a
    → ((fn (call db).1).0 ≡ ok a) × SameData (with_tx fn db).1 (fn (call db).1).1
unfolding with_tx
with_tx_commits fn db h = began_ok fn (call db) h

finish-no_faults :
    {A : Type 0} (start : Db) (o : Result A × Db) → o.1.faults ≡ [] → (finish start o).0 ≡ o.0
unfolding finish rolled_back committed
finish-no_faults start (err x, db) h = rw (call-no_faults (restore start db) h)
finish-no_faults start (ok a, db) h = rw (call-no_faults db h)

-- With no fault left, the caller gets exactly what the body returns.
pub with_tx-no_faults :
    {A : Type 0} (fn : M A) (db : Db)
    → db.faults ≡ []
    → (fn db).1.faults ≡ []
    → (with_tx fn db).0 ≡ (fn db).0
unfolding with_tx
with_tx-no_faults fn db h k = rw (call-no_faults db h) (finish-no_faults db (fn db) k)
