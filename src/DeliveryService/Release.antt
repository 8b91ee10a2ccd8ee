-- ===== src/DeliveryService/Release.antt =====
-- ReleaseExpired of internal/service/delivery/usecase.go, with ReleaseCouriers of
-- internal/repository/delivery.go.
use service_courier_platform.Prelude.{
  any_of_In_true, ◌≡◌, ◌∙◌, sym, ap, subst, true, false, ◌&&◌, List, [], ◌∷◌, map, All, In, ◌<◌,
  ◌≤◌, ltb, lt→ltb, Bool-cases, inl, inr, eq_iff, eqb_ℤ, eqb_ℤ_iff,
}
use service_courier_platform.Errors.{ok}
use service_courier_platform.Domain.{Courier, Delivery, Time, status_busy, status_available}
use service_courier_platform.Database.{Db, return, call, exec}
use service_courier_platform.Database.Calls.{
  exec_ok, relabel_ok, call-SameData, SameData, after-eq-ok,
}
use service_courier_platform.Repository.Valid.{restatus}
use service_courier_platform.Repository.Deliveries.{is_expired, release_rows, release_couriers}
use service_courier_platform.DeliveryService.{release_expired}

-- No courier is busy with an expired delivery, and only such couriers have changed.
pub record Released (now : Time) (before after : Db) : Type 0 where
  pub couriers :
      after.couriers
      ≡ map (restatus (is_expired now before.deliveries) status_available) before.couriers
  pub deliveries : after.deliveries ≡ before.deliveries
  pub none_left : All (λ c. is_expired now after.deliveries c ≡ false) after.couriers

settled :
    (now : Time) (ds : List Delivery) (c : Courier)
    → is_expired now ds (restatus (is_expired now ds) status_available c) ≡ false
settled now ds c = elim (Bool-cases (is_expired now ds c)) [ inl e ↦ rw e | inr e ↦ rw (e, e) ]

All-settled :
    (now : Time) (ds : List Delivery) (cs : List Courier)
    → All
        (λ c. is_expired now ds c ≡ false)
        (map (restatus (is_expired now ds) status_available) cs)
All-settled now ds [] = tt
All-settled now ds (c ∷ cs) = (settled now ds c, All-settled now ds cs)

pub released :
    (now : Time) (start before : Db)
    → SameData start before
    → Released now before (release_rows now start).1
unfolding release_rows
released now start before s = record {
  couriers =
      ap (λ ds. map (restatus (is_expired now ds) status_available) start.couriers) s.deliveries
      ∙ ap (map (restatus (is_expired now before.deliveries) status_available)) s.couriers;
  deliveries = s.deliveries;
  none_left = All-settled now start.deliveries start.couriers;
}

pub release_expired_ok :
    (now : Time) (db : Db) {u : Unit {0}}
    → (release_expired now db).0 ≡ ok u
    → Released now db (release_expired now db).1
unfolding release_expired release_couriers
release_expired_ok now db h =
    let (k, counted, ran) = after-eq-ok (release_couriers now db) (λ _. return tt) h in
    let whole = relabel_ok "release expired couriers" (exec (release_rows now) db) counted in
    let listed = exec_ok (release_rows now) db (ap (λ o. o.0) (sym whole) ∙ counted) in
    let same : (release_expired now db).1 ≡ (release_rows now (call db).1).1 =
      ap (λ o. o.1) ran ∙ ap (λ o. o.1) (whole ∙ listed) in
    subst (Released now db) (sym same) (released now (call db).1 db (call-SameData db))

pub In-map :
    (f : Courier → Courier) (cs : List Courier) (c : Courier) → In c cs → In (f c) (map f cs)
In-map f [] c i = absurd i
In-map f (x ∷ xs) c (inl e) = inl (ap f e)
In-map f (x ∷ xs) c (inr i) = inr (In-map f xs c i)

pub expired_of_row :
    (now : Time) (ds : List Delivery) (c : Courier) (old : Delivery)
    → c.status ≡ status_busy
    → In old ds
    → old.courier_id ≡ c.id
    → old.deadline < now
    → is_expired now ds c ≡ true
expired_of_row now ds c old busy i own late =
    let row : (eqb_ℤ old.courier_id c.id && ltb old.deadline now) ≡ true =
      rw ((eqb_ℤ_iff old.courier_id c.id).1 own, lt→ltb old.deadline now late) in
    rw (
      (eq_iff c.status status_busy).1 busy,
      any_of_In_true (λ d. eqb_ℤ d.courier_id c.id && ltb d.deadline now) ds old i row,
    )

-- A busy courier with a delivery that is still running becomes available, if another delivery of
-- that courier has passed its deadline: the release does not look at the running one.
pub release_expired-frees_running :
    (now : Time) (db : Db) (c : Courier) (old current : Delivery) {u : Unit {0}}
    → In c db.couriers
    → c.status ≡ status_busy
    → In old db.deliveries
    → old.courier_id ≡ c.id
    → old.deadline < now
    → In current db.deliveries
    → current.courier_id ≡ c.id
    → now ≤ current.deadline
    → (release_expired now db).0 ≡ ok u
    → In (record c { status = status_available }) (release_expired now db).1.couriers
      × In current (release_expired now db).1.deliveries
release_expired-frees_running now db c old current here busy i own late j own' running h =
    let r = release_expired_ok now db h in
    let e = expired_of_row now db.deliveries c old busy i own late in
    let moved : restatus (is_expired now db.deliveries) status_available c
        ≡ record c { status = status_available } =
      rw e in
    (
      subst (In (record c { status = status_available })) (sym r.couriers) (
          subst
            (λ x. In x (map (restatus (is_expired now db.deliveries) status_available) db.couriers))
            moved
            (In-map (restatus (is_expired now db.deliveries) status_available) db.couriers c here)),
      subst (In current) (sym r.deliveries) j,
    )
