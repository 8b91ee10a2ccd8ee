-- ===== src/Repository/Valid.antt =====
-- The constraints of db/migrations, as an invariant, and the statements of
-- internal/repository/delivery.go that keep it.
use service_courier_platform.Prelude.{
  ℕ, ℤ, pos, ◌≤◌, ◌≡◌, ◌∙◌, String, Bool, true, false, ◌==◌, List, ◌∷◌, map, any, count, keep, All,
  leb_ℤ, arith, eq_iff, count-map, any-map, All-map, All-weaken, All-keep, count-keep-le,
  count-zero_of_any, if◌then◌else◌, Bool-cases, inl, inr,
}
use service_courier_platform.Domain.{Courier, Delivery, CourierStatus}
use service_courier_platform.Database.{Db, check_status}
use service_courier_platform.Database.Calls.{SameData}
use service_courier_platform.Repository.{has_id}
use service_courier_platform.Repository.Deliveries.{of_order}

abbrev pub has_phone : String → Courier → Bool
has_phone p c = c.phone == p

-- The invariant while the couriers' sequence stands at `n`.
pub record ValidAt (n : ℕ) (db : Db) : Type 0 where
  pub sequence : db.last_courier ≡ n
  -- PRIMARY KEY and UNIQUE of `couriers`, and ids from the sequence
  pub ids : (i : ℤ) → count (has_id i) db.couriers ≤ 1
  pub bounded : All (λ c. leb_ℤ c.id (pos n) ≡ true) db.couriers
  pub phones : (p : String) → count (has_phone p) db.couriers ≤ 1
  -- CHECK
  pub statuses : All (λ c. check_status c.status ≡ true) db.couriers
  -- ux_delivery_order_id, and REFERENCES couriers(id)
  pub orders : (o : String) → count (of_order o) db.deliveries ≤ 1
  pub owners : All (λ d. any (has_id d.courier_id) db.couriers ≡ true) db.deliveries

abbrev pub IsValid : Db → Type 0
IsValid db = ValidAt db.last_courier db

-- The invariant reads the tables and the sequence only.
pub SameData-ValidAt : {n : ℕ} (a b : Db) → SameData a b → ValidAt n b → ValidAt n a
SameData-ValidAt {n} a b s v = record {
  sequence = s.last_courier ∙ v.sequence;
  ids = λ i. rw s.couriers (v.ids i);
  bounded = rw s.couriers v.bounded;
  phones = λ p. rw s.couriers (v.phones p);
  statuses = rw s.couriers v.statuses;
  orders = λ o. rw s.deliveries (v.orders o);
  owners = rw (s.couriers, s.deliveries) v.owners;
}

cons_orders :
    (d : Delivery) (o : String) (ds : List Delivery)
    → any (of_order d.order_id) ds ≡ false
    → count (of_order o) ds ≤ 1
    → count (of_order o) (d ∷ ds) ≤ 1
cons_orders d o ds fresh h = elim (Bool-cases (d.order_id == o)) [
  | inl e ↦
      let none_yet : count (of_order o) ds ≡ 0 =
        count-zero_of_any (of_order o) ds (rw ((eq_iff _ _).0 e) at fresh) in
      rw (e, none_yet) (omega arith)
  | inr e ↦ rw e h
]

-- Writing statuses, whatever rows are chosen.
module _ (chosen : Courier → Bool) (status : CourierStatus) where
  abbrev pub restatus : Courier → Courier
  restatus c = if chosen c then record c { status = status } else c

  pub restatus_id : (c : Courier) → (restatus c).id ≡ c.id
  restatus_id c = ground arith

  restatus_phone : (c : Courier) → (restatus c).phone ≡ c.phone
  restatus_phone c = ground arith

  restatus_check :
      (c : Courier)
      → check_status status ≡ true
      → check_status c.status ≡ true
      → check_status (restatus c).status ≡ true
  restatus_check c s h = elim (Bool-cases (chosen c)) [ inl e ↦ rw e s | inr e ↦ rw e h ]

  pub restatus-has_id : (i : ℤ) (c : Courier) → has_id i (restatus c) ≡ has_id i c
  restatus-has_id i c = rw (restatus_id c)

  restatus-has_phone : (p : String) (c : Courier) → has_phone p (restatus c) ≡ has_phone p c
  restatus-has_phone p c = rw (restatus_phone c)

  pub restatus-ValidAt :
      {n : ℕ} (db : Db)
      → check_status status ≡ true
      → ValidAt n db
      → ValidAt n (record db { couriers = map restatus db.couriers })
  restatus-ValidAt {n} db s v = record {
    sequence = v.sequence;
    ids = λ i. rw (count-map (has_id i) restatus (restatus-has_id i) db.couriers) (v.ids i);
    bounded =
        All-map (λ c. leb_ℤ c.id (pos n) ≡ true) restatus (λ c h. rw (restatus_id c) h) db.couriers
          v.bounded;
    phones =
        λ p. rw (count-map (has_phone p) restatus (restatus-has_phone p) db.couriers) (v.phones p);
    statuses =
        All-map (λ c. check_status c.status ≡ true) restatus (λ c h. restatus_check c s h)
          db.couriers v.statuses;
    orders = v.orders;
    owners =
        All-weaken (λ d. any (has_id d.courier_id) (map restatus db.couriers) ≡ true)
          (λ d. any (has_id d.courier_id) db.couriers ≡ true)
          (λ d h.
            any-map (has_id d.courier_id) restatus (restatus-has_id d.courier_id) db.couriers ∙ h)
          db.deliveries v.owners;
  }

-- Removing the deliveries that fail a test.
pub keep-ValidAt :
    (q : Delivery → Bool) {n : ℕ} (db : Db)
    → ValidAt n db
    → ValidAt n (record db { deliveries = keep q db.deliveries })
keep-ValidAt q db v = record {
  sequence = v.sequence;
  ids = v.ids;
  bounded = v.bounded;
  phones = v.phones;
  statuses = v.statuses;
  orders = λ o. omega (arith, count-keep-le (of_order o) q db.deliveries, v.orders o);
  owners = All-keep (λ d. any (has_id d.courier_id) db.couriers ≡ true) q db.deliveries v.owners;
}

-- Adding a delivery for an order that has none, to a courier that there is.
pub cons-ValidAt :
    (d : Delivery) {n : ℕ} (db : Db)
    → any (of_order d.order_id) db.deliveries ≡ false
    → any (has_id d.courier_id) db.couriers ≡ true
    → ValidAt n db
    → ValidAt n (record db { deliveries = d ∷ db.deliveries })
cons-ValidAt d db fresh owner v = record {
  sequence = v.sequence;
  ids = v.ids;
  bounded = v.bounded;
  phones = v.phones;
  statuses = v.statuses;
  orders = λ o. cons_orders d o db.deliveries fresh (v.orders o);
  owners = (owner, v.owners);
}
