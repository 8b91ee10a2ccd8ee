-- ===== src/Repository/Couriers/Insertion.antt =====
-- The INSERT of Create in internal/repository/courier.go keeps the constraints of db/migrations.
use service_courier_platform.Prelude.{
  ℕ, suc, ℤ, pos, ◌≤◌, ◌≡◌, ◌∙◌, sym, subst, ap, refl, Bool, true, false, List, [], ◌∷◌, any, count,
  All, leb_ℤ, eqb_ℤ, arith, eq_iff, eqb_ℤ_iff, Bool-cases, inl, inr, All-weaken, count-zero_of_any,
}
use service_courier_platform.Domain.{Courier}
use service_courier_platform.Database.{Db, check_status}
use service_courier_platform.Database.Keeps.{Keeps}
use service_courier_platform.Repository.{has_id}
use service_courier_platform.Repository.Valid.{ValidAt, IsValid, has_phone}
use service_courier_platform.Repository.Couriers.{insert_courier}

later_id : (n : ℕ) (i : ℤ) → leb_ℤ i (pos n) ≡ true → leb_ℤ i (pos (suc n)) ≡ true
later_id n (pos i) h = ground arith
later_id n (ℤ.negsuc i) h = ground arith

other_id : (n : ℕ) (i : ℤ) → leb_ℤ i (pos n) ≡ true → eqb_ℤ i (pos (suc n)) ≡ false
other_id n (pos i) h = ground arith
other_id n (ℤ.negsuc i) h = refl

next_ValidAt :
    {n : ℕ} (db : Db)
    → ValidAt n db
    → ValidAt (suc n) (record db { last_courier = suc db.last_courier })
next_ValidAt {n} db v = record {
  sequence = ap suc v.sequence;
  ids = v.ids;
  bounded =
      All-weaken (λ c. leb_ℤ c.id (pos (suc n)) ≡ true) (λ c. leb_ℤ c.id (pos n) ≡ true)
        (λ c h. later_id n c.id h) db.couriers v.bounded;
  phones = v.phones;
  statuses = v.statuses;
  orders = v.orders;
  owners = v.owners;
}

-- A test that nothing passes but the new row.
one_more :
    (p : Courier → Bool) (c : Courier) (cs : List Courier)
    → (p c ≡ true → count p cs ≡ 0)
    → count p cs ≤ 1
    → count p (c ∷ cs) ≤ 1
one_more p c cs h k = elim (Bool-cases (p c)) [ inl e ↦ rw (e, h e) (omega arith) | inr e ↦ rw e k ]

no_such_id :
    (n : ℕ) (cs : List Courier)
    → All (λ c. leb_ℤ c.id (pos n) ≡ true) cs
    → count (has_id (pos (suc n))) cs ≡ 0
no_such_id n [] h = refl
no_such_id n (c ∷ cs) (h, hs) = rw (other_id n c.id h) (no_such_id n cs hs)

le_self : (n : ℕ) → leb_ℤ (pos n) (pos n) ≡ true
le_self n = ground arith

any_cons :
    (p : Courier → Bool) (c : Courier) (cs : List Courier) → any p cs ≡ true → any p (c ∷ cs) ≡ true
any_cons p c cs h = elim (Bool-cases (p c)) [ inl e ↦ rw e | inr e ↦ rw (e, h) ]

added_ValidAt :
    {n : ℕ} (c : Courier) (db : Db)
    → c.id ≡ pos (suc n)
    → check_status c.status ≡ true
    → any (has_phone c.phone) db.couriers ≡ false
    → ValidAt n db
    → ValidAt (suc n) (record db { last_courier = suc db.last_courier; couriers = c ∷ db.couriers })
added_ValidAt {n} c db new s fresh v =
    let w = next_ValidAt db v in
    record {
      sequence = w.sequence;
      ids = λ i.
          one_more (has_id i) c db.couriers
            (λ h.
              subst (λ j. count (has_id j) db.couriers ≡ 0) (sym new ∙ (eqb_ℤ_iff c.id i).0 h)
                (no_such_id n db.couriers v.bounded))
            (v.ids i);
      bounded = (subst (λ j. leb_ℤ j (pos (suc n)) ≡ true) (sym new) (le_self (suc n)), w.bounded);
      phones = λ p.
          one_more (has_phone p) c db.couriers
            (λ h.
              subst (λ q. count (has_phone q) db.couriers ≡ 0) ((eq_iff c.phone p).0 h)
                (count-zero_of_any (has_phone c.phone) db.couriers fresh))
            (v.phones p);
      statuses = (s, v.statuses);
      orders = v.orders;
      owners =
          All-weaken (λ d. any (has_id d.courier_id) (c ∷ db.couriers) ≡ true)
            (λ d. any (has_id d.courier_id) db.couriers ≡ true)
            (λ d h. any_cons (has_id d.courier_id) c db.couriers h) db.deliveries v.owners;
    }

pub IsValid-at : {n : ℕ} (db : Db) → ValidAt n db → IsValid db
IsValid-at db v = subst (λ k. ValidAt k db) (sym v.sequence) v

pub insert_courier-IsValid : (c : Courier) → Keeps IsValid (insert_courier c)
unfolding insert_courier
insert_courier-IsValid c = record {
  at = λ db v.
      let w = IsValid-at (record db { last_courier = suc db.last_courier }) (next_ValidAt db v) in
      elim (Bool-cases (check_status c.status)) [
        | inr bad ↦ rw bad w
        | inl good ↦ elim (Bool-cases (any (has_phone c.phone) db.couriers)) [
          | inl taken ↦ rw (good, taken) w
          | inr fresh ↦
              let row = record c { id = pos (suc db.last_courier) } in
              rw (good, fresh)
                (IsValid-at
                  (record db { last_courier = suc db.last_courier; couriers = row ∷ db.couriers })
                  (added_ValidAt row db refl good fresh v))
        ]
      ];
}
