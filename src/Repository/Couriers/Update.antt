-- ===== src/Repository/Couriers/Update.antt =====
-- The UPDATE of UpdatePartial in internal/repository/courier.go keeps the constraints of
-- db/migrations.
use service_courier_platform.Prelude.{
  both_tests, ℕ, ℤ, pos, ◌≤◌, ◌≡◌, ◌∙◌, sym, subst, refl, String, Bool, true, false, not, ◌&&◌,
  ◌==◌, List, map, any, count, Option, none, some, All, leb_ℤ, arith, eq_iff, Bool-cases,
  Option-cases, inl, inr, All-weaken, All-map, All-of_no_any, count-map-le, count-map, any-map,
  if◌then◌else◌,
}
use service_courier_platform.Domain.{Courier, PartialCourierUpdate}
use service_courier_platform.Database.{Db, check_status}
use service_courier_platform.Database.Keeps.{Keeps}
use service_courier_platform.Repository.{has_id, find_courier}
use service_courier_platform.Repository.Valid.{ValidAt, IsValid, has_phone}
use service_courier_platform.Repository.Couriers.{coalesce, apply_update, update_courier}

coalesce_check :
    (o : Option String) (a b : String)
    → check_status (coalesce o a) ≡ true
    → check_status b ≡ true
    → check_status (coalesce o b) ≡ true
coalesce_check none a b s h = h
coalesce_check (some x) a b s h = s

-- What `UpdatePartial` writes into the row that it finds.
module _ (u : PartialCourierUpdate) where
  abbrev written : Courier → Courier
  written d = if has_id u.id d then apply_update u d else d

  written_id : (i : ℤ) (d : Courier) → has_id i (written d) ≡ has_id i d
  written_id i d = elim (Bool-cases (has_id u.id d)) [ inl e ↦ rw e | inr e ↦ rw e ]

  abbrev clashes : Courier → Courier → Bool
  clashes c d = d.phone == (apply_update u c).phone && not (has_id u.id d)

  written_check :
      (c d : Courier)
      → check_status (apply_update u c).status ≡ true
      → check_status d.status ≡ true
      → check_status (written d).status ≡ true
  written_check c d s h = elim (Bool-cases (has_id u.id d)) [
    | inr e ↦ rw e h
    | inl e ↦ rw e (coalesce_check u.status c.status d.status s h)
  ]

  same_phone :
      (p : String) (d : Courier)
      → u.phone ≡ none
      → has_phone p (written d) ≡ true
      → has_phone p d ≡ true
  same_phone p d e h = elim (Bool-cases (has_id u.id d)) [
    | inl f ↦ rw (f, e) at h
    | inr f ↦ rw f at h
  ]

  old_phone :
      (p : String) (d : Courier) (q : String)
      → u.phone ≡ some q
      → (q == p) ≡ false
      → has_phone p (written d) ≡ true
      → has_phone p d ≡ true
  old_phone p d q e n h = elim (Bool-cases (has_id u.id d)) [
    | inl f ↦ absurd (both_tests (rw (f, e) at h) n)
    | inr f ↦ rw f at h
  ]

  -- A row that has the new phone number, and does not clash, is the one that is written.
  new_phone :
      (p : String) (c d : Courier) (q : String)
      → u.phone ≡ some q
      → (q == p) ≡ true
      → clashes c d ≡ false
      → has_phone p (written d) ≡ true
      → has_id u.id d ≡ true
  new_phone p c d q e same n h = elim (Bool-cases (has_id u.id d)) [
    | inl f ↦ f
    | inr f ↦
        let has_q : has_phone q d ≡ true =
          subst (λ t. has_phone t d ≡ true) (sym ((eq_iff q p).0 same)) (rw f at h) in
        let no_clash : has_phone q d && true ≡ false = rw (f, e) at n in
        absurd (both_tests (rw has_q refl) no_clash)
  ]

  written_phones :
      (c : Courier) (cs : List Courier) (p : String)
      → All (λ d. clashes c d ≡ false) cs
      → count (has_id u.id) cs ≤ 1
      → count (has_phone p) cs ≤ 1
      → count (has_phone p) (map written cs) ≤ 1
  written_phones c cs p h i k = elim (Option-cases u.phone) [
    | inl e ↦ omega (
      arith,
      k,
      count-map-le (has_phone p) (has_phone p) written cs (
          All-weaken (λ d. has_phone p (written d) ≡ true → has_phone p d ≡ true)
            (λ d. clashes c d ≡ false) (λ d _. same_phone p d e) cs h),
    )
    | inr (q, e) ↦ elim (Bool-cases (q == p)) [
      | inl same ↦ omega (
        arith,
        i,
        count-map-le (has_phone p) (has_id u.id) written cs (
            All-weaken (λ d. has_phone p (written d) ≡ true → has_id u.id d ≡ true)
              (λ d. clashes c d ≡ false) (λ d n. new_phone p c d q e same n) cs h),
      )
      | inr other ↦ omega (
        arith,
        k,
        count-map-le (has_phone p) (has_phone p) written cs (
            All-weaken (λ d. has_phone p (written d) ≡ true → has_phone p d ≡ true)
              (λ d. clashes c d ≡ false) (λ d _. old_phone p d q e other) cs h),
      )
    ]
  ]

  written_bound :
      (n : ℕ) (d : Courier) → leb_ℤ d.id (pos n) ≡ true → leb_ℤ (written d).id (pos n) ≡ true
  written_bound n d h = elim (Bool-cases (has_id u.id d)) [ inl e ↦ rw e h | inr e ↦ rw e h ]

  updated_ValidAt :
      {n : ℕ} (c : Courier) (db : Db)
      → check_status (apply_update u c).status ≡ true
      → any (clashes c) db.couriers ≡ false
      → ValidAt n db
      → ValidAt n (record db { couriers = map written db.couriers })
  updated_ValidAt {n} c db s fresh v = record {
    sequence = v.sequence;
    ids = λ i. rw (count-map (has_id i) written (written_id i) db.couriers) (v.ids i);
    bounded =
        All-map (λ d. leb_ℤ d.id (pos n) ≡ true) written (written_bound n) db.couriers v.bounded;
    phones = λ p.
        written_phones c db.couriers p (All-of_no_any (clashes c) db.couriers fresh) (v.ids u.id)
          (v.phones p);
    statuses =
        All-map (λ d. check_status d.status ≡ true) written (λ d h. written_check c d s h)
          db.couriers v.statuses;
    orders = v.orders;
    owners =
        All-weaken (λ d. any (has_id d.courier_id) (map written db.couriers) ≡ true)
          (λ d. any (has_id d.courier_id) db.couriers ≡ true)
          (λ d h. any-map (has_id d.courier_id) written (written_id d.courier_id) db.couriers ∙ h)
          db.deliveries v.owners;
  }

  pub update_courier-IsValid : Keeps IsValid (update_courier u)
  unfolding update_courier
  update_courier-IsValid = record {
    at = λ db v. elim (Option-cases (find_courier u.id db.couriers)) [
      | inl e ↦ rw (e, update_courier) v
      | inr (c, e) ↦ elim (Bool-cases (check_status (apply_update u c).status)) [
        | inr bad ↦ rw (e, bad, update_courier) v
        | inl good ↦ elim (Bool-cases (any (clashes c) db.couriers)) [
          | inl taken ↦ rw (e, good, taken, update_courier) v
          | inr fresh ↦ rw (e, good, fresh, update_courier) (updated_ValidAt c db good fresh v)
        ]
      ]
    ];
  }
