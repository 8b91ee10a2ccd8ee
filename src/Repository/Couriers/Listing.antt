-- ===== src/Repository/Couriers/Listing.antt =====
-- What List of internal/repository/courier.go returns.
use service_courier_platform.Prelude.{
  ℕ, zero, suc, ◌≤◌, ◌≡◌, refl, ℤ, pos, negsuc, sym, subst, true, false, List, [], ◌∷◌, length,
  take, drop, Option, none, some, All, All-weaken, In, inl, inr, leb_ℤ, arith, Bool-cases, ap, ◌∙◌,
}
use service_courier_platform.Errors.{ok_inj, ok}
use service_courier_platform.Domain.{Courier}
use service_courier_platform.Database.{Db, M, call, after, return, ◌>>=◌, ◌>>◌}
use service_courier_platform.Database.Calls.{call-SameData, after-eq-ok}
use service_courier_platform.Repository.Couriers.{
  insert_by_id, order_by_id, limit_to, offset_by, page, list,
}

abbrev pub Before : Courier → Courier → Type 0
Before c d = leb_ℤ c.id d.id ≡ true

abbrev pub Sorted : List Courier → Type 0
Sorted [] = Unit
Sorted (c ∷ cs) = All (Before c) cs × Sorted cs

Before-trans : (a b c : Courier) → Before a b → Before b c → Before a c
Before-trans a b c h k = ids a.id b.id c.id h k
  where
    ids : (i j k : ℤ) → leb_ℤ i j ≡ true → leb_ℤ j k ≡ true → leb_ℤ i k ≡ true
    ids i j k p q = ground arith

Before-total : (a b : Courier) → leb_ℤ a.id b.id ≡ false → Before b a
Before-total a b h = ids a.id b.id h
  where
    ids : (i j : ℤ) → leb_ℤ i j ≡ false → leb_ℤ j i ≡ true
    ids i j p = ground arith

module _ (P : Courier → Type 0) where
  All-insert_by_id : (c : Courier) (ds : List Courier) → P c → All P ds → All P (insert_by_id c ds)
  unfolding insert_by_id
  All-insert_by_id c [] p a = (p, tt)
  All-insert_by_id c (d ∷ ds) p (q, a) = elim (Bool-cases (leb_ℤ c.id d.id)) [
    | inl e ↦ rw e (p, (q, a))
    | inr e ↦ rw e (q, All-insert_by_id c ds p a)
  ]

  All-order_by_id : (cs : List Courier) → All P cs → All P (order_by_id cs)
  unfolding order_by_id
  All-order_by_id [] a = tt
  All-order_by_id (c ∷ cs) (p, a) = All-insert_by_id c (order_by_id cs) p (All-order_by_id cs a)

  All-take : (n : ℕ) (cs : List Courier) → All P cs → All P (take n cs)
  All-take zero cs a = tt
  All-take (suc n) [] a = tt
  All-take (suc n) (c ∷ cs) (p, a) = (p, All-take n cs a)

  All-drop : (n : ℕ) (cs : List Courier) → All P cs → All P (drop n cs)
  All-drop zero cs a = a
  All-drop (suc n) [] a = tt
  All-drop (suc n) (c ∷ cs) (p, a) = All-drop n cs a

insert_by_id-Sorted : (c : Courier) (ds : List Courier) → Sorted ds → Sorted (insert_by_id c ds)
unfolding insert_by_id
insert_by_id-Sorted c [] s = (tt, tt)
insert_by_id-Sorted c (d ∷ ds) (a, s) = elim (Bool-cases (leb_ℤ c.id d.id)) [
  | inl e ↦
      rw e ((e, All-weaken (Before c) (Before d) (λ x h. Before-trans c d x e h) ds a), (a, s))
  | inr e ↦
      rw e (All-insert_by_id (Before d) c ds (Before-total c d e) a, insert_by_id-Sorted c ds s)
]

order_by_id-Sorted : (cs : List Courier) → Sorted (order_by_id cs)
unfolding order_by_id
order_by_id-Sorted [] = tt
order_by_id-Sorted (c ∷ cs) = insert_by_id-Sorted c (order_by_id cs) (order_by_id-Sorted cs)

take-Sorted : (n : ℕ) (cs : List Courier) → Sorted cs → Sorted (take n cs)
take-Sorted zero cs s = tt
take-Sorted (suc n) [] s = tt
take-Sorted (suc n) (c ∷ cs) (a, s) = (All-take (Before c) n cs a, take-Sorted n cs s)

drop-Sorted : (n : ℕ) (cs : List Courier) → Sorted cs → Sorted (drop n cs)
drop-Sorted zero cs s = s
drop-Sorted (suc n) [] s = tt
drop-Sorted (suc n) (c ∷ cs) (a, s) = drop-Sorted n cs s

length-take-le : (n : ℕ) (cs : List Courier) → length (take n cs) ≤ n
length-take-le zero cs = omega arith
length-take-le (suc n) [] = omega arith
length-take-le (suc n) (c ∷ cs) = omega (arith, length-take-le n cs)

-- No more rows than the limit, where one is given.
abbrev pub Within : Option ℤ → List Courier → Type 0
Within none cs = Unit
Within (some (pos n)) cs = length cs ≤ n
Within (some (negsuc n)) cs = ⊥

pub record Listed (limit : Option ℤ) (table cs : List Courier) : Type 0 where
  pub sorted : Sorted cs
  pub rows : All (λ c. In c table) cs
  pub within : Within limit cs

limited :
    (limit : Option ℤ) (table cs : List Courier) {out : List Courier}
    → Sorted cs
    → All (λ c. In c table) cs
    → limit_to limit cs ≡ ok out
    → Listed limit table out
unfolding limit_to
limited none table cs {out} s a h =
    let same : cs ≡ out = ok_inj h in
    subst (Listed none table) same (record { sorted = s; rows = a; within = tt })
limited (some (pos n)) table cs {out} s a h =
    let same : take n cs ≡ out = ok_inj h in
    subst (Listed (some (pos n)) table) same (record {
      sorted = take-Sorted n cs s;
      rows = All-take (λ c. In c table) n cs a;
      within = length-take-le n cs;
    })
limited (some (negsuc n)) table cs s a h = cc

All-In : (cs : List Courier) → All (λ c. In c cs) cs
All-In [] = tt
All-In (c ∷ cs) =
    (inl refl, All-weaken (λ d. In d (c ∷ cs)) (λ d. In d cs) (λ d h. inr h) cs (All-In cs))

paged :
    (limit offset : Option ℤ) (table cs : List Courier) {out : List Courier}
    → Sorted cs
    → All (λ c. In c table) cs
    → page limit (offset_by offset cs) ≡ ok out
    → Listed limit table out
unfolding page offset_by
paged limit none table cs s a h = limited limit table cs s a h
paged limit (some (pos n)) table cs s a h =
    limited limit table (drop n cs) (drop-Sorted n cs s) (All-drop (λ c. In c table) n cs a) h
paged limit (some (negsuc n)) table cs s a h = cc

-- The query and what follows it.
queried :
    (limit offset : Option ℤ) (db : Db) {out : List Courier}
    → (after
        (page limit (offset_by offset (order_by_id db.couriers)), db)
        (λ rows. call >> return rows)).0
      ≡ ok out
    → Listed limit db.couriers out
queried limit offset db {out} h =
    let (rows, got, ran) =
      after-eq-ok (page limit (offset_by offset (order_by_id db.couriers)), db)
        (λ rows. call >> return rows) h in
    let (u, ended, last) = after-eq-ok (call db) (λ _. return rows) (ap (λ o. o.0) (sym ran) ∙ h) in
    let same : rows ≡ out = ok_inj (ap (λ o. o.0) (sym (ran ∙ last)) ∙ h) in
    paged limit offset db.couriers (order_by_id db.couriers) (order_by_id-Sorted db.couriers)
      (All-order_by_id (λ c. In c db.couriers) db.couriers (All-In db.couriers)) (got ∙ ap ok same)

-- When `List` returns couriers, they are rows of the table in the order of their ids, and no more
-- than the limit where one is given.
pub list-Listed :
    (limit offset : Option ℤ) (db : Db) {out : List Courier}
    → (list limit offset db).0 ≡ ok out
    → Listed limit db.couriers out
unfolding list
list-Listed limit offset db {out} h =
    let (u, called, ran) =
      after-eq-ok (call db)
        (λ _.
          service_courier_platform.Database.◌>>=◌
            (λ start. (page limit (offset_by offset (order_by_id start.couriers)), start))
            (λ rows. call >> return rows))
        h in
    subst (λ cs. Listed limit cs out) (call-SameData db).couriers
      (queried limit offset (call db).1 (ap (λ o. o.0) (sym ran) ∙ h))
