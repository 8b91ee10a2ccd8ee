-- ===== src/Repository/Deliveries/Unordered.antt =====
-- The tables of internal/repository/delivery.go have no order of rows, and the query of
-- FindAvailableCourierForUpdate does not depend on the one that the lists here have.
use mathlib.Core.List.{Permᴰ}
use mathlib.Core.List.Permᴰ
use text.Mathlib.TextEquality.{IsScalar-prop}
use mathlib.Core.Quot
use mathlib.Core.Quot.{Quot}
use service_courier_platform.Prelude.{
  ◌≡◌, ◌∙◌, sym, refl, ap, subst, ℕ, suc, ◌≤◌, ℤ, ltb_ℤ, Bool, true, false, List, [], ◌∷◌, count,
  any_of_In_true, count-pos_of_any, Option, none, some, In, All-In, inl, inr, arith, Option-cases,
  both_tests, if◌then◌else◌, eqb_ℤ_refl, eqb_ℤ_iff, eqb_ℤ, eqb, ltb, ◌||◌, ◌&&◌,
}
use service_courier_platform.Domain.{Courier, Delivery}
use service_courier_platform.Repository.{has_id}
use service_courier_platform.Repository.Deliveries.{first_available, is_available, load}
use service_courier_platform.Repository.Deliveries.Choice.{
  NotAfter, IsFirst, first_available-none, first_available-IsFirst,
}

module _ {A : Type 0} where
  count-Perm : (p : A → Bool) {xs ys : List A} → Permᴰ xs ys → count p xs ≡ count p ys
  count-Perm p Permᴰ.nil = refl
  count-Perm p (Permᴰ.cons {b} e d) = rw (e, count-Perm p d) refl
  count-Perm p (Permᴰ.swap {a} {b} e f) = rw (← e, ← f) (swapped _ (p a) (p b))
    where
      swapped :
          (n : ℕ) (s t : Bool)
          → (if s then suc (if t then suc n else n) else if t then suc n else n)
            ≡ (if t then suc (if s then suc n else n) else if s then suc n else n)
      swapped n true true = refl
      swapped n true false = refl
      swapped n false true = refl
      swapped n false false = refl
  count-Perm p (Permᴰ.trans d e) = count-Perm p d ∙ count-Perm p e

  In-Perm : {xs ys : List A} (x : A) → Permᴰ xs ys → In x xs → In x ys
  In-Perm x Permᴰ.nil i = i
  In-Perm x (Permᴰ.cons e d) (inl h) = inl (h ∙ e)
  In-Perm x (Permᴰ.cons e d) (inr i) = inr (In-Perm x d i)
  In-Perm x (Permᴰ.swap e f) (inl h) = inr (inl (h ∙ e))
  In-Perm x (Permᴰ.swap e f) (inr (inl h)) = inl (h ∙ f)
  In-Perm x (Permᴰ.swap e f) (inr (inr i)) = inr (inr i)
  In-Perm x (Permᴰ.trans d e) i = In-Perm x e (In-Perm x d i)

  alone :
      (p : A → Bool) (z y : A) (zs : List A)
      → count p (z ∷ zs) ≤ 1
      → p z ≡ true
      → p y ≡ true
      → ¬ In y zs
  alone p z y zs c a b i =
      let more = count-pos_of_any p zs (any_of_In_true p zs y i b) in omega (arith, more, rw a at c)

  fewer : (p : A → Bool) (z : A) (zs : List A) → count p (z ∷ zs) ≤ 1 → count p zs ≤ 1
  fewer p z zs c = ground arith

  -- Where at most one row passes a test, two that do are the same row.
  only_one :
      (p : A → Bool) (xs : List A) (x y : A)
      → count p xs ≤ 1
      → In x xs
      → In y xs
      → p x ≡ true
      → p y ≡ true
      → x ≡ y
  only_one p [] x y c i j a b = absurd i
  only_one p (z ∷ zs) x y c (inl e) (inl f) a b = e ∙ sym f
  only_one p (z ∷ zs) x y c (inl e) (inr j) a b =
      absurd (alone p z y zs c (subst (λ w. p w ≡ true) e a) b j)
  only_one p (z ∷ zs) x y c (inr i) (inl f) a b =
      absurd (alone p z x zs c (subst (λ w. p w ≡ true) f b) a i)
  only_one p (z ∷ zs) x y c (inr i) (inr j) a b = only_one p zs x y (fewer p z zs c) i j a b

same_rank :
    (m n : ℕ) (a b : ℤ)
    → (ltb m n || (eqb m n && ltb_ℤ a b)) ≡ false
    → (ltb n m || (eqb n m && ltb_ℤ b a)) ≡ false
    → eqb_ℤ a b ≡ true
same_rank m n a b h k = ground arith

same_place : (ds : List Delivery) (c d : Courier) → NotAfter ds c d → NotAfter ds d c → c.id ≡ d.id
same_place ds c d h k = (eqb_ℤ_iff c.id d.id).0 (same_rank (load ds c) (load ds d) c.id d.id k h)

NotAfter-Perm :
    (ds es : List Delivery) (c d : Courier) → Permᴰ ds es → NotAfter es c d → NotAfter ds c d
NotAfter-Perm ds es c d p h =
    rw (count-Perm (λ x. eqb_ℤ x.courier_id c.id) p, count-Perm (λ x. eqb_ℤ x.courier_id d.id) p) h

none_there :
    (ds es : List Delivery) (cs bs : List Courier) (b : Courier)
    → Permᴰ bs cs
    → first_available ds cs ≡ none
    → ¬ IsFirst es bs b
none_there ds es cs bs b p e f = both_tests f.available (
    All-In (λ c. is_available c ≡ false) cs b (first_available-none ds cs e) (In-Perm b p f.listed))

first_of_both :
    (ds es : List Delivery) (cs bs : List Courier) (c b : Courier)
    → ((i : ℤ) → count (has_id i) cs ≤ 1)
    → Permᴰ ds es
    → Permᴰ cs bs
    → IsFirst ds cs c
    → IsFirst es bs b
    → c ≡ b
first_of_both ds es cs bs c b unique d p f g =
    let here : In b cs = In-Perm b (Permᴰ.symm p) g.listed in
    let before : NotAfter ds c b =
      All-In (λ x. is_available x ≡ true → NotAfter ds c x) cs b f.first here g.available in
    let after : NotAfter es b c =
      All-In (λ x. is_available x ≡ true → NotAfter es b x) bs c g.first (In-Perm c p f.listed)
        f.available in
    let same : c.id ≡ b.id = same_place ds c b before (NotAfter-Perm ds es b c d after) in
    only_one (has_id c.id) cs c b (unique c.id) f.listed here (eqb_ℤ_refl c.id)
      (subst (λ i. has_id i b ≡ true) (sym same) (eqb_ℤ_refl b.id))

-- The courier that the query selects does not depend on the order of the rows, where the ids of
-- couriers are unique.
pub first_available-Perm :
    (ds es : List Delivery) (cs bs : List Courier)
    → ((i : ℤ) → count (has_id i) cs ≤ 1)
    → Permᴰ ds es
    → Permᴰ cs bs
    → first_available ds cs ≡ first_available es bs
first_available-Perm ds es cs bs unique d p = elim (Option-cases (first_available ds cs)) [
  | inl e ↦ elim (Option-cases (first_available es bs)) [
    | inl k ↦ e ∙ sym k
    | inr (b, k) ↦
        absurd (none_there ds es cs bs b (Permᴰ.symm p) e (first_available-IsFirst es bs k))
  ]
  | inr (c, e) ↦ elim (Option-cases (first_available es bs)) [
    | inl k ↦ absurd (none_there es ds bs cs c p k (first_available-IsFirst ds cs e))
    | inr (b, k) ↦
        let same : c ≡ b =
          first_of_both ds es cs bs c b unique d p (first_available-IsFirst ds cs e)
            (first_available-IsFirst es bs k) in
        e ∙ ap some same ∙ sym k
  ]
]

-- Tables of a database that keeps its constraints, as lists of rows.
pub record Rows : Type 0 where
  pub deliveries : List Delivery
  pub couriers : List Courier
  pub unique : (i : ℤ) → count (has_id i) couriers ≤ 1

abbrev pub SameRows : Rows → Rows → Type 0
SameRows a b = Permᴰ a.deliveries b.deliveries × Permᴰ a.couriers b.couriers

-- The tables without the order of their rows, and the query on them.
abbrev pub Tables : Type 0
Tables = Quot SameRows

pub selected : Tables → Option Courier
selected =
    Quot.lift (hlevel (IsScalar-prop)) (λ r. first_available r.deliveries r.couriers)
      (λ a b s.
        first_available-Perm a.deliveries b.deliveries a.couriers b.couriers a.unique s.0 s.1)
