-- ===== src/Prelude/Lists.antt =====
-- Lists measured by native numbers, and predicates on lists.
use Prim.Native.Nat.{ℕ, zero, suc, ◌+◌, ◌≤◌, ◌<◌}
use mathlib.Core.Path.{◌≡◌, refl, sym, subst}
use mathlib.Core.Bool.{Bool, true, false}
use mathlib.Core.Logic.{◌≢◌, ◌⊎◌, inl, inr}
use mathlib.Core.List.{List, [], ◌∷◌, ◌++◌, map}
use native.Mathlib.Omega.{arith}
use service_courier_platform.Prelude.Tests.{Bool-cases, if◌then◌else◌}

module _ {ℓ} {A : Type ℓ} where
  abbrev pub length : List A → ℕ
  length [] = 0
  length (x ∷ xs) = suc (length xs)

  abbrev pub take : ℕ → List A → List A
  take zero xs = []
  take (suc n) [] = []
  take (suc n) (x ∷ xs) = x ∷ take n xs

  abbrev pub drop : ℕ → List A → List A
  drop zero xs = xs
  drop (suc n) [] = []
  drop (suc n) (x ∷ xs) = drop n xs

  -- The members that pass a test, in order.
  abbrev pub keep : (A → Bool) → List A → List A
  keep p [] = []
  keep p (x ∷ xs) = let rest = keep p xs in if p x then x ∷ rest else rest

  -- How many members pass a test.
  abbrev pub count : (A → Bool) → List A → ℕ
  count p [] = 0
  count p (x ∷ xs) = let rest = count p xs in if p x then suc rest else rest

  abbrev pub any : (A → Bool) → List A → Bool
  any p [] = false
  any p (x ∷ xs) = if p x then true else any p xs

  pub length-append : (xs ys : List A) → length (xs ++ ys) ≡ length xs + length ys
  length-append [] ys = omega arith
  length-append (x ∷ xs) ys = omega (arith, length-append xs ys)

  pub length-keep-le : (p : A → Bool) (xs : List A) → length (keep p xs) ≤ length xs
  length-keep-le p [] = omega arith
  length-keep-le p (x ∷ xs) = ground (arith, length-keep-le p xs)

module _ {ℓ} {A : Type ℓ} (p : A → Bool) (f : A → A) (same : (x : A) → p (f x) ≡ p x) where
  pub count-map : (xs : List A) → count p (map f xs) ≡ count p xs
  count-map [] = refl
  count-map (x ∷ xs) = rw (same x, count-map xs)

  pub any-map : (xs : List A) → any p (map f xs) ≡ any p xs
  any-map [] = refl
  any-map (x ∷ xs) = rw (same x, any-map xs)

module _ {ℓ} {A : Type ℓ} (p q : A → Bool) where
  pub count-keep-le : (xs : List A) → count p (keep q xs) ≤ count p xs
  count-keep-le [] = omega arith
  count-keep-le (x ∷ xs) = ground (arith, count-keep-le xs)

module _ {ℓ} {A : Type ℓ} (p : A → Bool) where
  pub count-zero_of_any : (xs : List A) → any p xs ≡ false → count p xs ≡ 0
  count-zero_of_any [] h = refl
  count-zero_of_any (x ∷ xs) h = ground (arith, count-zero_of_any xs)

  pub any_of_count : (xs : List A) → count p xs ≢ 0 → any p xs ≡ true
  any_of_count [] h = absurd (h refl)
  any_of_count (x ∷ xs) h = ground (arith, any_of_count xs)

  pub count-pos_of_any : (xs : List A) → any p xs ≡ true → 0 < count p xs
  count-pos_of_any [] h = cc
  count-pos_of_any (x ∷ xs) h = ground (arith, count-pos_of_any xs)

abbrev pub All {ℓ κ} : {A : Type ℓ} → (A → Type κ) → List A → Type κ
All P [] = Unit
All P (x ∷ xs) = P x × All P xs

module _ {ℓ κ} {A : Type ℓ} (P : A → Type κ) where
  pub All-keep : (q : A → Bool) (xs : List A) → All P xs → All P (keep q xs)
  All-keep q [] h = tt
  All-keep q (x ∷ xs) (p, h) = elim (Bool-cases (q x)) [
    | inl e ↦ rw e (p, All-keep q xs h)
    | inr e ↦ rw e (All-keep q xs h)
  ]

  pub All-map :
      (f : A → A) → ((x : A) → P x → P (f x)) → (xs : List A) → All P xs → All P (map f xs)
  All-map f h [] a = tt
  All-map f h (x ∷ xs) (p, a) = (h x p, All-map f h xs a)

  pub All-weaken : (Q : A → Type κ) → ((x : A) → Q x → P x) → (xs : List A) → All Q xs → All P xs
  All-weaken Q h [] a = tt
  All-weaken Q h (x ∷ xs) (p, a) = (h x p, All-weaken Q h xs a)

module _ {ℓ} {A : Type ℓ} (q r : A → Bool) (f : A → A) where
  -- What passes a test after a change is no more than what passes another before it.
  pub count-map-le :
      (xs : List A) → All (λ x. q (f x) ≡ true → r x ≡ true) xs → count q (map f xs) ≤ count r xs
  count-map-le [] h = omega arith
  count-map-le (x ∷ xs) (h, hs) = elim (Bool-cases (q (f x))) [
    | inl e ↦ rw (e, h e) (omega (arith, count-map-le xs hs))
    | inr e ↦ rw e (more (r x) (count-map-le xs hs))
  ]
    where
      more :
          (b : Bool)
          → count q (map f xs) ≤ count r xs
          → count q (map f xs) ≤ (if b then suc (count r xs) else count r xs)
      more true k = omega (arith, k)
      more false k = k

module _ {ℓ} {A : Type ℓ} (p : A → Bool) where
  pub All-of_no_any : (xs : List A) → any p xs ≡ false → All (λ x. p x ≡ false) xs
  All-of_no_any [] h = tt
  All-of_no_any (x ∷ xs) h = elim (Bool-cases (p x)) [
    | inl e ↦ absurd (both_tests (rw e at h))
    | inr e ↦ (e, All-of_no_any xs (rw e at h))
  ]
    where
      both_tests : true ≡ false → ⊥
      both_tests k = cc

-- Membership as a sum, which the tactics take apart.
abbrev pub In : {A : Type 0} → A → List A → Type 0
In a [] = ⊥
In a (x ∷ xs) = (a ≡ x) ⊎ In a xs

pub All-In : {A : Type 0} (P : A → Type 0) (xs : List A) (x : A) → All P xs → In x xs → P x
All-In P [] x a i = absurd i
All-In P (y ∷ xs) x (p, a) (inl e) = subst P (sym e) p
All-In P (y ∷ xs) x (p, a) (inr i) = All-In P xs x a i

module _ {A : Type 0} (p : A → Bool) where
  pub any_of_In_true : (xs : List A) (x : A) → In x xs → p x ≡ true → any p xs ≡ true
  any_of_In_true [] x i h = absurd i
  any_of_In_true (y ∷ xs) x (inl e) h = rw (← e, h)
  any_of_In_true (y ∷ xs) x (inr i) h = elim (Bool-cases (p y)) [
    | inl e ↦ rw e
    | inr e ↦ rw (e, any_of_In_true xs x i h)
  ]

  pub In_of_any : (xs : List A) → any p xs ≡ true → (x : A) × In x xs × (p x ≡ true)
  In_of_any [] h = cc
  In_of_any (y ∷ xs) h = elim (Bool-cases (p y)) [
    | inl e ↦ (y, inl refl, e)
    | inr e ↦ let (x, i, t) = In_of_any xs (rw e at h) in (x, inr i, t)
  ]
