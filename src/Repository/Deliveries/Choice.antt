-- ===== src/Repository/Deliveries/Choice.antt =====
-- The courier that FindAvailableCourierForUpdate of internal/repository/delivery.go selects.
use service_courier_platform.Prelude.{
  both_tests, some_inj, All-weaken, subst, ◌≡◌, refl, inl, inr, Bool, true, false, List, [], ◌∷◌,
  none, some, All, In, arith, if◌then◌else◌, Bool-cases, Option-cases,
}
use service_courier_platform.Domain.{Courier, Delivery}
use service_courier_platform.Repository.Deliveries.{first_available, is_available, precedes}

-- `c` stands before `d`, or with it, in the order of load and then id.
abbrev pub NotAfter : List Delivery → Courier → Courier → Type 0
NotAfter ds c d = precedes ds d c ≡ false

NotAfter-refl : (ds : List Delivery) (c : Courier) → NotAfter ds c c
NotAfter-refl ds c = ground arith

NotAfter-of_precedes :
    (ds : List Delivery) (c d : Courier) → precedes ds c d ≡ true → NotAfter ds c d
NotAfter-of_precedes ds c d h = ground arith

NotAfter-trans :
    (ds : List Delivery) (a b c : Courier) → NotAfter ds a b → NotAfter ds b c → NotAfter ds a c
NotAfter-trans ds a b c h k = ground arith

-- What the query promises of its row: an available courier of the table, with the least number of
-- deliveries among the available ones, and of those the one with the least id.
pub record IsFirst (ds : List Delivery) (cs : List Courier) (c : Courier) : Type 0 where
  pub listed : In c cs
  pub available : is_available c ≡ true
  pub first : All (λ d. is_available d ≡ true → NotAfter ds c d) cs

no_some : {A : Type 0} {a : A} → some a ≡ none → ⊥
no_some h = cc

never_none : {A : Type 0} (b : Bool) (x y : A) → (if b then some x else some y) ≡ none → ⊥
never_none true x y h = cc
never_none false x y h = cc

pub first_available-none :
    (ds : List Delivery) (cs : List Courier)
    → first_available ds cs ≡ none
    → All (λ c. is_available c ≡ false) cs
unfolding first_available
first_available-none ds [] h = tt
first_available-none ds (x ∷ xs) h = elim (Bool-cases (is_available x)) [
  | inl a ↦ elim (Option-cases (first_available ds xs)) [
    | inl e ↦ absurd (no_some (rw (a, e) at h))
    | inr (d, e) ↦ absurd (never_none (precedes ds d x) d x (rw (a, e) at h))
  ]
  | inr a ↦ (a, first_available-none ds xs (rw a at h))
]

module _ (ds : List Delivery) (x : Courier) (xs : List Courier) where
  IsFirst-skip : {c : Courier} → is_available x ≡ false → IsFirst ds xs c → IsFirst ds (x ∷ xs) c
  IsFirst-skip a f = record {
    listed = inr f.listed;
    available = f.available;
    first = (λ b. absurd (both_tests b a), f.first);
  }

  IsFirst-only :
      is_available x ≡ true → All (λ c. is_available c ≡ false) xs → IsFirst ds (x ∷ xs) x
  IsFirst-only a others = record {
    listed = inl refl;
    available = a;
    first = (
      λ _. NotAfter-refl ds x,
      All-weaken (λ d. is_available d ≡ true → NotAfter ds x d) (λ d. is_available d ≡ false)
          (λ d no_one b. absurd (both_tests b no_one)) xs others,
    );
  }

  IsFirst-later : {d : Courier} → precedes ds d x ≡ true → IsFirst ds xs d → IsFirst ds (x ∷ xs) d
  IsFirst-later {d} p f = record {
    listed = inr f.listed;
    available = f.available;
    first = (λ _. NotAfter-of_precedes ds d x p, f.first);
  }

  IsFirst-here :
      {d : Courier}
      → is_available x ≡ true
      → precedes ds d x ≡ false
      → IsFirst ds xs d
      → IsFirst ds (x ∷ xs) x
  IsFirst-here {d} a p f = record {
    listed = inl refl;
    available = a;
    first = (
      λ _. NotAfter-refl ds x,
      All-weaken (λ e. is_available e ≡ true → NotAfter ds x e)
          (λ e. is_available e ≡ true → NotAfter ds d e) (λ e n b. NotAfter-trans ds x d e p (n b))
          xs f.first,
    );
  }

-- A courier that the query selects is an available one of the table, with the fewest deliveries
-- among the available ones, and of those the one with the least id.
pub first_available-IsFirst :
    (ds : List Delivery) (cs : List Courier) {c : Courier}
    → first_available ds cs ≡ some c
    → IsFirst ds cs c
unfolding first_available
first_available-IsFirst ds [] h = cc
first_available-IsFirst ds (x ∷ xs) {c} h = elim (Bool-cases (is_available x)) [
  | inr a ↦ IsFirst-skip ds x xs a (first_available-IsFirst ds xs (rw a at h))
  | inl a ↦ elim (Option-cases (first_available ds xs)) [
    | inl e ↦
        let same : x ≡ c = some_inj (rw (a, e) at h) in
        subst (IsFirst ds (x ∷ xs)) same (IsFirst-only ds x xs a (first_available-none ds xs e))
    | inr (d, e) ↦
        let f : IsFirst ds xs d = first_available-IsFirst ds xs e in
        elim (Bool-cases (precedes ds d x)) [
          | inl p ↦
              let same : d ≡ c = some_inj (rw (a, e, p) at h) in
              subst (IsFirst ds (x ∷ xs)) same (IsFirst-later ds x xs p f)
          | inr p ↦
              let same : x ≡ c = some_inj (rw (a, e, p) at h) in
              subst (IsFirst ds (x ∷ xs)) same (IsFirst-here ds x xs a p f)
        ]
  ]
]

pub first_available-none_of :
    (ds : List Delivery) (cs : List Courier)
    → All (λ c. is_available c ≡ false) cs
    → first_available ds cs ≡ none
unfolding first_available
first_available-none_of ds [] h = refl
first_available-none_of ds (x ∷ xs) (a, h) = rw a (first_available-none_of ds xs h)
