-- ===== src/Container/Available.antt =====
-- Which types a list of providers makes, as go.uber.org/dig resolves them: a type is there when a
-- provider gives exactly that type and each type that the provider takes is there.
use service_courier_platform.Prelude.{
  ◌≡◌, refl, String, ◌==◌, eq_iff, Bool, true, false, not, ◌&&◌, ◌||◌, List, [], ◌∷◌, any, In,
  any_of_In_true, In_of_any, Bool-cases, both_true, inl, inr, subst, sym, ◌++◌, ◌⊎◌, if◌then◌else◌,
}
use service_courier_platform.Container.{Provider}

abbrev pub member : List String → String → Bool
member ks k = any (λ j. j == k) ks

mutual
  pub data Available (ps : List Provider) : String → Type 0 where
    made :
        (p : Provider) {k : String}
        → In p ps
        → member p.gives k ≡ true
        → AllAvailable ps p.needs
        → Available ps k

  pub data AllAvailable (ps : List Provider) : List String → Type 0 where
    no_needs : AllAvailable ps []
    and_needs :
        {k : String} {ks : List String}
        → Available ps k
        → AllAvailable ps ks
        → AllAvailable ps (k ∷ ks)

module _ (stuck : List String) where
  abbrev pub hits : List String → Bool
  hits ks = any (member stuck) ks

  -- Every provider of a type in the list takes a type in the list.
  unfoldable pub never_made : List Provider → Bool
  never_made [] = true
  never_made (p ∷ ps) = (not (hits p.gives) || hits p.needs) && never_made ps

  needs_stuck :
      (ps : List Provider) (p : Provider)
      → never_made ps ≡ true
      → In p ps
      → hits p.gives ≡ true
      → hits p.needs ≡ true
  unfolding never_made
  needs_stuck [] p h i g = absurd i
  needs_stuck (q ∷ ps) p h (inl e) g =
      let first = (both_true h).0 in
      subst (λ x. hits x.needs ≡ true) (sym e) (one first (subst (λ x. hits x.gives ≡ true) e g))
    where
      one : {a b : Bool} → (not a || b) ≡ true → a ≡ true → b ≡ true
      one {a = true} h e = h
      one {a = false} h e = cc
  needs_stuck (q ∷ ps) p h (inr i) g = needs_stuck ps p (both_true h).1 i g

  gives_stuck :
      (gives : List String) (k : String)
      → member gives k ≡ true
      → member stuck k ≡ true
      → hits gives ≡ true
  gives_stuck gives k g s =
      let (j, i, e) = In_of_any (λ j. j == k) gives g in
      any_of_In_true (member stuck) gives j i
        (subst (λ x. member stuck x ≡ true) (sym ((eq_iff j k).0 e)) s)

  mutual
    pub not-Available :
        (ps : List Provider) {k : String}
        → never_made ps ≡ true
        → member stuck k ≡ true
        → ¬ Available ps k
    not-Available ps n s (made p i g a) =
        not-AllAvailable ps n (needs_stuck ps p n i (gives_stuck p.gives _ g s)) a

    pub not-AllAvailable :
        (ps : List Provider) {ks : List String}
        → never_made ps ≡ true
        → hits ks ≡ true
        → ¬ AllAvailable ps ks
    not-AllAvailable ps n h no_needs = cc
    not-AllAvailable ps n h (and_needs {k} a rest) = elim (Bool-cases (member stuck k)) [
      | inl e ↦ not-Available ps n e a
      | inr e ↦ not-AllAvailable ps n (rw e at h) rest
    ]

abbrev pub all_in : List String → List String → Bool
all_in known [] = true
all_in known (k ∷ ks) = member known k && all_in known ks

-- The types made by the providers in the order of their registration, each of which is used when
-- the types that it takes have been made before.
unfoldable pub made_by : List Provider → List String → List String
made_by [] known = known
made_by (p ∷ ps) known = made_by ps (if all_in known p.needs then p.gives ++ known else known)

member-append :
    (xs ys : List String) (k : String)
    → member (xs ++ ys) k ≡ true
    → (member xs k ≡ true) ⊎ (member ys k ≡ true)
member-append [] ys k h = inr h
member-append (x ∷ xs) ys k h = elim (Bool-cases (x == k)) [
  | inl e ↦ inl (rw e refl)
  | inr e ↦ rw e (member-append xs ys k (rw e at h))
]

module _ (ps : List Provider) where
  abbrev Known : List String → Type 0
  Known known = (k : String) → member known k ≡ true → Available ps k

  all-Known : (known ks : List String) → Known known → all_in known ks ≡ true → AllAvailable ps ks
  all-Known known [] h e = no_needs
  all-Known known (k ∷ ks) h e =
      and_needs (h k (both_true e).0) (all-Known known ks h (both_true e).1)

  used :
      (p : Provider) (known : List String)
      → In p ps
      → Known known
      → Known (if all_in known p.needs then p.gives ++ known else known)
  used p known i h k m = elim (Bool-cases (all_in known p.needs)) [
    | inr e ↦ h k (rw e at m)
    | inl e ↦ elim (member-append p.gives known k (rw e at m)) [
      | inl new ↦ made p i new (all-Known known p.needs h e)
      | inr old ↦ h k old
    ]
  ]

  made_by-Known :
      (qs : List Provider) (known : List String)
      → ((p : Provider) → In p qs → In p ps)
      → Known known
      → Known (made_by qs known)
  unfolding made_by
  made_by-Known [] known s h = h
  made_by-Known (q ∷ qs) known s h =
      made_by-Known qs _ (λ p i. s p (inr i)) (used q known (s q (inl refl)) h)

  -- What can be made in the order of registration is available.
  pub AllAvailable-of_made :
      (ks : List String) → all_in (made_by ps []) ks ≡ true → AllAvailable ps ks
  AllAvailable-of_made ks e =
      all-Known (made_by ps []) ks (made_by-Known ps [] (λ p i. i) (λ k h. cc)) e
