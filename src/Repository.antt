-- ===== src/Repository.antt =====
-- internal/repository: what its two repositories share.
pub mod Couriers
pub mod Deliveries
pub mod Valid
pub mod Pool
use service_courier_platform.Prelude.{
  ℤ, String, Bool, true, false, List, [], ◌∷◌, Option, none, some, eqb_ℤ, eqb_ℤ_refl, any, In,
  Bool-cases, inl, inr, ◌≡◌, refl, if◌then◌else◌,
}
use service_courier_platform.Errors.{Err, wrap, Result, ok, err, is_not_found}
use service_courier_platform.Domain.{Courier}
use service_courier_platform.Database.{Db}

-- `WHERE id = $1`.
abbrev pub has_id : ℤ → Courier → Bool
has_id i c = eqb_ℤ c.id i

abbrev pub find_courier : ℤ → List Courier → Option Courier
find_courier i [] = none
find_courier i (c ∷ cs) = if has_id i c then some c else find_courier i cs

-- `if err != nil { if IsNotFound(err) { return nil, nil }; return nil, fmt.Errorf(…) }`.
abbrev pub or_missing : {A : Type 0} → String → Result A × Db → Result (Option A) × Db
or_missing m (ok a, db) = (ok (some a), db)
or_missing m (err e, db) = (if is_not_found e then ok none else err (wrap m e), db)

pub any-has_id-In : (cs : List Courier) (c : Courier) → In c cs → any (has_id c.id) cs ≡ true
any-has_id-In [] c h = absurd h
any-has_id-In (x ∷ xs) c (inl e) = rw (← e, eqb_ℤ_refl c.id)
any-has_id-In (x ∷ xs) c (inr h) = elim (Bool-cases (has_id c.id x)) [
  | inl e ↦ rw e
  | inr e ↦ rw (e, any-has_id-In xs c h)
]
