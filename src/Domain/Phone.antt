-- ===== src/Domain/Phone.antt =====
-- What ValidatePhone and the two Valid methods of internal/domain/status.go accept.
use Prim.Native.Char.{code}
use Prim.Native.String.{[], ◌∷◌}
use service_courier_platform.Prelude.{
  ℕ, zero, suc, String, true, ◌≡◌, refl, ◌↔◌, ◌⊎◌, arith, eq_iff, text_length,
}
use service_courier_platform.Domain.{is_digit, digits_to_end, validate_phone}
use service_courier_platform.Domain.{status_valid, CourierStatus}

abbrev pub AllDigits : String → Type 0
AllDigits [] = Unit
AllDigits (c ∷ s) = (is_digit c ≡ true) × AllDigits s

-- A plus sign and eleven digits, and nothing else.
abbrev pub IsPhone : String → Type 0
IsPhone [] = ⊥
IsPhone (c ∷ s) = (code c ≡ b'+') × AllDigits s × (text_length s ≡ 11)

digits_to_end_iff :
    (n : ℕ) (s : String) → (digits_to_end n s ≡ true) ↔ (AllDigits s × (text_length s ≡ n))
unfolding digits_to_end
digits_to_end_iff zero [] = (λ _. (tt, refl), λ _. refl)
digits_to_end_iff zero (c ∷ s) = ground arith
digits_to_end_iff (suc n) [] = ground arith
digits_to_end_iff (suc n) (c ∷ s) = ground (arith, digits_to_end_iff n s)

-- `ValidatePhone` accepts exactly the texts of a plus sign and eleven ASCII digits.
pub validate_phone_iff : (s : String) → (validate_phone s ≡ true) ↔ IsPhone s
unfolding validate_phone
validate_phone_iff [] = ground arith
validate_phone_iff (c ∷ s) = ground (arith, digits_to_end_iff 11 s)

pub status_valid_iff :
    (s : CourierStatus)
    → (status_valid s ≡ true) ↔ ((s ≡ "available") ⊎ ((s ≡ "busy") ⊎ (s ≡ "paused")))
unfolding status_valid
status_valid_iff s = ground (arith, eq_iff s "available", eq_iff s "busy", eq_iff s "paused")
