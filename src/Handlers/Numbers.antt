-- ===== src/Handlers/Numbers.antt =====
-- Numbers in a URL: `strconv.ParseInt` with base 10 and 64 bits, and `strconv.Atoi`, which
-- internal/http/handlers/helpers.go and courier.go call.
use Prim.Native.Char.{code}
use service_courier_platform.Prelude.{
  ℕ, zero, suc, ◌+◌, ◌-◌, ◌*◌, ◌^◌, ◌<◌, ◌≤◌, ◌≡◌, refl, ℤ, pos, negsuc, pos_part, neg_part, String,
  Option, none, some, eqb, ltb, arith, if◌then◌else◌, Bool-cases, inl, inr,
}
use service_courier_platform.Domain.{is_digit}

-- The value of a text of digits, after the digits that make `n`.
unfoldable pub digits_after : ℕ → String → Option ℕ
digits_after n String.[] = some n
digits_after n (String.◌∷◌ c s) =
    let rest = digits_after (n * 10 + (code c - b'0')) s in if is_digit c then rest else none

unfoldable pub digits : String → Option ℕ
unfolding digits_after
digits String.[] = none
digits (String.◌∷◌ c s) = digits_after 0 (String.◌∷◌ c s)

unfoldable pub positive : Option ℕ → Option ℤ
positive none = none
positive (some n) = if ltb n (2 ^ 63) then some (pos n) else none

negative : Option ℕ → Option ℤ
negative none = none
negative (some zero) = some (pos 0)
negative (some (suc n)) = if ltb n (2 ^ 63) then some (negsuc n) else none

unfoldable pub parse_int : String → Option ℤ
unfolding digits digits_after positive negative
parse_int String.[] = none
parse_int (String.◌∷◌ c s) =
    if eqb (code c) b'-'
    then negative (digits s)
    else if eqb (code c) b'+'
    then positive (digits s)
    else positive (digits (String.◌∷◌ c s))

-- An int64.
pub record IsInt64 (i : ℤ) : Type 0 where
  pub below : pos_part i < 2 ^ 63
  pub above : neg_part i ≤ 2 ^ 63

positive_bounds : (o : Option ℕ) {i : ℤ} → positive o ≡ some i → IsInt64 i
unfolding positive
positive_bounds none h = cc
positive_bounds (some n) h = ground arith

negative_bounds : (o : Option ℕ) {i : ℤ} → negative o ≡ some i → IsInt64 i
unfolding negative
negative_bounds none h = cc
negative_bounds (some zero) h = ground arith
negative_bounds (some (suc n)) h = ground arith

-- What `ParseInt` accepts is an int64.
pub parse_int-IsInt64 : (s : String) {i : ℤ} → parse_int s ≡ some i → IsInt64 i
unfolding parse_int
parse_int-IsInt64 String.[] h = cc
parse_int-IsInt64 (String.◌∷◌ c s) h = elim (Bool-cases (eqb (code c) b'-')) [
  | inl e ↦ negative_bounds (digits s) (rw e at h)
  | inr e ↦ elim (Bool-cases (eqb (code c) b'+')) [
    | inl f ↦ positive_bounds (digits s) (rw (e, f) at h)
    | inr f ↦ positive_bounds (digits (String.◌∷◌ c s)) (rw (e, f) at h)
  ]
]

parse_int_test :
    (parse_int "42" ≡ some (pos 42))
    × (parse_int "-7" ≡ some (negsuc 6))
    × (parse_int "+0" ≡ some (pos 0))
    × (parse_int "4x" ≡ none)
    × (parse_int "9223372036854775808" ≡ none)
unfolding parse_int
parse_int_test = (refl, refl, refl, refl, refl)
