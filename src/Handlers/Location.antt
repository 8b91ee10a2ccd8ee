-- ===== src/Handlers/Location.antt =====
-- The header `Location` of a created courier, `"/courier/" + strconv.FormatInt(id, 10)` of
-- internal/http/handlers/courier.go: the text of the id, and what idFromURL of helpers.go reads
-- from it.
use Prim.Native.Char.{Char, code}
use service_courier_platform.Prelude.{
  leb_ℤ, ℕ, zero, suc, ◌+◌, ◌-◌, ◌*◌, ◌/◌, ◌%◌, ◌^◌, ◌<◌, ◌≡◌, ◌∙◌, refl, ap, ℤ, pos, negsuc,
  String, some, eqb, eqb_iff, both_tests, ◌≢◌, lt→ltb, leb→le, both_true, arith, true, false,
  if◌then◌else◌, Bool-cases, inl, inr,
}
use service_courier_platform.Domain.{is_digit}
use service_courier_platform.Handlers.{id_from_url}
use service_courier_platform.Handlers.Numbers.{parse_int, digits_after, digits, positive}

digit_at : String → ℕ → Char
digit_at String.[] n = "0"
digit_at (String.◌∷◌ d s) zero = d
digit_at (String.◌∷◌ d s) (suc n) = digit_at s n

-- The digit of a number below ten.
digit_of : ℕ → Char
unfolding digit_at
digit_of n = digit_at "0123456789" n

-- The loop of FormatInt, which writes from the last digit on.
emit : ℕ → ℕ → String → String
emit zero n out = out
emit (suc fuel) n out =
    let first = String.◌∷◌ (digit_of (n % 10)) out in
    let rest = emit fuel (n / 10) first in if eqb (n / 10) 0 then first else rest

unfoldable pub format_int : ℤ → String
unfolding emit digit_of
format_int (pos n) = emit (suc n) n ""
format_int (negsuc n) = String.◌∷◌ "-" (emit (suc (suc n)) (suc n) "")

digit_of_value : (d : ℕ) → d < 10 → (is_digit (digit_of d) ≡ true) × (code (digit_of d) - b'0' ≡ d)
unfolding digit_of digit_at
digit_of_value zero h = (refl, refl)
digit_of_value (suc zero) h = (refl, refl)
digit_of_value (suc (suc zero)) h = (refl, refl)
digit_of_value (suc (suc (suc zero))) h = (refl, refl)
digit_of_value (suc (suc (suc (suc zero)))) h = (refl, refl)
digit_of_value (suc (suc (suc (suc (suc zero))))) h = (refl, refl)
digit_of_value (suc (suc (suc (suc (suc (suc zero)))))) h = (refl, refl)
digit_of_value (suc (suc (suc (suc (suc (suc (suc zero))))))) h = (refl, refl)
digit_of_value (suc (suc (suc (suc (suc (suc (suc (suc zero)))))))) h = (refl, refl)
digit_of_value (suc (suc (suc (suc (suc (suc (suc (suc (suc zero))))))))) h = (refl, refl)
digit_of_value (suc (suc (suc (suc (suc (suc (suc (suc (suc (suc n)))))))))) h =
    absurd (omega (arith, h))

-- Reading one digit.
read_digit :
    (k d : ℕ) (s : String)
    → d < 10
    → digits_after k (String.◌∷◌ (digit_of d) s) ≡ digits_after (k * 10 + d) s
unfolding digits_after
read_digit k d s h = let (is, value) = digit_of_value d h in rw (is, value) refl

tenth : (n fuel : ℕ) → eqb (n / 10) 0 ≡ false → n < suc fuel → n / 10 < fuel
tenth n fuel e h =
    let more : n / 10 ≢ 0 = λ q. both_tests ((eqb_iff (n / 10) 0).1 q) e in omega (arith, more, h)

-- Reading what the loop has written.
digits_after-emit :
    (fuel n : ℕ) (out : String) → n < fuel → digits_after 0 (emit fuel n out) ≡ digits_after n out
unfolding emit
digits_after-emit zero n out h = absurd (omega (arith, h))
digits_after-emit (suc fuel) n out h = elim (Bool-cases (eqb (n / 10) 0)) [
  | inl e ↦
      rw (e, read_digit 0 (n % 10) out (omega arith))
        (ap (λ x. digits_after x out) (omega (arith, (eqb_iff (n / 10) 0).0 e)))
  | inr e ↦
      rw
        (
          e,
          digits_after-emit fuel (n / 10) (String.◌∷◌ (digit_of (n % 10)) out) (tenth n fuel e h),
          read_digit (n / 10) (n % 10) out (omega arith),
        )
        (ap (λ x. digits_after x out) (omega arith))
]

-- A text that starts with a digit.
record Leading (text : String) : Type 0 where
  first : Char
  rest : String
  split : text ≡ String.◌∷◌ first rest
  digit : is_digit first ≡ true

emit-Leading : (fuel n : ℕ) (out : String) → Leading (emit (suc fuel) n out)
unfolding emit
emit-Leading zero n out = elim (Bool-cases (eqb (n / 10) 0)) [
  | inl e ↦ rw e (starts n out)
  | inr e ↦ rw e (starts n out)
]
  where
    starts : (m : ℕ) (s : String) → Leading (String.◌∷◌ (digit_of (m % 10)) s)
    starts m s = record {
      first = digit_of (m % 10);
      rest = s;
      split = refl;
      digit = (digit_of_value (m % 10) (omega arith)).0;
    }
emit-Leading (suc fuel) n out = elim (Bool-cases (eqb (n / 10) 0)) [
  | inl e ↦ rw e (record {
    first = digit_of (n % 10);
    rest = out;
    split = refl;
    digit = (digit_of_value (n % 10) (omega arith)).0;
  })
  | inr e ↦ rw e (emit-Leading fuel (n / 10) (String.◌∷◌ (digit_of (n % 10)) out))
]

parse_leading :
    (c : Char) (s : String)
    → is_digit c ≡ true
    → parse_int (String.◌∷◌ c s) ≡ positive (digits_after 0 (String.◌∷◌ c s))
unfolding parse_int digits
parse_leading c s h =
    let low = leb→le b'0' (code c) (both_true h).0 in
    let minus : eqb (code c) b'-' ≡ false = ground (arith, low) in
    let plus : eqb (code c) b'+' ≡ false = ground (arith, low) in rw (minus, plus) refl

parse_Leading : (text : String) → Leading text → parse_int text ≡ positive (digits_after 0 text)
parse_Leading text l = rw l.split (parse_leading l.first l.rest l.digit)

-- The text that FormatInt makes of an int64 that is not negative is read back as that number.
pub parse_int-format_int : (n : ℕ) → n < 2 ^ 63 → parse_int (format_int (pos n)) ≡ some (pos n)
unfolding format_int positive digits_after
parse_int-format_int n h =
    parse_Leading (emit (suc n) n "") (emit-Leading n n "")
    ∙ ap positive (digits_after-emit (suc n) n "" (omega arith))
    ∙ rw (lt→ltb n (2 ^ 63) h) refl

-- The id in the `Location` of a created courier is the one that the handlers read from that path.
pub id_from_url-format_int :
    (n : ℕ) → suc n < 2 ^ 63 → id_from_url (format_int (pos (suc n))) ≡ some (pos (suc n))
unfolding id_from_url
id_from_url-format_int n h =
    let positive_id : leb_ℤ (pos (suc n)) (pos 0) ≡ false = ground arith in
    rw (parse_int-format_int (suc n) h, positive_id, id_from_url) refl
