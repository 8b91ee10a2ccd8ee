-- ===== src/Config/Durations.antt =====
-- `time.ParseDuration`, which internal/config/config.go reads its durations with. What float64 makes
-- of a fraction's digits, of its unit and of the number of its digits is an argument.
pub mod Bounds
use Prim.Native.Char.{Char, code}
use Prim.Native.String.{◌++◌}
use service_courier_platform.Prelude.{
  none-some, ◌<◌, leb→le, subst, some_inj, ℕ, zero, suc, ◌+◌, ◌-◌, ◌*◌, ◌/◌, ◌%◌, ◌^◌, ◌≤◌, ◌≡◌,
  refl, ℤ, pos, negsuc, String, Bool, true, false, not, ◌&&◌, ◌||◌, ◌==◌, eqb, ltb, Option, none,
  some, if◌then◌else◌, Bool-cases, inl, inr, arith, leb_ℤ,
}
use service_courier_platform.Errors.{text, Result, ok, err, ok_inj, err_ok}
use service_courier_platform.Domain.{is_digit}
use service_courier_platform.Middleware.{is_char}

-- `unitMap`, in nanoseconds.
abbrev pub unit_of : String → Option ℕ
unit_of u =
    if u == "ns"
    then some 1
    else if u == "us" || (u == "µs" || u == "μs")
    then some 1000
    else if u == "ms"
    then some 1000000
    else if u == "s"
    then some 1000000000
    else if u == "m"
    then some 60000000000
    else if u == "h"
    then some 3600000000000
    else none

-- The part of a text of numbers and units that is being read: a number's digits; those after its
-- point, with whether a digit stands before the point, whether the digits have overflowed, and
-- whether there are any; or its unit.
pub data Scan : Type 0 where
  before_number bad : Scan
  whole : ℕ → Scan
  fraction : ℕ → Bool → ℕ → ℕ → Bool → Bool → Scan
  unit : ℕ → ℕ → ℕ → String → Scan

-- The sum of the numbers before, and what is being read.
pub record Reading : Type 0 where
  pub sum : ℕ
  pub scan : Scan

abbrev bad_from : ℕ → Reading
bad_from d = record { sum = d; scan = bad }

pub begin : Char → ℕ → Reading
begin c d = record {
  sum = d;
  scan =
      if is_char b'.' c
      then fraction 0 false 0 0 false false
      else if is_digit c
      then whole (code c - b'0')
      else bad;
}

-- A digit more of `leadingInt`.
pub longer : ℕ → ℕ → Scan
longer v digit =
    if ltb (2 ^ 63 / 10) v || ltb (2 ^ 63) (v * 10 + digit) then bad else whole (v * 10 + digit)

-- A digit more of `leadingFraction`, which leaves out those that do not fit.
pub finer : ℕ → Bool → ℕ → ℕ → Bool → ℕ → Scan
finer v pre f places over digit =
    if over || (ltb ((2 ^ 63 - 1) / 10) f || ltb (2 ^ 63) (f * 10 + digit))
    then fraction v pre f places true true
    else fraction v pre (f * 10 + digit) (suc places) false true

module _ (part : ℕ → ℕ → ℕ → ℕ) where
  -- A number in a unit, in nanoseconds.
  unfoldable pub scaled : ℕ → ℕ → ℕ → ℕ → Option ℕ
  scaled v f places size =
      let value = v * size + (if eqb f 0 then 0 else part f size places) in
      if ltb (2 ^ 63 / size) v || ltb (2 ^ 63) value then none else some value

  -- The sum of 64 bits.
  unfoldable pub summed : ℕ → Option ℕ → Option ℕ
  summed d none = none
  summed d (some v) = let sum = (d + v) % 2 ^ 64 in if ltb (2 ^ 63) sum then none else some sum

  unfoldable pub closed : ℕ → ℕ → ℕ → ℕ → Option ℕ → Option ℕ
  closed d v f places none = none
  closed d v f places (some size) = summed d (scaled v f places size)

  unfoldable pub resumed : Char → Option ℕ → Reading
  resumed c none = bad_from 0
  resumed c (some d) = begin c d

  unfoldable pub read_char : ℕ → Scan → Char → Reading
  read_char d bad c = bad_from d
  read_char d before_number c = begin c d
  read_char d (whole v) c = record {
    sum = d;
    scan =
        if is_digit c
        then longer v (code c - b'0')
        else if is_char b'.' c
        then fraction v true 0 0 false false
        else unit v 0 0 (String.◌∷◌ c String.[]);
  }
  read_char d (fraction v pre f places over post) c = record {
    sum = d;
    scan =
        if is_digit c
        then finer v pre f places over (code c - b'0')
        else if is_char b'.' c || not (pre || post)
        then bad
        else unit v f places (String.◌∷◌ c String.[]);
  }
  read_char d (unit v f places u) c =
      if is_digit c || is_char b'.' c
      then resumed c (closed d v f places (unit_of u))
      else record { sum = d; scan = unit v f places (u ++ String.◌∷◌ c String.[]) }

  -- The end of the text, which has to end with a unit.
  unfoldable pub ended : ℕ → Scan → Option ℕ
  ended d (unit v f places u) = closed d v f places (unit_of u)
  ended d scan = none

  unfoldable pub read_chars : Reading → String → Option ℕ
  read_chars r String.[] = ended r.sum r.scan
  read_chars r (String.◌∷◌ c s) = read_chars (read_char r.sum r.scan c) s

  unfoldable pub invalid : Result ℤ
  invalid = err (text "time: invalid duration")

  unfoldable pub signed : Bool → Option ℕ → Result ℤ
  signed negative none = invalid
  signed true (some zero) = ok (pos 0)
  signed true (some (suc d)) = ok (negsuc d)
  signed false (some d) = if ltb (2 ^ 63 - 1) d then invalid else ok (pos d)

  unfoldable pub after_sign : Bool → String → Result ℤ
  after_sign negative s =
      if s == "0"
      then ok (pos 0)
      else signed negative (read_chars (record { sum = 0; scan = before_number }) s)

  -- `time.ParseDuration`.
  unfoldable pub parse_duration : String → Result ℤ
  unfolding after_sign signed read_chars ended read_char begin longer closed summed scaled resumed
      finer invalid
  parse_duration String.[] = after_sign false String.[]
  parse_duration (String.◌∷◌ c s) =
      if is_char b'-' c
      then after_sign true s
      else if is_char b'+' c
      then after_sign false s
      else after_sign false (String.◌∷◌ c s)

-- Fractions without rounding.
abbrev pub exact : ℕ → ℕ → ℕ → ℕ
exact f size places = f * size / 10 ^ places

parse_duration_test :
    (parse_duration exact "150ms" ≡ ok (pos 150000000))
    × (parse_duration exact "10m0s" ≡ ok (pos 600000000000))
    × (parse_duration exact "-1.5h" ≡ ok (negsuc 5399999999999))
    × (parse_duration exact "+.5us" ≡ ok (pos 500))
    × (parse_duration exact "0" ≡ ok (pos 0))
    × (parse_duration exact "" ≡ err (text "time: invalid duration"))
    × (parse_duration exact "3" ≡ err (text "time: invalid duration"))
    × (parse_duration exact "1.2.3s" ≡ err (text "time: invalid duration"))
    × (parse_duration exact ".s" ≡ err (text "time: invalid duration"))
    × (parse_duration exact "9223372036854775808ns" ≡ err (text "time: invalid duration"))
    × (parse_duration exact "-9223372036854775808ns" ≡ ok (negsuc 9223372036854775807))
unfolding parse_duration
parse_duration_test = (refl, refl, refl, refl, refl, refl, refl, refl, refl, refl, refl)
