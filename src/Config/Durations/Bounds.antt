-- ===== src/Config/Durations/Bounds.antt =====
-- The durations that `time.ParseDuration` answers, for internal/config/config.go.

use service_courier_platform.Prelude.{
  none-some, ◌<◌, subst, some_inj, ℕ, zero, suc, ◌+◌, ◌-◌, ◌%◌, ◌^◌, ◌≤◌, ◌≡◌, refl, ℤ, pos, negsuc,
  String, Bool, true, false, ◌==◌, ltb, Option, none, some, Bool-cases, inl, inr, arith,
}
use service_courier_platform.Errors.{ok, ok_inj, err_ok}
use service_courier_platform.Middleware.{is_char}
use service_courier_platform.Config.Durations.{
  Scan, before_number, bad, whole, fraction, unit, Reading, summed, closed, scaled, unit_of, ended,
  read_char, read_chars, signed, invalid, after_sign, parse_duration,
}

-- A number that an int64 holds.
unfoldable pub IsInt64 : ℤ → Type 0
IsInt64 (pos n) = n < 2 ^ 63
IsInt64 (negsuc n) = n < 2 ^ 63

module _ (part : ℕ → ℕ → ℕ → ℕ) where
  -- No reading makes more than 2^63 nanoseconds.
  summed-bound : (d : ℕ) (v : Option ℕ) {n : ℕ} → summed part d v ≡ some n → n ≤ 2 ^ 63
  unfolding summed
  summed-bound d none h = cc
  summed-bound d (some v) h = elim (Bool-cases (ltb (2 ^ 63) ((d + v) % 2 ^ 64))) [
    | inl e ↦ absurd (none-some (rw e at h))
    | inr e ↦ subst (λ m. m ≤ 2 ^ 63) (some_inj (rw e at h)) (ground (arith, e))
  ]

  ended-bound : (d : ℕ) (s : Scan) {n : ℕ} → ended part d s ≡ some n → n ≤ 2 ^ 63
  unfolding ended closed
  ended-bound d before_number h = cc
  ended-bound d bad h = cc
  ended-bound d (whole v) h = cc
  ended-bound d (fraction v pre f places over post) h = cc
  ended-bound d (unit v f places u) h = closed-bound (unit_of u) h
    where
      closed-bound : (size : Option ℕ) {n : ℕ} → closed part d v f places size ≡ some n → n ≤ 2 ^ 63
      closed-bound none h = cc
      closed-bound (some size) h = summed-bound d (scaled part v f places size) h

  read_chars-bound : (r : Reading) (s : String) {n : ℕ} → read_chars part r s ≡ some n → n ≤ 2 ^ 63
  unfolding read_chars
  read_chars-bound r String.[] h = ended-bound r.sum r.scan h
  read_chars-bound r (String.◌∷◌ c s) h = read_chars-bound (read_char part r.sum r.scan c) s h

  signed-IsInt64 :
      (negative : Bool) (r : Option ℕ)
      → ((n : ℕ) → r ≡ some n → n ≤ 2 ^ 63)
      → {d : ℤ} → signed part negative r ≡ ok d
      → IsInt64 d
  unfolding signed invalid IsInt64
  signed-IsInt64 negative none b h = cc
  signed-IsInt64 true (some zero) b h = subst IsInt64 (ok_inj h) (omega arith)
  signed-IsInt64 true (some (suc d)) b h =
      let most : suc d ≤ 2 ^ 63 = b (suc d) refl in subst IsInt64 (ok_inj h) (omega (arith, most))
  signed-IsInt64 false (some d) b h = elim (Bool-cases (ltb (2 ^ 63 - 1) d)) [
    | inl e ↦ absurd (err_ok (rw e at h))
    | inr e ↦ subst IsInt64 (ok_inj (rw e at h)) (ground (arith, e))
  ]

  after_sign-IsInt64 :
      (negative : Bool) (s : String) {d : ℤ} → after_sign part negative s ≡ ok d → IsInt64 d
  unfolding after_sign IsInt64
  after_sign-IsInt64 negative s h = elim (Bool-cases (s == "0")) [
    | inl e ↦ subst IsInt64 (ok_inj (rw e at h)) (omega arith)
    | inr e ↦ signed-IsInt64 negative _ (λ n. read_chars-bound _ s) (rw e at h)
  ]

  -- Whatever the text, and whatever float64 makes of its fractions: a duration that is read is one
  -- that an int64 holds.
  pub parse_duration-IsInt64 : (s : String) {d : ℤ} → parse_duration part s ≡ ok d → IsInt64 d
  unfolding parse_duration
  parse_duration-IsInt64 String.[] h = after_sign-IsInt64 false "" h
  parse_duration-IsInt64 (String.◌∷◌ c s) h = elim (Bool-cases (is_char b'-' c)) [
    | inl e ↦ after_sign-IsInt64 true s (rw e at h)
    | inr e ↦ elim (Bool-cases (is_char b'+' c)) [
      | inl f ↦ after_sign-IsInt64 false s (rw (e, f) at h)
      | inr f ↦ after_sign-IsInt64 false (String.◌∷◌ c s) (rw (e, f) at h)
    ]
  ]
