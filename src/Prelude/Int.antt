-- ===== src/Prelude/Int.antt =====
-- Signed integers over the native numbers, and the program's tests on them.
use Prim.Native.Nat.{ℕ, suc, ◌+◌, ◌-◌, ◌*◌, ◌%◌, ◌^◌}
use mathlib.Core.Path.{◌≡◌, refl}
use mathlib.Core.Logic.{◌↔◌}
use mathlib.Core.Bool.{Bool, true, false}
use native.Mathlib.Omega.{arith}
use service_courier_platform.Prelude.Tests.{ltb, leb, eqb, if◌then◌else◌}

-- `negsuc n` is -(n + 1).
pub data ℤ : Type 0 where
  pos : ℕ → ℤ
  negsuc : ℕ → ℤ

abbrev pub pos_part : ℤ → ℕ
pos_part (pos n) = n
pos_part (negsuc n) = 0

abbrev pub neg_part : ℤ → ℕ
neg_part (pos n) = 0
neg_part (negsuc n) = suc n

abbrev pub ltb_ℤ : ℤ → ℤ → Bool
ltb_ℤ a b = ltb (pos_part a + neg_part b) (pos_part b + neg_part a)

abbrev pub leb_ℤ : ℤ → ℤ → Bool
leb_ℤ a b = leb (pos_part a + neg_part b) (pos_part b + neg_part a)

abbrev pub eqb_ℤ : ℤ → ℤ → Bool
eqb_ℤ (pos a) (pos b) = eqb a b
eqb_ℤ (pos a) (negsuc b) = false
eqb_ℤ (negsuc a) (pos b) = false
eqb_ℤ (negsuc a) (negsuc b) = eqb a b

pub eqb_ℤ_iff : (a b : ℤ) → (eqb_ℤ a b ≡ true) ↔ (a ≡ b)
eqb_ℤ_iff (pos a) (pos b) = ground arith
eqb_ℤ_iff (pos a) (negsuc b) = ground arith
eqb_ℤ_iff (negsuc a) (pos b) = ground arith
eqb_ℤ_iff (negsuc a) (negsuc b) = ground arith

pub eqb_ℤ_refl : (a : ℤ) → eqb_ℤ a a ≡ true
eqb_ℤ_refl a = (eqb_ℤ_iff a a).1 refl

-- The int64 with the bit pattern `p % 2 ^ 64`.
abbrev pub of_pattern : ℕ → ℤ
of_pattern p =
    if ltb (p % 2 ^ 64) (2 ^ 63) then pos (p % 2 ^ 64) else negsuc (2 ^ 64 - 1 - p % 2 ^ 64)

-- The bit pattern of an int64.
abbrev pub to_pattern : ℤ → ℕ
to_pattern (pos n) = n % 2 ^ 64
to_pattern (negsuc n) = 2 ^ 64 - 1 - n % 2 ^ 64

-- `a << k` on int64: the bits that leave the word are lost.
unfoldable pub shl : ℤ → ℕ → ℤ
shl a k = of_pattern (to_pattern a * 2 ^ k)

shl_test :
    (shl (pos 3) 2 ≡ pos 12)
    × (shl (pos 1) 63 ≡ negsuc (2 ^ 63 - 1))
    × (shl (negsuc 0) 1 ≡ negsuc 1)
unfolding shl
shl_test = (refl, refl, refl)
