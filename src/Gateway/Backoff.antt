-- ===== src/Gateway/Backoff.antt =====
-- The delays of internal/gateway/orders/retrying.go.
use service_courier_platform.Prelude.{
  ℕ, zero, suc, ◌+◌, ◌-◌, ◌*◌, ◌^◌, ◌%◌, ap, ◌∙◌, of_pattern, Bool-cases, inl, inr, ◌<◌, ◌≤◌, ◌≡◌,
  ℤ, pos, pos_part, neg_part, min, arith, shl, ltb_ℤ, if◌then◌else◌,
}
use service_courier_platform.Gateway.{backoff}
use native.Mathlib.Nat.{pow-suc}

infix 4 ◌≤ℤ◌
abbrev pub ◌≤ℤ◌ : ℤ → ℤ → Type 0
◌≤ℤ◌ a b = pos_part a + neg_part b ≤ pos_part b + neg_part a

capped : (max d : ℤ) → ◌≤ℤ◌ (if ltb_ℤ max d then max else d) max
capped max d = elim (Bool-cases (ltb_ℤ max d)) [
  | inl e ↦ rw e (omega arith)
  | inr e ↦ rw e (ground arith)
]

-- No delay is longer than the longest that is configured.
pub backoff-le-max : (base max : ℤ) (attempt : ℕ) → ◌≤ℤ◌ (backoff base max attempt) max
unfolding backoff
backoff-le-max base max attempt = capped max (shl base (attempt - 1))

le-mul-pow : (n k : ℕ) → n ≤ n * 2 ^ k
le-mul-pow n zero = omega arith
le-mul-pow n (suc k) = rw pow-suc (omega (arith, le-mul-pow n k))

in_word : (n : ℕ) → n < 2 ^ 63 → of_pattern n ≡ pos n
in_word n h = ground arith

shl_small : (n k : ℕ) → n * 2 ^ k < 2 ^ 63 → shl (pos n) k ≡ pos (n * 2 ^ k)
unfolding shl
shl_small n k h =
    let small : n % 2 ^ 64 ≡ n = omega (arith, h, le-mul-pow n k) in
    rw small (in_word (n * 2 ^ k) h)

least : (d max : ℕ) → (if ltb_ℤ (pos max) (pos d) then pos max else pos d) ≡ pos (min d max)
least d max = ground arith

backoff_lem :
    (base max attempt : ℕ)
    → backoff (pos base) (pos max) (suc attempt)
      ≡ (if ltb_ℤ (pos max) (shl (pos base) attempt) then pos max else shl (pos base) attempt)
unfolding backoff
backoff_lem base max attempt = rw pred_suc
  where
    pred_suc : suc attempt - 1 ≡ attempt
    pred_suc = omega arith

-- As long as the doubled delay fits an int64, the delay doubles from attempt to attempt up to the
-- longest one.
pub backoff_doubles :
    (base max attempt : ℕ)
    → base * 2 ^ attempt < 2 ^ 63
    → backoff (pos base) (pos max) (suc attempt) ≡ pos (min (base * 2 ^ attempt) max)
backoff_doubles base max attempt h =
    backoff_lem base max attempt
    ∙ ap (λ d. if ltb_ℤ (pos max) d then pos max else d) (shl_small base attempt h)
    ∙ least (base * 2 ^ attempt) max
