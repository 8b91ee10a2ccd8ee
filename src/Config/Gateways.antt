-- ===== src/Config/Gateways.antt =====
-- The settings of the orders gateway that internal/config/config.go accepts, and what they make of
-- the retried calls of internal/gateway/orders/retrying.go.
use service_courier_platform.Prelude.{
  Bool-cases, inl, inr, ℕ, zero, suc, ◌≤◌, ◌<◌, ◌≡◌, subst, refl, ℤ, pos, negsuc, pos_part, String,
  false, Option, none, some, arith, ◌||◌, leb_ℤ, ltb_ℤ,
}
use service_courier_platform.Errors.{err_ok, ok_inj, Result, ok, err}
use service_courier_platform.Gateway.{World, retrying}
use service_courier_platform.Gateway.Retry.{retrying-Loop}
use service_courier_platform.Gateway.Backoff.{◌≤ℤ◌}
use service_courier_platform.Handlers.Numbers.{parse_int}
use service_courier_platform.Config.{
  Env, OrdersGateway, retry_config, env_or_default, delay_of, attempts_of, gateway_of,
  parse_orders_gateway,
}

-- One to ten attempts, and delays that are more than 0 and in order.
pub record IsUsable (g : OrdersGateway) : Type 0 where
  pub attempts : ℕ
  pub max_attempts : g.max_attempts ≡ pos (suc attempts)
  pub at_most_ten : suc attempts ≤ 10
  pub base_positive : 0 < pos_part g.base_delay
  pub ordered : g.base_delay ≤ℤ g.max_delay

counted :
    (n : ℤ)
    → (ltb_ℤ n (pos 1) || ltb_ℤ (pos 10) n) ≡ false
    → (k : ℕ) × (n ≡ pos (suc k)) × (suc k ≤ 10)
counted (pos zero) h = ground arith
counted (pos (suc k)) h = (k, refl, ground arith)
counted (negsuc k) h = ground arith

positive_delay : (d : ℤ) → leb_ℤ d (pos 0) ≡ false → 0 < pos_part d
positive_delay (pos n) h = ground arith
positive_delay (negsuc n) h = ground arith

in_order : (base max : ℤ) → ltb_ℤ max base ≡ false → base ≤ℤ max
in_order base max h = ground arith

counted_attempts :
    (o : Option ℤ) {n : ℤ} → attempts_of o ≡ ok n → (k : ℕ) × (n ≡ pos (suc k)) × (suc k ≤ 10)
unfolding attempts_of
counted_attempts none h = cc
counted_attempts (some m) {n} h = elim (Bool-cases (ltb_ℤ m (pos 1) || ltb_ℤ (pos 10) m)) [
  | inl e ↦ absurd (err_ok (rw e at h))
  | inr e ↦
      let same : m ≡ n = ok_inj (rw e at h) in
      subst (λ i. (k : ℕ) × (i ≡ pos (suc k)) × (suc k ≤ 10)) same (counted m e)
]

positive_of : (key : String) (r : Result ℤ) {d : ℤ} → delay_of key r ≡ ok d → 0 < pos_part d
unfolding delay_of
positive_of key (err e) h = cc
positive_of key (ok x) {d} h = elim (Bool-cases (leb_ℤ x (pos 0))) [
  | inl e ↦ absurd (err_ok (rw e at h))
  | inr e ↦
      let same : x ≡ d = ok_inj (rw e at h) in subst (λ i. 0 < pos_part i) same (positive_delay x e)
]

IsUsable-of :
    (rn rb rm : Result ℤ) {g : OrdersGateway}
    → ((n : ℤ) → rn ≡ ok n → (k : ℕ) × (n ≡ pos (suc k)) × (suc k ≤ 10))
    → ((d : ℤ) → rb ≡ ok d → 0 < pos_part d)
    → gateway_of rn rb rm ≡ ok g
    → IsUsable g
unfolding gateway_of
IsUsable-of (err e) rb rm p q h = cc
IsUsable-of (ok n) (err e) rm p q h = cc
IsUsable-of (ok n) (ok base) (err e) p q h = cc
IsUsable-of (ok n) (ok base) (ok max) {g} p q h = elim (Bool-cases (ltb_ℤ max base)) [
  | inl e ↦ absurd (err_ok (rw e at h))
  | inr e ↦
      let same : record { max_attempts = n; base_delay = base; max_delay = max } ≡ g =
        ok_inj (rw e at h) in
      let (k, is, few) = p n refl in
      subst IsUsable same (record {
        attempts = k;
        max_attempts = is;
        at_most_ten = few;
        base_positive = q base refl;
        ordered = in_order base max e;
      })
]

module _ (parse_duration : String → Result ℤ) (env : Env) where
  -- What `parseOrdersGateway` accepts has one to ten attempts, a base delay of more than 0, and a
  -- longest delay that is not below it.
  pub parse_orders_gateway-IsUsable :
      {g : OrdersGateway} → parse_orders_gateway parse_duration env ≡ ok g → IsUsable g
  unfolding parse_orders_gateway
  parse_orders_gateway-IsUsable h =
      let n = parse_int (env_or_default env "ORDER_GATEWAY_MAX_ATTEMPTS" "4") in
      let base = parse_duration (env_or_default env "ORDER_GATEWAY_BASE_DELAY" "150ms") in
      let max = parse_duration (env_or_default env "ORDER_GATEWAY_MAX_DELAY" "200ms") in
      IsUsable-of (attempts_of n) (delay_of "ORDER_GATEWAY_BASE_DELAY" base)
        (delay_of "ORDER_GATEWAY_MAX_DELAY" max) (λ _ k. counted_attempts n k)
        (λ _ k. positive_of "ORDER_GATEWAY_BASE_DELAY" base k) h

  -- With settings that `parseOrdersGateway` accepts, a retried call always asks the orders service,
  -- and asks it ten times at most, whatever it answers.
  pub configured_calls :
      {A : Type 0} {g : OrdersGateway} (w : World A) (missing : A)
      → parse_orders_gateway parse_duration env ≡ ok g
      → (0 < (retrying (retry_config g) w missing).calls)
        × ((retrying (retry_config g) w missing).calls ≤ 10)
  configured_calls {g = g} w missing h =
      let u = parse_orders_gateway-IsUsable h in
      let l = retrying-Loop (retry_config g) w u.attempts missing u.max_attempts in
      (omega (arith, l.calls), omega (arith, l.within, u.at_most_ten))
