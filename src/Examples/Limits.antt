-- ===== src/Examples/Limits.antt =====
-- A limiter over thousandths in place of floating-point numbers:
-- internal/http/middleware/ratelimit/token_bucket_limiter.go.
use service_courier_platform.Prelude.{
  suc, ℕ, ◌+◌, ◌-◌, ◌*◌, ◌/◌, ◌≡◌, refl, min, pos, false, none, ltb, leb, arith,
}
use service_courier_platform.DeliveryService.{minute, second}
use service_courier_platform.RateLimit.{
  Float64, Config, Limiter, new, allow, maybe_cleanup, find_bucket, is_full,
}
use service_courier_platform.RateLimit.Bounds.{Laws, IsBounded, new-IsBounded, allow-IsBounded}
use service_courier_platform.Middleware.{Front, client_ip}
use service_courier_platform.Middleware.Served.{after_requests, answers, Served, refused-new}
use service_courier_platform.RateLimit.Admission.{admitted, admitted-new}
use service_courier_platform.RateLimit.Spending.{Counts}

abbrev pub thousandths : Float64
thousandths = record {
  Carrier = ℕ;
  of_int = λ n. n * 1000;
  seconds = λ d. d / 1000000;
  add = λ a b. a + b;
  sub = λ a b. a - b;
  mul = λ a b. a * b / 1000;
  div = λ a b. a * 1000 / b;
  lt = ltb;
  le = leb;
}

thousandths-Laws : Laws thousandths
thousandths-Laws = record { lt_irrefl = λ x. ground arith; sub_one = λ b t h. ground arith }

pub thousandths-Counts : Counts thousandths 100
thousandths-Counts = record {
  none_left = refl;
  some_left = λ n h. ground arith;
  take_one = λ n h. omega arith;
}

-- Two requests a second, three at once, for at most two keys.
abbrev config : Config thousandths
config = record { rate = 2000; burst = pos 3; ttl = pos (5 * minute); max_buckets = pos 2 }

abbrev pub limiter : Limiter thousandths
limiter = new thousandths config

allow-IsBounded_example : IsBounded thousandths (allow thousandths "10.0.0.1" second limiter).1
allow-IsBounded_example =
    allow-IsBounded thousandths thousandths-Laws "10.0.0.1" second limiter
      (new-IsBounded thousandths config)

no_bucket :
    find_bucket thousandths "10.0.0.1" (maybe_cleanup thousandths second limiter).buckets ≡ none
unfolding maybe_cleanup new find_bucket
no_bucket = refl

has_room : is_full thousandths (maybe_cleanup thousandths second limiter) ≡ false
unfolding maybe_cleanup new
has_room = refl

three_at_once : limiter.cfg.burst ≡ pos 3
unfolding new
three_at_once = refl

admitted-new_example : admitted thousandths "10.0.0.1" second 5 limiter ≡ min 5 3
admitted-new_example =
    admitted-new thousandths "10.0.0.1" second thousandths-Counts 5 2 limiter no_bucket has_room
      three_at_once (omega arith)

-- The middleware in front of a handler that counts its requests.
abbrev counting : ℕ → ℕ × ℕ
counting n = (200, suc n)

abbrev front : Front (Limiter thousandths) ℕ
front = record { limiter = limiter; exceeded = 0; inner = 0 }

no_client :
    find_bucket thousandths
      (client_ip "10.0.0.1:51234")
      (maybe_cleanup thousandths second limiter).buckets
    ≡ none
unfolding maybe_cleanup new find_bucket
no_client = refl

refused-new_example :
    ((after_requests thousandths counting "10.0.0.1:51234" second 5 front).exceeded ≡ 0 + (5 - 3))
    × Served thousandths counting "10.0.0.1:51234" second
        (min 5 3)
        (5 - 3)
        front
        (answers thousandths counting "10.0.0.1:51234" second 5 front)
        (after_requests thousandths counting "10.0.0.1:51234" second 5 front)
refused-new_example =
    refused-new thousandths counting "10.0.0.1:51234" second thousandths-Counts 5 2 front no_client
      has_room three_at_once (omega arith)
