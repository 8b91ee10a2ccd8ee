-- ===== src/Examples/Calls.antt =====
-- Retried calls of the orders service: internal/gateway/orders/retrying.go.
use service_courier_platform.Prelude.{ℕ, refl, pos, true, false, eqb, if◌then◌else◌}
use service_courier_platform.Errors.{ok, err, grpc}
use service_courier_platform.Gateway.{RetryConfig, World, unavailable, retrying}
use service_courier_platform.Gateway.Retry.{Loop, retrying-Loop}

abbrev config : RetryConfig
config = record { max_attempts = pos 3; base_delay = pos 100000000; max_delay = pos 1000000000 }

-- The first call fails, the others succeed.
abbrev flaky : World ℕ
flaky = record {
  answer = λ attempt. if eqb attempt 1 then err (grpc unavailable) else ok 7;
  ended = λ attempt. false;
  woke = λ attempt. true;
}

retrying-Loop_example : Loop config flaky 3 3 1 (retrying config flaky 0)
retrying-Loop_example = retrying-Loop config flaky 2 0 refl
