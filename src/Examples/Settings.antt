-- ===== src/Examples/Settings.antt =====
-- Settings from a small environment: internal/config/config.go.
use service_courier_platform.Prelude.{
  ℕ, ◌<◌, ◌≤◌, ◌≡◌, ◌≢◌, refl, ℤ, pos, String, ◌==◌, Bool, List, [], ◌∷◌, Option, none,
  if◌then◌else◌,
}
use service_courier_platform.Errors.{Result, ok, err, grpc}
use service_courier_platform.Gateway.{World, unavailable, retrying}
use service_courier_platform.Config.Durations.{parse_duration, exact}
use service_courier_platform.Config.{
  Env, OrdersGateway, KafkaConfig, retry_config, parse_orders_gateway, load_kafka,
}
use service_courier_platform.Config.Gateways.{configured_calls}

abbrev environment : Env
environment key =
    if key == "ORDER_GATEWAY_MAX_ATTEMPTS"
    then " 3 "
    else if key == "KAFKA_BROKERS"
    then "kafka-1:9092, ,kafka-2:9092"
    else ""

abbrev pub durations : String → Result ℤ
durations s = parse_duration exact s

abbrev gateway : OrdersGateway
gateway = record { max_attempts = pos 3; base_delay = pos 150000000; max_delay = pos 200000000 }

gateway_accepted : parse_orders_gateway durations environment ≡ ok gateway
unfolding parse_orders_gateway service_courier_platform.Handlers.Numbers.parse_int
    service_courier_platform.Config.env_or_default service_courier_platform.Prelude.trim_space
    parse_duration
gateway_accepted = refl

-- The orders service is down.
abbrev down : World ℕ
down = record {
  answer = λ attempt. err (grpc unavailable);
  ended = λ attempt. Bool.false;
  woke = λ attempt. Bool.true;
}

configured_calls_example :
    (0 < (retrying (retry_config gateway) down 0).calls)
    × ((retrying (retry_config gateway) down 0).calls ≤ 10)
configured_calls_example = configured_calls durations environment down 0 gateway_accepted
