-- ===== src/Config.antt =====
-- The settings: internal/config (config.go, defaults.go). The environment, the files, the command
-- line, `time.ParseDuration` and `strconv.ParseFloat` are arguments. The texts of errors are labels.
pub mod Variables
pub mod Limits
pub mod Loading
pub mod Durations
pub mod Gateways
pub mod Brokers
use Prim.Native.Char.{Char, code}
use service_courier_platform.Prelude.{
  ℕ, ℤ, pos, String, Bool, true, false, not, ◌&&◌, ◌||◌, ◌==◌, List, [], ◌∷◌, Option, none, some,
  eqb, leb_ℤ, ltb_ℤ, if◌then◌else◌, trim_space,
}
use service_courier_platform.Errors.{Err, text, wrap, Result, ok, err}
use service_courier_platform.Domain.{Time}
use service_courier_platform.Gateway.{RetryConfig}
use service_courier_platform.Handlers.Numbers.{parse_int}

-- `os.Getenv`; a variable that is not set is the empty text.
abbrev pub Env : Type 0
Env = String → String

unfoldable pub env_or_default : Env → String → String → String
env_or_default env key default = let v = trim_space (env key) in if v == "" then default else v

pub record OrdersGateway : Type 0 where
  pub max_attempts : ℤ
  pub base_delay : ℤ
  pub max_delay : ℤ

-- The settings as the retrying gateway takes them.
abbrev pub retry_config : OrdersGateway → RetryConfig
retry_config g = record {
  max_attempts = g.max_attempts;
  base_delay = g.base_delay;
  max_delay = g.max_delay;
}

abbrev pub invalid_setting : {A : Type 0} → String → Result A
invalid_setting key = err (text key)

-- A duration that is more than 0.
pub delay_of : String → Result ℤ → Result ℤ
delay_of key (err e) = err (wrap key e)
delay_of key (ok d) = if leb_ℤ d (pos 0) then invalid_setting key else ok d

pub attempts_of : Option ℤ → Result ℤ
attempts_of none = invalid_setting "ORDER_GATEWAY_MAX_ATTEMPTS"
attempts_of (some n) =
    if ltb_ℤ n (pos 1) || ltb_ℤ (pos 10) n
    then invalid_setting "ORDER_GATEWAY_MAX_ATTEMPTS"
    else ok n

pub gateway_of : Result ℤ → Result ℤ → Result ℤ → Result OrdersGateway
gateway_of (err e) base max = err e
gateway_of (ok n) (err e) max = err e
gateway_of (ok n) (ok base) (err e) = err e
gateway_of (ok n) (ok base) (ok max) =
    if ltb_ℤ max base
    then invalid_setting "ORDER_GATEWAY_MAX_DELAY"
    else ok (record { max_attempts = n; base_delay = base; max_delay = max })

unfoldable pub interval_of : Result ℤ → Result ℤ
interval_of (err e) = err (wrap "DELIVERY_AUTO_RELEASE_INTERVAL" e)
interval_of (ok d) = ok d

-- The address of the orders service.
unfoldable pub order_service : Env → String
order_service env = env_or_default env "ORDER_SERVICE_HOST" "localhost:50051"

module _ (parse_duration : String → Result ℤ) where
  -- `parseOrdersGateway`, its settings.
  unfoldable pub parse_orders_gateway : Env → Result OrdersGateway
  unfolding delay_of attempts_of gateway_of
  parse_orders_gateway env =
      gateway_of (attempts_of (parse_int (env_or_default env "ORDER_GATEWAY_MAX_ATTEMPTS" "4")))
        (delay_of "ORDER_GATEWAY_BASE_DELAY"
          (parse_duration (env_or_default env "ORDER_GATEWAY_BASE_DELAY" "150ms")))
        (delay_of "ORDER_GATEWAY_MAX_DELAY"
          (parse_duration (env_or_default env "ORDER_GATEWAY_MAX_DELAY" "200ms")))

  -- `parseDelivery`.
  unfoldable pub parse_delivery : Env → Result ℤ
  unfolding interval_of
  parse_delivery env =
      interval_of (parse_duration (env_or_default env "DELIVERY_AUTO_RELEASE_INTERVAL" "10s"))

-- The parts of a text between commas: `strings.Split`.
pub split_first : String → String × List String
split_first String.[] = (String.[], [])
split_first (String.◌∷◌ c s) =
    let (part, parts) = split_first s in
    if eqb (code c) b',' then (String.[], part ∷ parts) else (String.◌∷◌ c part, parts)

-- The loop that trims the parts and drops empty ones.
pub brokers_of : List String → List String
brokers_of [] = []
brokers_of (b ∷ bs) =
    let rest = brokers_of bs in if trim_space b == "" then rest else trim_space b ∷ rest

pub record KafkaConfig : Type 0 where
  pub brokers : List String
  pub topic : String
  pub group_id : String

pub split_brokers : String → List String
split_brokers csv = let (part, parts) = split_first csv in brokers_of (part ∷ parts)

pub kafka_of : Env → List String → Result KafkaConfig
kafka_of env [] = err (text "KAFKA_BROKERS")
kafka_of env (b ∷ bs) = ok (record {
  brokers = b ∷ bs;
  topic = env_or_default env "KAFKA_ORDER_TOPIC" "order.status.changed";
  group_id = env_or_default env "KAFKA_GROUP_ID" "service-courier";
})

-- `loadKafka`.
unfoldable pub load_kafka : Env → Result KafkaConfig
unfolding split_first brokers_of split_brokers kafka_of
load_kafka env = kafka_of env (split_brokers (env_or_default env "KAFKA_BROKERS" "kafka:9092"))

-- The variable PORT, where it is a number, and else the default.
pub port_setting : String → ℤ
port_setting v = if v == "" then pos 8080 else elim (parse_int v) [ none ↦ pos 8080 | some p ↦ p ]

pub port_of : Result ℤ → Result ℤ
port_of (err e) = err (wrap "parse flags" e)
port_of (ok p) = if leb_ℤ p (pos 0) || ltb_ℤ (pos 65535) p then invalid_setting "port" else ok p

-- `parsePort`, with the flag's value given its default.
unfoldable pub parse_port : Env → (ℤ → Result ℤ) → Result ℤ
unfolding port_setting port_of
parse_port env flags = port_of (flags (port_setting (env "PORT")))

pub record DbConfig : Type 0 where
  pub host : String
  pub port : String
  pub user : String
  pub pass : String
  pub name : String

module _ (read_file : String → Result String) (is_not_exist : Err → Bool) where
  secret_of : String → Result String → Result (Option String)
  secret_of key (err e) = err (wrap key e)
  secret_of key (ok content) = ok (some (trim_space content))

  -- `readSecretFromFile`.
  unfoldable pub read_secret_from_file : Env → String → Result (Option String)
  unfolding secret_of
  read_secret_from_file env key =
      let path = trim_space (env key) in
      if path == "" then ok none else secret_of key (read_file path)

  pass_of : String → Result (Option String) → Result String
  pass_of pass (err e) = if not (is_not_exist e) || trim_space pass == "" then err e else ok pass
  pass_of pass (ok none) = ok pass
  pass_of pass (ok (some secret)) = ok secret

  db_of : Env → Result String → Result DbConfig
  db_of env (err e) = err e
  db_of env (ok pass) =
      let port = env_or_default env "POSTGRES_PORT" "5432" in
      elim (parse_int port) [
        | none ↦ invalid_setting "POSTGRES_PORT"
        | some n ↦ ok (record {
          host = env_or_default env "POSTGRES_HOST" "127.0.0.1";
          port = port;
          user = env_or_default env "POSTGRES_USER" "myuser";
          pass = pass;
          name = env_or_default env "POSTGRES_DB" "test_db";
        })
      ]

  -- `parseDB`.
  unfoldable pub parse_db : Env → Result DbConfig
  unfolding pass_of db_of
  parse_db env = db_of env (
      pass_of (env_or_default env "POSTGRES_PASSWORD" "mypassword")
        (read_secret_from_file env "POSTGRES_PASSWORD_FILE"))
