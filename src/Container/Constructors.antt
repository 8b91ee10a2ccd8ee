-- ===== src/Container/Constructors.antt =====
-- The constructors that internal/app/container.go writes out: the orders gateway, the metrics, the
-- consumer and the servers, and how MustBuild ends. Dialling, the registry of metrics and the
-- consumer's constructor are arguments.
use Prim.Native.String.{◌++◌}
use service_courier_platform.Prelude.{
  ℕ, ◌*◌, ◌≡◌, ◌≢◌, ◌∙◌, sym, ap, refl, ℤ, String, false, ◌==◌, List, Option, none, some,
  trim_space, if◌then◌else◌,
}
use service_courier_platform.Handlers.Location.{format_int}
use service_courier_platform.PprofServer
use service_courier_platform.Errors.{Err, text, wrap, Result, ok, err}
use service_courier_platform.DeliveryService.{second}
use service_courier_platform.Gateway.{RetryConfig}
use service_courier_platform.Kafka.Consumer.{new_consumer, connected}
use service_courier_platform.Config.{
  Env, OrdersGateway, KafkaConfig, retry_config, order_service, load_kafka,
}
use service_courier_platform.Config.Brokers.{Named, env_Named, answered, load_kafka-IsComplete}
use service_courier_platform.Config.Limits.{PprofConfig}

-- How `MustBuild` and `MustBuildWorker` end, with the default `logFatalf`, which panics.
pub data Built (C : Type 0) : Type 0 where
  container : C → Built C
  fatal : String → Err → Built C

unfoldable pub must_build : {C : Type 0} → String → Result C → Built C
must_build message (ok c) = container c
must_build message (err e) = fatal message e

-- The gateway, over a connection, with its retries.
pub record OrdersClient (C : Type 0) : Type 0 where
  pub conn : C
  pub retries : RetryConfig

dialled : {C : Type 0} → OrdersGateway → Result C → Result (Option (OrdersClient C))
dialled settings (err e) = err (wrap "provideOrdersGateway grpc" e)
dialled settings (ok c) = ok (some (record { conn = c; retries = retry_config settings }))

-- `provideOrdersGateway`.
unfoldable pub provide_orders_gateway :
    {C : Type 0} → (String → Result C) → String → OrdersGateway → Result (Option (OrdersClient C))
unfolding dialled
provide_orders_gateway dial address settings =
    if trim_space address == "" then ok none else dialled settings (dial (trim_space address))

-- The registry's answer to a counter: it is new, another counter or another collector has its name
-- already, or there is another error.
pub data Registered (C : Type 0) : Type 0 where
  fresh : Registered C
  counter_there : C → Registered C
  other_there : Err → Registered C
  failed : Err → Registered C

register_counter : {C : Type 0} → String → C → Registered C → Result C
register_counter label own fresh = ok own
register_counter label own (counter_there c) = ok c
register_counter label own (other_there e) = err (wrap label e)
register_counter label own (failed e) = err (wrap label e)

both_counters : {C : Type 0} → Result C → Result C → Result (C × C)
both_counters (err e) b = err e
both_counters (ok a) (err e) = err e
both_counters (ok a) (ok b) = ok (a, b)

-- `provideMetrics`, of two counters and the registry's answers to them.
unfoldable pub provide_metrics : {C : Type 0} → C → C → Registered C → Registered C → Result (C × C)
unfolding register_counter both_counters
provide_metrics exceeded retries seen other =
    both_counters (register_counter "register rate_limit_exceeded_total" exceeded seen)
      (register_counter "register gateway_retries_total" retries other)

-- The worker's provider of the consumer, on what `NewConsumer` returned.
unfoldable pub provide_consumer : {G : Type 0} → Result (Option G) → Result G
provide_consumer (err e) = err e
provide_consumer (ok none) =
    err (text "kafka config is missing: worker requires KAFKA_BROKERS/KAFKA_GROUP_ID/KAFKA_TOPIC")
provide_consumer (ok (some g)) = ok g

-- An `http.Server`, with its timeouts in nanoseconds; 0 is none.
pub record Server (H : Type 0) : Type 0 where
  pub addr : String
  pub handler : H
  pub read_header_timeout : ℕ
  pub read_timeout : ℕ
  pub write_timeout : ℕ
  pub idle_timeout : ℕ

abbrev main_server : {H : Type 0} → ℤ → H → Server H
main_server port mux = record {
  addr = ":" ++ format_int port;
  handler = mux;
  read_header_timeout = 5 * second;
  read_timeout = 15 * second;
  write_timeout = 15 * second;
  idle_timeout = 60 * second;
}

abbrev pprof_server : PprofConfig → Server (PprofServer.Request → PprofServer.Reply)
pprof_server cfg = record {
  addr = cfg.addr;
  handler = PprofServer.handler (record { user = cfg.user; pass = cfg.pass });
  read_header_timeout = 5 * second;
  read_timeout = 0;
  write_timeout = 0;
  idle_timeout = 60 * second;
}

-- `serverProvider`: the server of the service, and the one for profiles.
unfoldable pub servers :
    {H : Type 0}
    → ℤ
    → PprofConfig
    → H
    → Server H × Option (Server (PprofServer.Request → PprofServer.Reply))
servers port pprof mux =
    (main_server port mux, if pprof.enabled then some (pprof_server pprof) else none)

default_address : Named "localhost:50051"
unfolding trim_space
default_address = refl

dialled_some : {C : Type 0} (settings : OrdersGateway) (r : Result C) → dialled settings r ≢ ok none
unfolding dialled
dialled_some settings (ok c) h = cc
dialled_some settings (err e) h = cc

not_blank :
    {C : Type 0} (dial : String → Result C) (address : String) (settings : OrdersGateway)
    → (trim_space address == "") ≡ false
    → provide_orders_gateway dial address settings ≡ dialled settings (dial (trim_space address))
unfolding provide_orders_gateway
not_blank dial address settings h = rw h refl

provided : {G : Type 0} (r : Result G) → provide_consumer (connected r) ≡ r
unfolding provide_consumer connected
provided (ok g) = refl
provided (err e) = refl

-- The address that `Load` sets is never blank, so the worker always has the gateway, with the
-- settings of its retries, or the error of dialling it: it never handles an event by what the
-- event alone says.
pub provide_orders_gateway-order_service :
    {C : Type 0} (dial : String → Result C) (env : Env) (settings : OrdersGateway)
    → provide_orders_gateway dial (order_service env) settings ≢ ok none
unfolding order_service
provide_orders_gateway-order_service dial env settings h =
    let address = order_service env in
    let named : (trim_space address == "") ≡ false =
      env_Named env "ORDER_SERVICE_HOST" "localhost:50051" default_address in
    dialled_some settings (dial (trim_space address))
      (sym (not_blank dial address settings named) ∙ h)

-- With the settings that `loadKafka` accepts, the worker's consumer is there, or the error is that
-- of its group: never that the configuration is missing.
pub provide_consumer-load_kafka :
    {G : Type 0} (new_group : List String → String → Result G) (env : Env) {k : KafkaConfig}
    → load_kafka env ≡ ok k
    → provide_consumer (new_consumer new_group k.brokers k.group_id k.topic)
      ≡ new_group k.brokers k.group_id
provide_consumer-load_kafka new_group env {k} h =
    let c = load_kafka-IsComplete env h in
    ap provide_consumer
      (answered new_group k.brokers k.group_id k.topic c.some_broker c.topic c.group_id)
    ∙ provided (new_group k.brokers k.group_id)
