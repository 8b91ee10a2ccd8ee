-- ===== src/Container.antt =====
-- The containers of the two processes: internal/app/container.go, container_ratelimit.go and
-- logger.go. A provider stands for its constructor: the types that it takes and gives, as the
-- container go.uber.org/dig keys them (a name stands before the type). dig is an argument: what a
-- container is, and what Provide and Invoke answer.
pub mod Available
pub mod Processes
pub mod Constructors
use service_courier_platform.Prelude.{String, Bool, List, [], ◌∷◌, ◌++◌, Option, none, some}
use service_courier_platform.Errors.{Err, wrap, Result, ok, err}

pub record Provider : Type 0 where
  pub needs : List String
  pub gives : List String

-- A provider, and one with a parameter struct or several results.
abbrev provider : List String → String → Provider
provider needs key = record { needs = needs; gives = key ∷ [] }

-- The providers of `registerCore`. NewLogger and config.Load are there; `provideMetrics` gives
-- its two counters under names.
abbrev pub core : List Provider
core =
    provider [] "context.Context"
    ∷ provider [] "logx.Logger"
    ∷ provider [] "*config.Config"
    ∷ record {
      needs = [];
      gives =
          "rate_limit_exceeded_total prometheus.Counter"
          ∷ "gateway_retries_total prometheus.Counter" ∷ [];
    }
    ∷ provider ("*config.Config" ∷ []) "app.autoReleaseInterval"
    ∷ []

-- `registerDb`.
abbrev pub db : List Provider
db = provider ("context.Context" ∷ "*config.Config" ∷ "logx.Logger" ∷ []) "*pgxpool.Pool" ∷ []

-- `registerDomainServices`.
abbrev pub domain_services : List Provider
domain_services =
    provider ("*pgxpool.Pool" ∷ []) "*repository.CourierRepo"
    ∷ provider ("*pgxpool.Pool" ∷ "logx.Logger" ∷ []) "*repository.DeliveryRepo"
    ∷ provider [] "time.Duration"
    ∷ provider ("*repository.CourierRepo" ∷ "time.Duration" ∷ []) "*courier.Service"
    ∷ provider [] "delivery.TimeFactory"
    ∷ provider
        ("*repository.DeliveryRepo" ∷ "time.Duration" ∷ "delivery.TimeFactory" ∷ "logx.Logger" ∷ [])
        "*delivery.Service"
    ∷ []

-- `registerHTTP`.
abbrev pub http : List Provider
http =
    provider ("logx.Logger" ∷ []) "*handlers.Handlers"
    ∷ provider ("*courier.Service" ∷ []) "handlers.courierUsecase"
    ∷ provider ("logx.Logger" ∷ "handlers.courierUsecase" ∷ []) "*handlers.CourierHandler"
    ∷ provider ("*delivery.Service" ∷ []) "handlers.deliveryUsecase"
    ∷ provider ("logx.Logger" ∷ "handlers.deliveryUsecase" ∷ []) "*handlers.DeliveryHandler"
    ∷ provider [] "ratelimit.Clock"
    ∷ provider ("*config.Config" ∷ "ratelimit.Clock" ∷ []) "ratelimit.Limiter"
    ∷ provider
        ("logx.Logger" ∷ "rate_limit_exceeded_total prometheus.Counter" ∷ "ratelimit.Limiter" ∷ [])
        "*ratelimit.Middleware"
    ∷ provider
        ("*handlers.Handlers" ∷ "*handlers.CourierHandler" ∷ "*handlers.DeliveryHandler"
          ∷ "*ratelimit.Middleware" ∷ [])
        "http.Handler"
    ∷ record {
      needs = "*config.Config" ∷ "http.Handler" ∷ [];
      gives = "*http.Server" ∷ "pprof_server *http.Server" ∷ [];
    }
    ∷ []

-- `registerWorker`.
abbrev pub worker : List Provider
worker =
    record {
      needs =
          "context.Context" ∷ "*config.Config" ∷ "logx.Logger"
          ∷ "gateway_retries_total prometheus.Counter" ∷ [];
      gives = "app.ordersGateway" ∷ "app.ordersConnCloser" ∷ [];
    }
    ∷ provider ("orders.DeliveryPort" ∷ "*repository.DeliveryRepo" ∷ []) "*orders.Processor"
    ∷ provider ("app.ordersHandler" ∷ "app.ordersGateway" ∷ []) "kafka.HandleFunc"
    ∷ provider ("*config.Config" ∷ "kafka.HandleFunc" ∷ "logx.Logger" ∷ []) "*kafka.Consumer"
    ∷ []

-- The parameters of `appRun` that are not optional, and those of `workerRun`.
abbrev pub app_run_needs : List String
app_run_needs =
    "*http.Server" ∷ "context.Context" ∷ "*pgxpool.Pool" ∷ "logx.Logger" ∷ "*delivery.Service"
    ∷ "app.autoReleaseInterval" ∷ []

abbrev pub worker_run_needs : List String
worker_run_needs =
    "context.Context" ∷ "*pgxpool.Pool" ∷ "logx.Logger" ∷ "*kafka.Consumer" ∷ "app.ordersConnCloser"
    ∷ []

-- dig: the containers, `New`, `Provide`, and `Invoke` of a function with these parameters.
pub record Dig : Type 1 where
  pub Container : Type 0
  pub new : Container
  pub provide : Provider → Container → Result Container
  pub invoke : List String → Container → Result (Unit {0})

-- The error that an Invoke answers, or nil.
unfoldable pub error_of : Result (Unit {0}) → Option Err
error_of (ok u) = none
error_of (err e) = some e

module _ (dig : Dig) where
  and_then : Result dig.Container → (dig.Container → Result dig.Container) → Result dig.Container
  and_then (ok c) f = f c
  and_then (err e) f = err e

  abbrev labelled : String → Result dig.Container → Result dig.Container
  labelled m (ok c) = ok c
  labelled m (err e) = err (wrap m e)

  -- `provideAll`.
  unfoldable pub provide_all : List Provider → dig.Container → Result dig.Container
  unfolding and_then
  provide_all [] c = ok c
  provide_all (p ∷ ps) c = and_then (labelled "provide" (dig.provide p c)) (λ d. provide_all ps d)

  -- The registrations in order, each under its label.
  unfoldable pub register : List (String × List Provider) → dig.Container → Result dig.Container
  unfolding and_then
  register [] c = ok c
  register ((m, ps) ∷ rest) c = and_then (labelled m (provide_all ps c)) (λ d. register rest d)

  -- `build` and `buildWorker`.
  unfoldable pub build : Result dig.Container
  build =
      register (("core", core) ∷ ("DB", db) ∷ ("service", domain_services) ∷ ("http", http) ∷ [])
        dig.new

  unfoldable pub build_worker : Result dig.Container
  build_worker =
      register
        (("core", core) ∷ ("DB", db) ∷ ("service", domain_services) ∷ ("worker", worker) ∷ [])
        dig.new
