-- ===== src/Examples/Serving.antt =====
-- Requests to the two servers, and the settings that they start with: internal/http, internal/config.
use service_courier_platform.Prelude.{
  ◌≡◌, ◌↔◌, refl, ℕ, suc, ◌+◌, ◌*◌, ◌<◌, ℤ, pos, negsuc, String, ◌==◌, Bool, true, false, ltb_ℤ,
  List, [], ◌∷◌, All, map, length, Option, none, some, if◌then◌else◌, arith,
}
use service_courier_platform.Errors.{Result, ok, err, text}
use service_courier_platform.Domain.{Time}
use service_courier_platform.Database.{Db}
use service_courier_platform.RateLimit.{Limiter, allow, new, find_bucket}
use service_courier_platform.RateLimit.Addresses.{admitted_of, admitted_of-Different}
use service_courier_platform.Handlers.{malformed}
use service_courier_platform.Middleware.{Front}
use service_courier_platform.System.{migrated}
use service_courier_platform.Config.{Env}
use service_courier_platform.Config.Limits.{
  RateLimitConfig, parse_rate_limit, default_limits, new-parse_rate_limit,
}
use service_courier_platform.Config.Loading.{Config, load, IsSettled, load-IsSettled}
use service_courier_platform.PprofServer
use service_courier_platform.PprofServer.{served, unauthorized, route}
use service_courier_platform.PprofServer.Access.{Allowed, handler_iff}
use service_courier_platform.Router
use service_courier_platform.Observability.{observability, unmatched, observability-unmatched}
use service_courier_platform.Examples.{noon}
use service_courier_platform.Examples.Limits.{thousandths, thousandths-Counts, limiter}
use service_courier_platform.Examples.Requests.{clara_body, order_body}
use service_courier_platform.Examples.Settings.{durations}

-- No variable is set, and there are no files.
abbrev unset : Env
unset key = ""

abbrev floats : String → Result ℕ
floats s = if s == "5" then ok 5000 else err (text "invalid float")

abbrev files : String → Result String
files path = err (text "no such file")

abbrev flags : ℤ → Result ℤ
flags port = ok port

above_zero : (v : ℕ) → thousandths.lt 0 v ≡ true → thousandths.le v 0 ≡ false
above_zero v h = ground arith

abbrev limits : RateLimitConfig thousandths floats durations unset
limits = record { enabled = true; limits = default_limits thousandths floats durations unset }

limits_read : parse_rate_limit thousandths floats durations unset ≡ ok limits
unfolding parse_rate_limit service_courier_platform.Config.Variables.env_bool
    service_courier_platform.Config.Variables.parse_bool
    service_courier_platform.Config.env_or_default service_courier_platform.Prelude.trim_space
    service_courier_platform.Config.Variables.env_read
    service_courier_platform.Config.Variables.env_int
    service_courier_platform.Handlers.Numbers.parse_int
    service_courier_platform.Config.Durations.parse_duration
limits_read = refl

new-parse_rate_limit_example : (new thousandths limits.limits).cfg ≡ limits.limits
new-parse_rate_limit_example =
    new-parse_rate_limit thousandths floats durations unset refl above_zero limits_read

abbrev settings : Config thousandths floats durations files (λ e. true) flags unset
settings = record {
  port = pos 8080;
  db = record {
    host = "127.0.0.1";
    port = "5432";
    user = "myuser";
    pass = "mypassword";
    name = "test_db";
  };
  auto_release_interval = pos 10000000000;
  order_service = "localhost:50051";
  orders_gateway = record {
    max_attempts = pos 4;
    base_delay = pos 150000000;
    max_delay = pos 200000000;
  };
  kafka = record {
    brokers = "kafka:9092" ∷ [];
    topic = "order.status.changed";
    group_id = "service-courier";
  };
  pprof = record { enabled = false; addr = "127.0.0.1:6060"; user = ""; pass = "" };
  rate_limit = limits;
}

loaded : load thousandths floats durations files (λ e. true) flags unset none ≡ ok settings
unfolding load service_courier_platform.Config.parse_port service_courier_platform.Config.parse_db
    service_courier_platform.Config.read_secret_from_file
    service_courier_platform.Prelude.trim_space service_courier_platform.Handlers.Numbers.parse_int
    service_courier_platform.Config.env_or_default service_courier_platform.Config.parse_delivery
    service_courier_platform.Config.parse_orders_gateway service_courier_platform.Config.load_kafka
    service_courier_platform.Config.Limits.parse_pprof
    service_courier_platform.Config.Variables.env_bool
    service_courier_platform.Config.Variables.parse_bool parse_rate_limit
    service_courier_platform.Config.Variables.env_read
    service_courier_platform.Config.Variables.env_int service_courier_platform.Config.order_service
    service_courier_platform.Config.Durations.parse_duration
loaded = refl

load-IsSettled_example :
    IsSettled thousandths floats durations files (λ e. true) flags unset settings
load-IsSettled_example =
    load-IsSettled thousandths floats durations files (λ e. true) flags unset none refl loaded

-- A client on another host, with the password.
abbrev operator : PprofServer.Config
operator = record { user = "ops"; pass = "secret" }

abbrev heap : PprofServer.Request
heap = record {
  remote_addr = "10.0.0.7:41000";
  basic_auth = some ("ops", "secret");
  path = "/debug/pprof/heap";
}

handler_iff_example :
    ((PprofServer.handler operator heap ≡ served (route heap.path)) ↔ Allowed operator heap)
    × ((PprofServer.handler operator heap ≡ unauthorized) ↔ ¬ Allowed operator heap)
handler_iff_example = handler_iff operator heap

-- Requests of one client: the fourth is too many.
abbrev request : Router.Route → Router.Request
request target = record {
  route = target;
  remote_addr = "10.0.0.1:51234";
  now = noon;
  id = "1";
  limit = "";
  offset = "";
  new_courier = clara_body;
  courier_update = record { first = malformed; at_end = true };
  delivery = order_body;
}

abbrev at_door : Option (Time → String → Limiter thousandths → Bool × Limiter thousandths)
at_door = some (λ now key l. allow thousandths key now l)

abbrev front : Front (Limiter thousandths) Db
front = record { limiter = limiter; exceeded = 0; inner = migrated }

abbrev paths : List String
paths = "/a" ∷ "/b" ∷ "/c" ∷ []

observability-unmatched_example : length (observability (map unmatched paths) []) ≡ length paths
observability-unmatched_example =
    observability-unmatched paths ((refl, (refl, tt)), ((refl, tt), (tt, tt)))

-- Three requests under three keys, with the default limits.
abbrev keys : List String
keys = "10.0.0.1" ∷ "10.0.0.2" ∷ "10.0.0.3" ∷ []

admitted_of-Different_example :
    admitted_of thousandths noon keys (new thousandths limits.limits) ≡ length keys
unfolding new find_bucket
admitted_of-Different_example =
    admitted_of-Different thousandths noon thousandths-Counts 4 (omega arith) keys
      (new thousandths limits.limits) refl refl ((refl, (refl, tt)), ((refl, tt), (tt, tt)))
      (refl, (refl, (refl, tt)))
