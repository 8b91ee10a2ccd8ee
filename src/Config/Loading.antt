-- ===== src/Config/Loading.antt =====
-- Load of internal/config/config.go: the settings of both processes. The file `.env`, the command
-- line, the files of secrets and the readers of durations and floats are arguments.
use Prim.Native.String.{◌++◌}
use service_courier_platform.Prelude.{
  ◌≡◌, subst, ℤ, pos, String, Bool, true, false, Option, none, some, leb_ℤ, ltb_ℤ, Bool-cases, inl,
  inr,
}
use service_courier_platform.Errors.{Err, wrap, Result, ok, err, ok_inj, err_ok}
use service_courier_platform.RateLimit.{Float64}
use service_courier_platform.Config.{
  Env, OrdersGateway, KafkaConfig, DbConfig, parse_port, parse_db, parse_delivery, order_service,
  parse_orders_gateway, load_kafka, port_of, port_setting,
}
use service_courier_platform.Config.Limits.{
  PprofConfig, RateLimitConfig, parse_pprof, parse_rate_limit, IsKept, parse_rate_limit-IsKept,
}
use service_courier_platform.Config.Variables.{then_read, then_read_ok}
use service_courier_platform.Config.Gateways.{IsUsable, parse_orders_gateway-IsUsable}
use service_courier_platform.Config.Brokers.{IsComplete, load_kafka-IsComplete}

-- `DB.DSN`.
unfoldable pub dsn : DbConfig → String
dsn db =
    "postgres://" ++ db.user ++ ":" ++ db.pass ++ "@" ++ db.host ++ ":" ++ db.port ++ "/" ++ db.name
    ++ "?sslmode=disable"

-- `parsePort` accepts a TCP port.
pub record IsPort (p : ℤ) : Type 0 where
  pub above : leb_ℤ p (pos 0) ≡ false
  pub below : ltb_ℤ (pos 65535) p ≡ false

port_of-IsPort : (r : Result ℤ) {p : ℤ} → port_of r ≡ ok p → IsPort p
unfolding port_of
port_of-IsPort (err e) h = cc
port_of-IsPort (ok n) {p} h = elim (Bool-cases (leb_ℤ n (pos 0))) [
  | inl e ↦ absurd (err_ok (rw e at h))
  | inr e ↦ elim (Bool-cases (ltb_ℤ (pos 65535) n)) [
    | inl f ↦ absurd (err_ok (rw (e, f) at h))
    | inr f ↦
        let same : n ≡ p = ok_inj (rw (e, f) at h) in
        subst IsPort same (record { above = e; below = f })
  ]
]

parse_port-IsPort :
    (env : Env) (flags : ℤ → Result ℤ) {p : ℤ} → parse_port env flags ≡ ok p → IsPort p
unfolding parse_port
parse_port-IsPort env flags h = port_of-IsPort (flags (port_setting (env "PORT"))) h

-- What `godotenv.Load` answers, where the file is there or not.
loaded_env : Option Err → Result (Unit {0})
loaded_env none = ok tt
loaded_env (some e) = err (wrap "load .env" e)

module _ (F : Float64) (parse_float : String → Result F.Carrier)
    (parse_duration : String → Result ℤ) (read_file : String → Result String)
    (is_not_exist : Err → Bool) (flags : ℤ → Result ℤ) (env : Env) where
  abbrev Limits : Type 0
  Limits = RateLimitConfig F parse_float parse_duration env

  pub record Config : Type 0 where
    pub port : ℤ
    pub db : DbConfig
    pub auto_release_interval : ℤ
    pub order_service : String
    pub orders_gateway : OrdersGateway
    pub kafka : KafkaConfig
    pub pprof : PprofConfig
    pub rate_limit : Limits

  -- `Load`, with the error of `godotenv.Load` where it is not the one of a missing file. The first
  -- error ends it.
  unfoldable pub load : Option Err → Result Config
  unfolding loaded_env
  load dotenv = then_read (loaded_env dotenv) (λ _. then_read (parse_port env flags) (λ port.
      then_read (parse_db read_file is_not_exist env) (λ db.
        then_read (parse_delivery parse_duration env) (λ interval.
          then_read (parse_orders_gateway parse_duration env) (λ gateway.
            then_read (load_kafka env) (λ kafka. then_read (parse_pprof env) (λ pprof.
              then_read (parse_rate_limit F parse_float parse_duration env) (λ limits. ok (record {
                port = port;
                db = db;
                auto_release_interval = interval;
                order_service = order_service env;
                orders_gateway = gateway;
                kafka = kafka;
                pprof = pprof;
                rate_limit = limits;
              })))))))))

  -- Settings that the processes can run with.
  pub record IsSettled (c : Config) : Type 0 where
    pub port : IsPort c.port
    pub gateway : IsUsable c.orders_gateway
    pub kafka : IsComplete c.kafka
    pub limits : IsKept F parse_float parse_duration env c.rate_limit.limits

  -- What `Load` accepts has a TCP port; one to ten attempts at the orders service, with delays of
  -- more than 0 and in order; Kafka brokers, a topic and a group with names; and a rate of more than
  -- 0, a burst of at least 1, and a time to live and a number of buckets of at least 0. Of float64
  -- this needs that 0 is below 5.
  pub load-IsSettled :
      (dotenv : Option Err) {c : Config}
      → F.lt (F.of_int 0) (F.of_int 5) ≡ true
      → load dotenv ≡ ok c
      → IsSettled c
  unfolding load
  load-IsSettled dotenv five h =
      let (u, d, h0) = then_read_ok (loaded_env dotenv) _ h in
      let (port, p, h1) = then_read_ok (parse_port env flags) _ h0 in
      let (db, b, h2) = then_read_ok (parse_db read_file is_not_exist env) _ h1 in
      let (interval, i, h3) = then_read_ok (parse_delivery parse_duration env) _ h2 in
      let (gateway, g, h4) = then_read_ok (parse_orders_gateway parse_duration env) _ h3 in
      let (kafka, k, h5) = then_read_ok (load_kafka env) _ h4 in
      let (pprof, q, h6) = then_read_ok (parse_pprof env) _ h5 in
      let (limits, l, h7) = then_read_ok (parse_rate_limit F parse_float parse_duration env) _ h6 in
      subst IsSettled (ok_inj h7) (record {
        port = parse_port-IsPort env flags p;
        gateway = parse_orders_gateway-IsUsable parse_duration env g;
        kafka = load_kafka-IsComplete env k;
        limits = parse_rate_limit-IsKept F parse_float parse_duration env five l;
      })
