-- ===== src/Config/Limits.antt =====
-- parsePprof and parseRateLimit of internal/config/config.go, and what the limiter of
-- internal/http/middleware/ratelimit makes of the settings.
use service_courier_platform.Prelude.{
  arith, ◌≡◌, refl, subst, ℤ, pos, ◌*◌, String, Bool, true, false, ◌&&◌, ◌==◌, leb_ℤ, ltb_ℤ,
  if◌then◌else◌, trim_space,
}
use service_courier_platform.Errors.{Result, ok, err, ok_inj}
use service_courier_platform.DeliveryService.{minute}
use service_courier_platform.RateLimit.{Float64, Config, new}
use service_courier_platform.Config.{Env, env_or_default}
use service_courier_platform.Config.Variables.{
  env_bool, env_int, env_read, env_int_passes, env_read_passes, then_read, then_read_ok,
}

pub record PprofConfig : Type 0 where
  pub enabled : Bool
  pub addr : String
  pub user : String
  pub pass : String

pprof_of : Env → Result Bool → Result PprofConfig
pprof_of env (err e) = err e
pprof_of env (ok enabled) =
    let addr = trim_space (env_or_default env "PPROF_ADDR" "127.0.0.1:6060") in
    ok (record {
      enabled = enabled;
      addr = if enabled && addr == "" then "127.0.0.1:6060" else addr;
      user = trim_space (env "PPROF_USER");
      pass = trim_space (env "PPROF_PASS");
    })

-- `parsePprof`.
unfoldable pub parse_pprof : Env → Result PprofConfig
unfolding pprof_of
parse_pprof env = pprof_of env (env_bool env "PPROF_ENABLED" false)

module _ (F : Float64) (parse_float : String → Result F.Carrier)
    (parse_duration : String → Result ℤ) (env : Env) where
  -- The settings, and whether requests are limited at all.
  pub record RateLimitConfig : Type 0 where
    pub enabled : Bool
    pub limits : Config F

  -- `defaultRateLimit`, apart from the switch.
  abbrev pub default_limits : Config F
  default_limits = record {
    rate = F.of_int 5;
    burst = pos 5;
    ttl = pos (10 * minute);
    max_buckets = pos 0;
  }

  abbrev pub not_negative : ℤ → Bool
  not_negative n = leb_ℤ (pos 0) n

  read_limits : Result (Config F)
  read_limits =
      then_read (env_read parse_float env "RATE_LIMIT_RATE" "5" (λ v. F.lt (F.of_int 0) v)) (λ rate.
        then_read (env_int env "RATE_LIMIT_BURST" "5" (λ v. leb_ℤ (pos 1) v)) (λ burst.
          then_read (env_read parse_duration env "RATE_LIMIT_TTL" "10m0s" not_negative) (λ ttl.
            then_read (env_int env "RATE_LIMIT_MAX_BUCKETS" "0" not_negative)
              (λ most. ok (record { rate = rate; burst = burst; ttl = ttl; max_buckets = most })))))

  limited : Bool → Result RateLimitConfig
  unfolding read_limits
  limited enabled =
      if enabled
      then then_read read_limits (λ c. ok (record { enabled = true; limits = c }))
      else ok (record { enabled = false; limits = default_limits })

  -- `parseRateLimit`.
  unfoldable pub parse_rate_limit : Result RateLimitConfig
  unfolding limited
  parse_rate_limit = then_read (env_bool env "RATE_LIMIT_ENABLED" true) limited

  -- Limits that a limiter keeps.
  pub record IsKept (c : Config F) : Type 0 where
    pub rate : F.lt (F.of_int 0) c.rate ≡ true
    pub burst : leb_ℤ (pos 1) c.burst ≡ true
    pub ttl : leb_ℤ (pos 0) c.ttl ≡ true
    pub max_buckets : leb_ℤ (pos 0) c.max_buckets ≡ true

  read_limits-IsKept : {c : Config F} → read_limits ≡ ok c → IsKept c
  unfolding read_limits
  read_limits-IsKept h =
      let (rate, r, h1) = then_read_ok (env_read parse_float env "RATE_LIMIT_RATE" "5" _) _ h in
      let (burst, b, h2) = then_read_ok (env_int env "RATE_LIMIT_BURST" "5" _) _ h1 in
      let (ttl, t, h3) =
        then_read_ok (env_read parse_duration env "RATE_LIMIT_TTL" "10m0s" _) _ h2 in
      let (most, m, h4) = then_read_ok (env_int env "RATE_LIMIT_MAX_BUCKETS" "0" _) _ h3 in
      subst IsKept (ok_inj h4) (record {
        rate = env_read_passes parse_float env "RATE_LIMIT_RATE" "5" _ r;
        burst = env_int_passes env "RATE_LIMIT_BURST" "5" _ b;
        ttl = env_read_passes parse_duration env "RATE_LIMIT_TTL" "10m0s" _ t;
        max_buckets = env_int_passes env "RATE_LIMIT_MAX_BUCKETS" "0" _ m;
      })

  limited-IsKept :
      (enabled : Bool) {c : RateLimitConfig}
      → F.lt (F.of_int 0) (F.of_int 5) ≡ true
      → limited enabled ≡ ok c
      → IsKept c.limits
  unfolding limited
  limited-IsKept true five h =
      let (limits, r, e) = then_read_ok read_limits _ h in
      subst (λ x. IsKept x.limits) (ok_inj e) (read_limits-IsKept r)
  limited-IsKept false five h =
      subst (λ x. IsKept x.limits) (ok_inj h)
        (record { rate = five; burst = refl; ttl = refl; max_buckets = refl })

  new-IsKept :
      (c : Config F)
      → ((v : F.Carrier) → F.lt (F.of_int 0) v ≡ true → F.le v (F.of_int 0) ≡ false)
      → IsKept c
      → (new F c).cfg ≡ c
  unfolding new
  new-IsKept c less k =
      let burst : leb_ℤ c.burst (pos 0) ≡ false = some_burst c.burst k.burst in
      let most : ltb_ℤ c.max_buckets (pos 0) ≡ false = some_buckets c.max_buckets k.max_buckets in
      rw (less c.rate k.rate, burst, most) refl
    where
      some_burst : (n : ℤ) → leb_ℤ (pos 1) n ≡ true → leb_ℤ n (pos 0) ≡ false
      some_burst n h = ground arith

      some_buckets : (n : ℤ) → leb_ℤ (pos 0) n ≡ true → ltb_ℤ n (pos 0) ≡ false
      some_buckets n h = ground arith

  pub parse_rate_limit-IsKept :
      {c : RateLimitConfig}
      → F.lt (F.of_int 0) (F.of_int 5) ≡ true
      → parse_rate_limit ≡ ok c
      → IsKept c.limits
  unfolding parse_rate_limit
  parse_rate_limit-IsKept five h =
      let (enabled, e, k) = then_read_ok (env_bool env "RATE_LIMIT_ENABLED" true) limited h in
      limited-IsKept enabled five k

  -- Limits that `parseRateLimit` accepts are what `NewTokenBucketLimiter` limits by: it replaces
  -- none of them by a default of its own. Of float64 this needs that 0 is below 5, and that what is
  -- above 0 is not at most 0.
  pub new-parse_rate_limit :
      {c : RateLimitConfig}
      → F.lt (F.of_int 0) (F.of_int 5) ≡ true
      → ((v : F.Carrier) → F.lt (F.of_int 0) v ≡ true → F.le v (F.of_int 0) ≡ false)
      → parse_rate_limit ≡ ok c
      → (new F c.limits).cfg ≡ c.limits
  new-parse_rate_limit {c} five less h = new-IsKept c.limits less (parse_rate_limit-IsKept five h)
