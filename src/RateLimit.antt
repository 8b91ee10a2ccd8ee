-- ===== src/RateLimit.antt =====
-- The rate limiter: internal/http/middleware/ratelimit/token_bucket_limiter.go, nop_limiter.go.
-- The locks make each call of Allow one step. Floating-point numbers are a parameter.
pub mod Table
pub mod Isolation
pub mod Spending
pub mod Admission
pub mod Bounds
pub mod Addresses
use service_courier_platform.Prelude.{
  ℕ, ◌+◌, ◌-◌, ◌/◌, ℤ, pos, pos_part, String, ◌==◌, Bool, true, false, not, ◌&&◌, List, [], ◌∷◌,
  Option, none, some, length, keep, ltb, leb, eqb, leb_ℤ, ltb_ℤ, if◌then◌else◌,
}
use service_courier_platform.Domain.{Time}
use service_courier_platform.DeliveryService.{second, minute}

-- What the limiter uses of float64: `float64(n)` of an int, `Duration.Seconds`, and the operations.
pub record Float64 : Type 1 where
  pub Carrier : Type 0
  pub of_int : ℕ → Carrier
  pub seconds : ℕ → Carrier
  pub add : Carrier → Carrier → Carrier
  pub sub : Carrier → Carrier → Carrier
  pub mul : Carrier → Carrier → Carrier
  pub div : Carrier → Carrier → Carrier
  pub lt : Carrier → Carrier → Bool
  pub le : Carrier → Carrier → Bool

-- `time.Minute`, or half the TTL where that is longer.
abbrev pub cleanup_interval : ℕ → ℕ
cleanup_interval ttl = if ltb minute (ttl / 2) then ttl / 2 else minute

-- `NopLimiter.Allow`.
unfoldable pub nop_allow : String → Bool
nop_allow key = true

module _ (F : Float64) where
  open F use {Carrier, of_int, seconds, add, sub, mul, div, lt, le}

  -- `Config`; TTL is a Duration and the two ints may be negative.
  pub record Config : Type 0 where
    pub rate : Carrier
    pub burst : ℤ
    pub ttl : ℤ
    pub max_buckets : ℤ

  pub record Bucket : Type 0 where
    pub tokens : Carrier
    pub last : Time
    pub last_seen : Time

  pub record Limiter : Type 0 where
    pub cfg : Config
    pub buckets : List (String × Bucket)
    pub last_cleanup : Time

  abbrev pub one : Carrier
  one = of_int 1

  -- `NewTokenBucketLimiter`, with a clock.
  unfoldable pub new : Config → Limiter
  new cfg = record {
    cfg = record {
      rate = if le cfg.rate (of_int 0) then one else cfg.rate;
      burst = if leb_ℤ cfg.burst (pos 0) then pos 1 else cfg.burst;
      ttl = cfg.ttl;
      max_buckets = if ltb_ℤ cfg.max_buckets (pos 0) then pos 0 else cfg.max_buckets;
    };
    buckets = [];
    last_cleanup = 0;
  }

  -- `NewTokenBucketPerWindow`.
  unfoldable pub new_per_window : ℤ → ℤ → ℤ → ℤ → Limiter
  unfolding new
  new_per_window limit window ttl max_buckets =
      let width = if leb_ℤ window (pos 0) then second else pos_part window in
      let most = if leb_ℤ limit (pos 0) then pos 1 else limit in
      new (record {
        rate = div (of_int (pos_part most)) (seconds width);
        burst = most;
        ttl = ttl;
        max_buckets = max_buckets;
      })

  -- The tokens that the time since `last` brings, up to the burst.
  refill : Time → Carrier → Carrier → Bucket → Bucket
  refill now rate burst b =
      let t = add b.tokens (mul (seconds (now - b.last)) rate) in
      if ltb b.last now
      then record b { tokens = if lt burst t then burst else t; last = now }
      else b

  -- The end of `bucket.allow`, on the bucket that has been seen now.
  spend : Bucket → Bool × Bucket
  spend b = if lt b.tokens one then (false, b) else (true, record b { tokens = sub b.tokens one })

  -- `bucket.allow`.
  unfoldable pub bucket_allow : Time → Carrier → Carrier → Bucket → Bool × Bucket
  unfolding refill spend
  bucket_allow now rate burst b = spend (record (refill now rate burst b) { last_seen = now })

  unfoldable pub find_bucket : String → List (String × Bucket) → Option Bucket
  find_bucket key [] = none
  find_bucket key ((k, b) ∷ m) = if k == key then some b else find_bucket key m

  pub set_bucket : String → Bucket → List (String × Bucket) → List (String × Bucket)
  set_bucket key b [] = []
  set_bucket key b ((k, c) ∷ m) = if k == key then (k, b) ∷ m else (k, c) ∷ set_bucket key b m

  abbrev pub full_bucket : Config → Time → Bucket
  full_bucket cfg now = record { tokens = of_int (pos_part cfg.burst); last = now; last_seen = now }

  -- `l.cfg.MaxBuckets > 0 && len(l.buckets) >= l.cfg.MaxBuckets`.
  abbrev pub is_full : Limiter → Bool
  is_full l = ltb_ℤ (pos 0) l.cfg.max_buckets && leb (pos_part l.cfg.max_buckets) (length l.buckets)

  found_or_created : Option Bucket → String → Time → Limiter → Option Bucket × Limiter
  found_or_created (some b) key now l = (some b, l)
  found_or_created none key now l = if is_full l then (none, l) else (
    some (full_bucket l.cfg now),
    record l { buckets = (key, full_bucket l.cfg now) ∷ l.buckets },
  )

  -- `getOrCreateBucket`.
  unfoldable pub get_or_create_bucket : String → Time → Limiter → Option Bucket × Limiter
  unfolding found_or_created
  get_or_create_bucket key now l = found_or_created (find_bucket key l.buckets) key now l

  -- `now.Sub(seen) > ttl`.
  abbrev pub is_idle : Time → ℕ → String × Bucket → Bool
  is_idle now ttl (k, b) = ltb (b.last_seen + ttl) now

  -- `maybeCleanup`.
  unfoldable pub maybe_cleanup : Time → Limiter → Limiter
  maybe_cleanup now l =
      if leb_ℤ l.cfg.ttl (pos 0)
      then l
      else let ttl = pos_part l.cfg.ttl in
        if not (eqb l.last_cleanup 0) && ltb now (l.last_cleanup + cleanup_interval ttl)
        then l
        else record l {
          last_cleanup = now;
          buckets = keep (λ kb. not (is_idle now ttl kb)) l.buckets;
        }

  use_bucket : String → Time → Option Bucket × Limiter → Bool × Limiter
  use_bucket key now (none, l) = (false, l)
  use_bucket key now (some b, l) =
      let (allowed, c) = bucket_allow now l.cfg.rate (of_int (pos_part l.cfg.burst)) b in
      (allowed, record l { buckets = set_bucket key c l.buckets })

  -- `TokenBucketLimiter.Allow`, at the time that the clock shows.
  unfoldable pub allow : String → Time → Limiter → Bool × Limiter
  unfolding use_bucket
  allow key now l = use_bucket key now (get_or_create_bucket key now (maybe_cleanup now l))
