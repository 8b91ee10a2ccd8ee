-- ===== src/RateLimit/Spending.antt =====
-- One request on a bucket of the limiter: what it takes and leaves
-- (internal/http/middleware/ratelimit/token_bucket_limiter.go).
use service_courier_platform.Prelude.{
  ℕ, suc, ◌+◌, ◌<◌, ◌≡◌, ap, pos, pos_part, String, Bool, true, false, not, some, arith, Bool-cases,
  inl, inr, ltb, leb_ℤ, ◌&&◌, eqb, keep,
}
use service_courier_platform.Domain.{Time}
use service_courier_platform.RateLimit.{
  Float64, Bucket, Limiter, refill, spend, bucket_allow, find_bucket, set_bucket, found_or_created,
  get_or_create_bucket, is_idle, maybe_cleanup, cleanup_interval, use_bucket, allow,
}
use service_courier_platform.RateLimit.Table.{find-set_bucket_self, find-keep}

-- float64 counts exactly as long as the numbers are small: below 2 ^ 53.
pub record Counts (F : Float64) (top : ℕ) : Type 0 where
  pub none_left : F.lt (F.of_int 0) (F.of_int 1) ≡ true
  pub some_left : (n : ℕ) → n < top → F.lt (F.of_int (suc n)) (F.of_int 1) ≡ false
  pub take_one : (n : ℕ) → n < top → F.sub (F.of_int (suc n)) (F.of_int 1) ≡ F.of_int n

module _ (F : Float64) (key : String) (now : Time) where
  -- The key's bucket holds `m` tokens, and has been used at this very time.
  pub record Charged (m : ℕ) (l : Limiter F) : Type 0 where
    pub bucket : Bucket F
    pub present : find_bucket F key l.buckets ≡ some bucket
    pub tokens : bucket.tokens ≡ F.of_int m
    pub current : bucket.last ≡ now
    pub seen : bucket.last_seen ≡ now

  cleaned :
      (ttl m : ℕ) (l : Limiter F)
      → Charged m l
      → Charged m (record l {
        last_cleanup = now;
        buckets = keep (λ kb. not (is_idle F now ttl kb)) l.buckets;
      })
  cleaned ttl m l c = record {
    bucket = c.bucket;
    present = find-keep F key now ttl l.buckets c.bucket c.present (fresh c.bucket c.seen);
    tokens = c.tokens;
    current = c.current;
    seen = c.seen;
  }
    where
      fresh : (b : Bucket F) → b.last_seen ≡ now → is_idle F now ttl (key, b) ≡ false
      fresh b s = ground arith

  maybe_cleanup-Charged : (m : ℕ) (l : Limiter F) → Charged m l → Charged m (maybe_cleanup F now l)
  unfolding maybe_cleanup
  maybe_cleanup-Charged m l c = elim (Bool-cases (leb_ℤ l.cfg.ttl (pos 0))) [
    | inl off ↦ rw off c
    | inr on ↦
        elim (Bool-cases (
          not (eqb l.last_cleanup 0)
          && ltb now (l.last_cleanup + cleanup_interval (pos_part l.cfg.ttl)))) [
            | inl early ↦ rw (on, early) c
            | inr due ↦ rw (on, due) (cleaned (pos_part l.cfg.ttl) m l c)
          ]
  ]

  still : (t : Time) → ltb t t ≡ false
  still t = ground arith

  module _ {top : ℕ} (counts : Counts F top) where
    -- One request on a bucket of this time, given by its fields.
    pub spent :
        (m : ℕ) (rate burst x : F.Carrier) (y z : Time)
        → m < top
        → x ≡ F.of_int (suc m)
        → y ≡ now
        → bucket_allow F now rate burst (record { tokens = x; last = y; last_seen = z })
          ≡ (true, record { tokens = F.of_int m; last = now; last_seen = now })
    unfolding bucket_allow refill spend
    spent m rate burst x y z small t c =
        rw (c, t, still now, counts.some_left m small, counts.take_one m small)

    refused :
        (rate burst x : F.Carrier) (y z : Time)
        → x ≡ F.of_int 0
        → y ≡ now
        → bucket_allow F now rate burst (record { tokens = x; last = y; last_seen = z })
          ≡ (false, record { tokens = F.of_int 0; last = now; last_seen = now })
    unfolding bucket_allow refill spend
    refused rate burst x y z t c = rw (c, t, still now, counts.none_left)

    -- What a request does to a table where the key has a bucket.
    pub present_step :
        (m : ℕ) (l : Limiter F) (b : Bucket F) (o : Bool × Bucket F)
        → find_bucket F key l.buckets ≡ some b
        → o.1 ≡ record { tokens = F.of_int m; last = now; last_seen = now }
        → Charged m (record l { buckets = set_bucket F key o.1 l.buckets })
    present_step m l b o p e = record {
      bucket = o.1;
      present = find-set_bucket_self F key o.1 l.buckets p;
      tokens = ap (λ c. c.tokens) e;
      current = ap (λ c. c.last) e;
      seen = ap (λ c. c.last_seen) e;
    }

    allow-present :
        (l : Limiter F) (b : Bucket F)
        → find_bucket F key (maybe_cleanup F now l).buckets ≡ some b
        → allow F key now l ≡ use_bucket F key now (some b, maybe_cleanup F now l)
    unfolding allow get_or_create_bucket found_or_created
    allow-present l b p = rw p

    pub allow-Charged :
        (m : ℕ) (l : Limiter F)
        → m < top
        → Charged (suc m) l
        → ((allow F key now l).0 ≡ true) × Charged m (allow F key now l).1
    unfolding use_bucket
    allow-Charged m l small before =
        let c = maybe_cleanup-Charged (suc m) l before in
        let clean = maybe_cleanup F now l in
        let step =
          spent m clean.cfg.rate (F.of_int (pos_part clean.cfg.burst)) c.bucket.tokens c.bucket.last
            c.bucket.last_seen small c.tokens c.current in
        rw (allow-present l c.bucket c.present) (
          ap (λ o. o.0) step,
          present_step m clean c.bucket
              (bucket_allow F now clean.cfg.rate (F.of_int (pos_part clean.cfg.burst)) c.bucket)
              c.present (ap (λ o. o.1) step),
        )

    pub allow-spent :
        (l : Limiter F)
        → Charged 0 l
        → ((allow F key now l).0 ≡ false) × Charged 0 (allow F key now l).1
    unfolding use_bucket
    allow-spent l before =
        let c = maybe_cleanup-Charged 0 l before in
        let clean = maybe_cleanup F now l in
        let step =
          refused clean.cfg.rate (F.of_int (pos_part clean.cfg.burst)) c.bucket.tokens c.bucket.last
            c.bucket.last_seen c.tokens c.current in
        rw (allow-present l c.bucket c.present) (
          ap (λ o. o.0) step,
          present_step 0 clean c.bucket
              (bucket_allow F now clean.cfg.rate (F.of_int (pos_part clean.cfg.burst)) c.bucket)
              c.present (ap (λ o. o.1) step),
        )
