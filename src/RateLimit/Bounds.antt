-- ===== src/RateLimit/Bounds.antt =====
-- What the limiter keeps between requests: the number of buckets and the tokens in each
-- (internal/http/middleware/ratelimit/token_bucket_limiter.go).
use service_courier_platform.Prelude.{
  ℕ, suc, ◌+◌, ◌-◌, ◌≤◌, ◌≡◌, refl, sym, pos, pos_part, String, true, false, not, ◌∷◌, Option, none,
  some, length, keep, arith, Bool-cases, inl, inr, All, All-keep, length-keep-le, leb, ltb, leb_ℤ,
  ltb_ℤ, ◌&&◌, eqb,
}
use service_courier_platform.Domain.{Time}
use service_courier_platform.RateLimit.{
  Float64, Config, Bucket, Limiter, new, refill, spend, bucket_allow, find_bucket, set_bucket,
  full_bucket, is_full, found_or_created, get_or_create_bucket, is_idle, maybe_cleanup,
  cleanup_interval, use_bucket, allow,
}
use service_courier_platform.RateLimit.Table.{length-set_bucket, All-set_bucket, All-find}

-- What IEEE 754 says of numbers that are no NaN: none is below itself, and taking one away from a
-- number that is not above another gives such a number.
pub record Laws (F : Float64) : Type 0 where
  pub lt_irrefl : (x : F.Carrier) → F.lt x x ≡ false
  pub sub_one : (b t : F.Carrier) → F.lt b t ≡ false → F.lt b (F.sub t (F.of_int 1)) ≡ false

module _ (F : Float64) where
  abbrev pub burst_of : Config F → F.Carrier
  burst_of cfg = F.of_int (pos_part cfg.burst)

  abbrev pub Within : Config F → Bucket F → Type 0
  Within cfg b = F.lt (burst_of cfg) b.tokens ≡ false

  -- There are no more buckets than configured, and none holds more tokens than the burst.
  pub record IsBounded (l : Limiter F) : Type 0 where
    pub count :
        ltb_ℤ (pos 0) l.cfg.max_buckets ≡ true → length l.buckets ≤ pos_part l.cfg.max_buckets
    pub tokens : All (λ kb. Within l.cfg kb.1) l.buckets

  pub new-IsBounded : (cfg : Config F) → IsBounded (new F cfg)
  unfolding new
  new-IsBounded cfg = record { count = λ _. omega arith; tokens = tt }

  kept :
      (now : Time) (ttl : ℕ) (l : Limiter F)
      → IsBounded l
      → IsBounded (record l {
        last_cleanup = now;
        buckets = keep (λ kb. not (is_idle F now ttl kb)) l.buckets;
      })
  kept now ttl l v = record {
    count =
        λ h. omega (arith, v.count h, length-keep-le (λ kb. not (is_idle F now ttl kb)) l.buckets);
    tokens =
        All-keep (λ kb. Within l.cfg kb.1) (λ kb. not (is_idle F now ttl kb)) l.buckets v.tokens;
  }

  maybe_cleanup-IsBounded :
      (now : Time) (l : Limiter F) → IsBounded l → IsBounded (maybe_cleanup F now l)
  unfolding maybe_cleanup
  maybe_cleanup-IsBounded now l v = elim (Bool-cases (leb_ℤ l.cfg.ttl (pos 0))) [
    | inl off ↦ rw off v
    | inr on ↦
        elim (Bool-cases (
          not (eqb l.last_cleanup 0)
          && ltb now (l.last_cleanup + cleanup_interval (pos_part l.cfg.ttl)))) [
            | inl early ↦ rw (on, early) v
            | inr due ↦ rw (on, due) (kept now (pos_part l.cfg.ttl) l v)
          ]
  ]

  module _ (laws : Laws F) where
    refill-Within :
        (now : Time) (rate : F.Carrier) (cfg : Config F) (b : Bucket F)
        → Within cfg b
        → Within cfg (refill F now rate (burst_of cfg) b)
    unfolding refill
    refill-Within now rate cfg b w = elim (Bool-cases (ltb b.last now)) [
      | inr still ↦ rw still w
      | inl later ↦
          let t = F.add b.tokens (F.mul (F.seconds (now - b.last)) rate) in
          elim (Bool-cases (F.lt (burst_of cfg) t)) [
            | inl over ↦ rw (later, over) (laws.lt_irrefl (burst_of cfg))
            | inr under ↦ rw (later, under) under
          ]
    ]

    spend-Within : (cfg : Config F) (b : Bucket F) → Within cfg b → Within cfg (spend F b).1
    unfolding spend
    spend-Within cfg b w = elim (Bool-cases (F.lt b.tokens (F.of_int 1))) [
      | inl short ↦ rw short w
      | inr enough ↦ rw enough (laws.sub_one (burst_of cfg) b.tokens w)
    ]

    bucket_allow-Within :
        (now : Time) (rate : F.Carrier) (cfg : Config F) (b : Bucket F)
        → Within cfg b
        → Within cfg (bucket_allow F now rate (burst_of cfg) b).1
    unfolding bucket_allow
    bucket_allow-Within now rate cfg b w =
        spend-Within cfg (record (refill F now rate (burst_of cfg) b) { last_seen = now })
          (refill-Within now rate cfg b w)

    replaced :
        (key : String) (c : Bucket F) (l : Limiter F)
        → Within l.cfg c
        → IsBounded l
        → IsBounded (record l { buckets = set_bucket F key c l.buckets })
    replaced key c l w v = record {
      count = λ h. rw (length-set_bucket F key c l.buckets) (v.count h);
      tokens = All-set_bucket F (Within l.cfg) key c l.buckets w v.tokens;
    }

    created :
        (key : String) (now : Time) (l : Limiter F)
        → is_full F l ≡ false
        → IsBounded l
        → IsBounded (record l { buckets = (key, full_bucket F l.cfg now) ∷ l.buckets })
    created key now l room v = record {
      count = λ h. below (length l.buckets) (pos_part l.cfg.max_buckets) (rw h at room);
      tokens = (laws.lt_irrefl (burst_of l.cfg), v.tokens);
    }
      where
        below : (n m : ℕ) → leb m n ≡ false → suc n ≤ m
        below n m h = ground arith

    use_found :
        (key : String) (now : Time) (found : Option (Bucket F)) (l : Limiter F)
        → found ≡ find_bucket F key l.buckets
        → IsBounded l
        → IsBounded (use_bucket F key now (found_or_created F found key now l)).1
    unfolding use_bucket found_or_created
    use_found key now (some b) l e v =
        replaced key (bucket_allow F now l.cfg.rate (burst_of l.cfg) b).1 l
          (bucket_allow-Within now l.cfg.rate l.cfg b
            (All-find F (Within l.cfg) key l.buckets (sym e) v.tokens))
          v
    use_found key now none l e v = elim (Bool-cases (is_full F l)) [
      | inl full ↦ rw full v
      | inr room ↦ rw room (
          replaced key (bucket_allow F now l.cfg.rate (burst_of l.cfg) (full_bucket F l.cfg now)).1
            (record l { buckets = (key, full_bucket F l.cfg now) ∷ l.buckets })
            (bucket_allow-Within now l.cfg.rate l.cfg (full_bucket F l.cfg now)
              (laws.lt_irrefl (burst_of l.cfg)))
            (created key now l room v))
    ]

    -- Every request keeps the number of buckets within the configured one, where one is configured,
    -- and the tokens of every bucket within the burst.
    pub allow-IsBounded :
        (key : String) (now : Time) (l : Limiter F) → IsBounded l → IsBounded (allow F key now l).1
    unfolding allow get_or_create_bucket
    allow-IsBounded key now l v =
        let c = maybe_cleanup F now l in
        use_found key now (find_bucket F key c.buckets) c refl (maybe_cleanup-IsBounded now l v)
