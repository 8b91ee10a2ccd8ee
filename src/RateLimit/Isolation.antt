-- ===== src/RateLimit/Isolation.antt =====
-- What a request does to the other keys, and to a full table (internal/http/middleware/ratelimit/token_bucket_limiter.go).
use service_courier_platform.Prelude.{
  ◌≡◌, ◌∙◌, pos_part, String, ◌==◌, true, false, ◌∷◌, Option, none, some, Bool-cases, inl, inr,
}
use service_courier_platform.Domain.{Time}
use service_courier_platform.RateLimit.{
  Float64, Bucket, Limiter, bucket_allow, find_bucket, full_bucket, is_full, found_or_created,
  get_or_create_bucket, maybe_cleanup, use_bucket, allow,
}
use service_courier_platform.RateLimit.Table.{find-set_bucket_ne}

module _ (F : Float64) where
  used_other :
      (key other : String) (now : Time) (found : Option (Bucket F)) (l : Limiter F)
      → (key == other) ≡ false
      → find_bucket F other (use_bucket F key now (found_or_created F found key now l)).1.buckets
        ≡ find_bucket F other l.buckets
  unfolding use_bucket found_or_created find_bucket
  used_other key other now (some b) l d =
      find-set_bucket_ne F key other
        (bucket_allow F now l.cfg.rate (F.of_int (pos_part l.cfg.burst)) b).1 l.buckets d
  used_other key other now none l d = elim (Bool-cases (is_full F l)) [
    | inl full ↦ rw full
    | inr room ↦ rw room (
        find-set_bucket_ne F key other
          (bucket_allow F now l.cfg.rate (F.of_int (pos_part l.cfg.burst))
            (full_bucket F l.cfg now)).1
          ((key, full_bucket F l.cfg now) ∷ l.buckets) d
        ∙ skip)
  ]
    where
      skip :
          find_bucket F other ((key, full_bucket F l.cfg now) ∷ l.buckets)
          ≡ find_bucket F other l.buckets
      skip = rw d

  -- A request of one key does nothing to the bucket of another but what the cleanup does.
  pub allow_isolated :
      (key other : String) (now : Time) (l : Limiter F)
      → (key == other) ≡ false
      → find_bucket F other (allow F key now l).1.buckets
        ≡ find_bucket F other (maybe_cleanup F now l).buckets
  unfolding allow get_or_create_bucket
  allow_isolated key other now l d =
      let c = maybe_cleanup F now l in used_other key other now (find_bucket F key c.buckets) c d

  -- A key with no bucket is refused, and gets none, when the table is full after the
  -- cleanup.
  pub allow_full :
      (key : String) (now : Time) (l : Limiter F)
      → find_bucket F key (maybe_cleanup F now l).buckets ≡ none
      → is_full F (maybe_cleanup F now l) ≡ true
      → allow F key now l ≡ (false, maybe_cleanup F now l)
  unfolding allow get_or_create_bucket use_bucket found_or_created
  allow_full key now l absent full = rw (absent, full)
