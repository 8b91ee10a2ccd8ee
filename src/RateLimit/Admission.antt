-- ===== src/RateLimit/Admission.antt =====
-- Which requests the limiter admits (internal/http/middleware/ratelimit/token_bucket_limiter.go).
use service_courier_platform.Prelude.{
  ℕ, zero, suc, min, ◌≤◌, ◌<◌, ◌≡◌, refl, ap, ◌∙◌, pos, pos_part, String, eq_refl, true, false,
  List, ◌∷◌, none, some, arith, if◌then◌else◌,
}
use service_courier_platform.Domain.{Time}
use service_courier_platform.RateLimit.{
  Float64, Bucket, Limiter, bucket_allow, find_bucket, full_bucket, is_full, found_or_created,
  get_or_create_bucket, maybe_cleanup, use_bucket, allow,
}
use service_courier_platform.RateLimit.Table.{maybe_cleanup-cfg}
use service_courier_platform.RateLimit.Spending.{
  Counts, Charged, spent, present_step, allow-Charged, allow-spent,
}

module _ (F : Float64) (key : String) (now : Time) where
  -- How many of `n` requests in a row, all at this time, are admitted.
  unfoldable pub admitted : ℕ → Limiter F → ℕ
  admitted zero l = 0
  admitted (suc n) l =
      let (yes_now, after) = allow F key now l in
      let later = admitted n after in if yes_now then suc later else later

  module _ {top : ℕ} (counts : Counts F top) where
    admitted-Charged :
        (n m : ℕ) (l : Limiter F) → m ≤ top → Charged F key now m l → admitted n l ≡ min n m
    unfolding admitted
    admitted-Charged zero m l h c = omega arith
    admitted-Charged (suc n) zero l h c =
        let (refusal, next) = allow-spent F key now counts l c in
        rw refusal (admitted-Charged n zero (allow F key now l).1 h next ∙ omega arith)
    admitted-Charged (suc n) (suc m) l h c =
        let (admission, next) = allow-Charged F key now counts m l h c in
        rw admission
          (ap suc (admitted-Charged n m (allow F key now l).1 (omega arith) next) ∙ omega arith)

    allow-created :
        (l : Limiter F)
        → find_bucket F key (maybe_cleanup F now l).buckets ≡ none
        → is_full F (maybe_cleanup F now l) ≡ false
        → allow F key now l
          ≡ use_bucket F key now (
            some (full_bucket F (maybe_cleanup F now l).cfg now),
            record (maybe_cleanup F now l) {
              buckets =
                  (key, full_bucket F (maybe_cleanup F now l).cfg now)
                  ∷ (maybe_cleanup F now l).buckets;
            },
          )
    unfolding allow get_or_create_bucket found_or_created
    allow-created l absent room = rw (absent, room)

    first_found :
        (b : Bucket F) (m : List (String × Bucket F)) → find_bucket F key ((key, b) ∷ m) ≡ some b
    unfolding find_bucket
    first_found b m = rw (eq_refl key)

    pub allow-new :
        (b : ℕ) (l : Limiter F)
        → find_bucket F key (maybe_cleanup F now l).buckets ≡ none
        → is_full F (maybe_cleanup F now l) ≡ false
        → l.cfg.burst ≡ pos (suc b)
        → b < top
        → ((allow F key now l).0 ≡ true) × Charged F key now b (allow F key now l).1
    unfolding use_bucket
    allow-new b l absent room burst small =
        let clean = maybe_cleanup F now l in
        let whole = full_bucket F clean.cfg now in
        let capacity : F.of_int (pos_part clean.cfg.burst) ≡ F.of_int (suc b) =
          ap (λ z. F.of_int (pos_part z)) (ap (λ g. g.burst) (maybe_cleanup-cfg F now l) ∙ burst) in
        let step =
          spent F key now counts b clean.cfg.rate (F.of_int (pos_part clean.cfg.burst)) whole.tokens
            now now small capacity refl in
        rw (allow-created l absent room) (
          ap (λ o. o.0) step,
          present_step F key now counts b (record clean { buckets = (key, whole) ∷ clean.buckets })
              whole (bucket_allow F now clean.cfg.rate (F.of_int (pos_part clean.cfg.burst)) whole)
              (first_found whole clean.buckets) (ap (λ o. o.1) step),
        )

    -- Of `n` requests of a key without a bucket, all at one time, exactly the burst is admitted, or
    -- all of them if they are fewer. For this the table of buckets must not be full after its
    -- cleanup, the burst must be at least 1, and float64 must count exactly up to the burst.
    pub admitted-new :
        (n b : ℕ) (l : Limiter F)
        → find_bucket F key (maybe_cleanup F now l).buckets ≡ none
        → is_full F (maybe_cleanup F now l) ≡ false
        → l.cfg.burst ≡ pos (suc b)
        → b < top
        → admitted n l ≡ min n (suc b)
    unfolding admitted
    admitted-new zero b l absent room burst small = omega arith
    admitted-new (suc n) b l absent room burst small =
        let (admission, next) = allow-new b l absent room burst small in
        rw admission
          (ap suc (admitted-Charged n b (allow F key now l).1 (omega arith) next) ∙ omega arith)
