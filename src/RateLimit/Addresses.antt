-- ===== src/RateLimit/Addresses.antt =====
-- Requests under many keys: the middleware takes the key from the address of the request, which
-- `RealIP` of internal/http/router/router.go sets from a header.
use service_courier_platform.Prelude.{
  none-some, sym, arith, Option, ℕ, suc, ◌<◌, ◌≡◌, ◌∙◌, ap, refl, pos, ltb_ℤ, String, ◌==◌, Bool,
  false, not, List, [], ◌∷◌, length, keep, All, none, some, Bool-cases, inl, inr, if◌then◌else◌,
  pos_part,
}
use service_courier_platform.Domain.{Time}
use service_courier_platform.RateLimit.{
  Float64, Bucket, Limiter, find_bucket, is_full, is_idle, maybe_cleanup, allow, use_bucket,
  get_or_create_bucket, found_or_created,
}
use service_courier_platform.RateLimit.Isolation.{allow_isolated}
use service_courier_platform.RateLimit.Admission.{allow-new}
use service_courier_platform.RateLimit.Spending.{Counts}
use service_courier_platform.RateLimit.Table.{maybe_cleanup-cfg}
use service_courier_platform.Observability.{Different}

module _ (F : Float64) (now : Time) where
  -- How many of these requests, one under each key, are admitted.
  unfoldable pub admitted_of : List String → Limiter F → ℕ
  admitted_of [] l = 0
  admitted_of (key ∷ keys) l =
      let (yes_now, after) = allow F key now l in
      let later = admitted_of keys after in if yes_now then suc later else later

  absent_kept :
      (key : String) (q : String × Bucket F → Bool) (m : List (String × Bucket F))
      → find_bucket F key m ≡ none
      → find_bucket F key (keep q m) ≡ none
  unfolding find_bucket
  absent_kept key q [] h = refl
  absent_kept key q ((k, b) ∷ m) h = elim (Bool-cases (k == key)) [
    | inl e ↦ absurd (none-some (sym (rw e at h)))
    | inr e ↦ elim (Bool-cases (q (k, b))) [
      | inl stays ↦ rw (stays, e) (absent_kept key q m (rw e at h))
      | inr gone ↦ rw gone (absent_kept key q m (rw e at h))
    ]
  ]

  absent_cleaned :
      (key : String) (l : Limiter F)
      → find_bucket F key l.buckets ≡ none
      → find_bucket F key (maybe_cleanup F now l).buckets ≡ none
  unfolding maybe_cleanup
  absent_cleaned key l h =
      grind (arith, absent_kept key (λ kb. not (is_idle F now (pos_part l.cfg.ttl) kb)) l.buckets h)

  used-cfg :
      (key : String) (found : Option (Bucket F)) (l : Limiter F)
      → (use_bucket F key now (found_or_created F found key now l)).1.cfg ≡ l.cfg
  unfolding use_bucket found_or_created
  used-cfg key (some b) l = refl
  used-cfg key none l = elim (Bool-cases (is_full F l)) [ inl e ↦ rw e refl | inr e ↦ rw e refl ]

  allow-cfg : (key : String) (l : Limiter F) → (allow F key now l).1.cfg ≡ l.cfg
  unfolding allow get_or_create_bucket
  allow-cfg key l =
      let c = maybe_cleanup F now l in
      used-cfg key (find_bucket F key c.buckets) c ∙ maybe_cleanup-cfg F now l

  abbrev Absent : List String → Limiter F → Type 0
  Absent keys l = All (λ key. find_bucket F key l.buckets ≡ none) keys

  still-Absent :
      (key : String) (keys : List String) (l : Limiter F)
      → All (λ other. (key == other) ≡ false) keys
      → Absent keys l
      → Absent keys (allow F key now l).1
  still-Absent key [] l d a = tt
  still-Absent key (other ∷ keys) l (e, d) (h, a) =
      (allow_isolated F key other now l e ∙ absent_cleaned other l h, still-Absent key keys l d a)

  room :
      (l : Limiter F)
      → ltb_ℤ (pos 0) l.cfg.max_buckets ≡ false
      → is_full F (maybe_cleanup F now l) ≡ false
  room l h =
      let same : ltb_ℤ (pos 0) (maybe_cleanup F now l).cfg.max_buckets ≡ false =
        ap (λ c. ltb_ℤ (pos 0) c.max_buckets) (maybe_cleanup-cfg F now l) ∙ h in
      rw same refl

  -- Where the table has no bound and float64 counts up to the burst, requests at one time that all
  -- come under different new keys are all admitted, however many they are.
  pub admitted_of-Different :
      {top : ℕ} (counts : Counts F top) (b : ℕ)
      → b < top
      → (keys : List String) (l : Limiter F) → l.cfg.burst ≡ pos (suc b)
      → ltb_ℤ (pos 0) l.cfg.max_buckets ≡ false
      → Different keys
      → Absent keys l
      → admitted_of keys l ≡ length keys
  unfolding admitted_of
  admitted_of-Different counts b small [] l burst free d a = refl
  admitted_of-Different counts b small (key ∷ keys) l burst free (e, d) (h, a) =
      let (admission, charged) =
        allow-new F key now counts b l (absent_cleaned key l h) (room l free) burst small in
      let after = (allow F key now l).1 in
      let same = allow-cfg key l in
      rw admission (
        ap suc (
          admitted_of-Different counts b small keys after (ap (λ c. c.burst) same ∙ burst)
            (ap (λ c. ltb_ℤ (pos 0) c.max_buckets) same ∙ free) d (still-Absent key keys l e a)))
