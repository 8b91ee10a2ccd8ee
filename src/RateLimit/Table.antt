-- ===== src/RateLimit/Table.antt =====
-- The table of buckets of internal/http/middleware/ratelimit/token_bucket_limiter.go.
use service_courier_platform.Prelude.{
  ℕ, ◌≡◌, refl, ap, sym, String, ◌==◌, eq_iff, false, not, List, [], ◌∷◌, some, length, keep, arith,
  Bool-cases, inl, inr, All, subst,
}
use service_courier_platform.Domain.{Time}
use service_courier_platform.RateLimit.{
  Float64, Limiter, maybe_cleanup, Bucket, find_bucket, set_bucket, is_idle,
}

module _ (F : Float64) where
  abbrev Table : Type 0
  Table = List (String × Bucket F)

  pub length-set_bucket :
      (key : String) (b : Bucket F) (m : Table) → length (set_bucket F key b m) ≡ length m
  unfolding set_bucket
  length-set_bucket key b [] = refl
  length-set_bucket key b ((k, c) ∷ m) = ground (arith, length-set_bucket key b m)

  pub find-set_bucket_ne :
      (key other : String) (b : Bucket F) (m : Table)
      → (key == other) ≡ false
      → find_bucket F other (set_bucket F key b m) ≡ find_bucket F other m
  unfolding set_bucket find_bucket
  find-set_bucket_ne key other b [] h = refl
  find-set_bucket_ne key other b ((k, c) ∷ m) h = elim (Bool-cases (k == key)) [
    | inl e ↦ let differs : (k == other) ≡ false = rw ((eq_iff k key).0 e) h in rw (e, differs)
    | inr e ↦ rw (e, find-set_bucket_ne key other b m h)
  ]

  pub find-set_bucket_self :
      (key : String) (b : Bucket F) (m : Table) {c : Bucket F}
      → find_bucket F key m ≡ some c
      → find_bucket F key (set_bucket F key b m) ≡ some b
  unfolding set_bucket find_bucket
  find-set_bucket_self key b [] h = cc
  find-set_bucket_self key b ((k, c) ∷ m) h = elim (Bool-cases (k == key)) [
    | inl e ↦ rw (e, e)
    | inr e ↦ rw (e, e) (find-set_bucket_self key b m (rw e at h))
  ]

  -- A bucket that is not idle outlives the cleanup.
  pub find-keep :
      (key : String) (now : Time) (ttl : ℕ) (m : Table) (b : Bucket F)
      → find_bucket F key m ≡ some b
      → is_idle F now ttl (key, b) ≡ false
      → find_bucket F key (keep (λ kb. not (is_idle F now ttl kb)) m) ≡ some b
  unfolding find_bucket
  find-keep key now ttl [] b h i = cc
  find-keep key now ttl ((k, c) ∷ m) b h i = elim (Bool-cases (k == key)) [
    | inl e ↦
        let same : c ≡ b = some_inj (rw e at h) in
        let stays : is_idle F now ttl (k, c) ≡ false =
          subst (λ x. is_idle F now ttl (k, x) ≡ false) (sym same) i in
        rw (stays, e) (ap some same)
    | inr e ↦
        let rest = find-keep key now ttl m b (rw e at h) i in
        elim (Bool-cases (is_idle F now ttl (k, c))) [
          | inl gone ↦ rw gone rest
          | inr stays ↦ rw (stays, e) rest
        ]
  ]
    where
      some_inj : {x y : Bucket F} → some x ≡ some y → x ≡ y
      some_inj p = cc

  -- What holds of every bucket holds after one is replaced by another of that kind.
  pub All-set_bucket :
      (P : Bucket F → Type 0) (key : String) (b : Bucket F) (m : Table)
      → P b
      → All (λ kb. P kb.1) m
      → All (λ kb. P kb.1) (set_bucket F key b m)
  unfolding set_bucket
  All-set_bucket P key b [] p h = tt
  All-set_bucket P key b ((k, c) ∷ m) p (q, h) = elim (Bool-cases (k == key)) [
    | inl e ↦ rw e (p, h)
    | inr e ↦ rw e (q, All-set_bucket P key b m p h)
  ]

  pub All-find :
      (P : Bucket F → Type 0) (key : String) (m : Table) {b : Bucket F}
      → find_bucket F key m ≡ some b
      → All (λ kb. P kb.1) m
      → P b
  unfolding find_bucket
  All-find P key [] h a = cc
  All-find P key ((k, c) ∷ m) {b} h (q, a) = elim (Bool-cases (k == key)) [
    | inl e ↦ let same : c ≡ b = some_inj (rw e at h) in subst P same q
    | inr e ↦ All-find P key m (rw e at h) a
  ]
    where
      some_inj : {x y : Bucket F} → some x ≡ some y → x ≡ y
      some_inj p = cc

  pub maybe_cleanup-cfg : (now : Time) (l : Limiter F) → (maybe_cleanup F now l).cfg ≡ l.cfg
  unfolding maybe_cleanup
  maybe_cleanup-cfg now l = ground arith
