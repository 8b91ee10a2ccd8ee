-- ===== src/Middleware/Served.antt =====
-- How many requests the middleware of internal/http/middleware/ratelimit/middleware.go lets pass.
use service_courier_platform.Prelude.{
  both_tests, min, subst, List, [], ◌∷◌, ◌+◌, ℕ, zero, suc, ◌-◌, ◌<◌, ◌≡◌, ◌≢◌, refl, pos, String,
  ◌==◌, Bool, true, false, Option, none, some, arith, eq_iff, Bool-cases, inl, inr, if◌then◌else◌,
}
use service_courier_platform.Domain.{Time}
use service_courier_platform.RateLimit.{
  Float64, Limiter, find_bucket, is_full, maybe_cleanup, allow,
}
use service_courier_platform.RateLimit.Admission.{admitted, admitted-new}
use service_courier_platform.RateLimit.Spending.{Counts}
use service_courier_platform.Middleware.{
  Reply, answered, too_many_requests, split_host, whole, pick, client_ip, Front, passed, handler,
}

whole_named : (a : String) → (whole a == "") ≡ false
unfolding whole
whole_named a = elim (Bool-cases (a == "")) [ inl e ↦ rw e refl | inr e ↦ rw (e, e) refl ]

pick_named : (host : Option String) (a : String) → (pick host a == "") ≡ false
unfolding pick
pick_named none a = whole_named a
pick_named (some h) a = elim (Bool-cases (h == "")) [
  | inl e ↦ rw e (whole_named a)
  | inr e ↦ rw (e, e) refl
]

-- The key that a client is counted under is never empty.
pub client_ip_named : (remote_addr : String) → client_ip remote_addr ≢ ""
unfolding client_ip
client_ip_named a h = both_tests ((eq_iff (client_ip a) "").1 h) (pick_named (split_host a) a)

module _ (F : Float64) {T R : Type 0} (next : T → R × T) (remote_addr : String) (now : Time) where
  abbrev pub step : Front (Limiter F) T → Front (Limiter F) T
  step s = (handler (λ key l. allow F key now l) next remote_addr s).1

  -- The middleware after a number of requests from the address, all at one time.
  pub after_requests : ℕ → Front (Limiter F) T → Front (Limiter F) T
  after_requests zero s = s
  after_requests (suc n) s = after_requests n (step s)

  -- The answers to them.
  pub answers : ℕ → Front (Limiter F) T → List (Reply R)
  answers zero s = []
  answers (suc n) s =
      (handler (λ key l. allow F key now l) next remote_addr s).0 ∷ answers n (step s)

  -- So many requests are passed on to the next handler, and answered as it answers; and so many are
  -- turned away with 429 and counted, and the next handler does not get them.
  pub data Served
      : ℕ → ℕ → Front (Limiter F) T → List (Reply R) → Front (Limiter F) T → Type 0 where
    all_served : {s : Front (Limiter F) T} → Served 0 0 s [] s
    let_through :
        {p r : ℕ} {s end : Front (Limiter F) T} {l : Limiter F} {rs : List (Reply R)}
        → Served p r (record s { limiter = l; inner = (next s.inner).1 }) rs end
        → Served (suc p) r s (answered (next s.inner).0 ∷ rs) end
    turned_away :
        {p r : ℕ} {s end : Front (Limiter F) T} {l : Limiter F} {rs : List (Reply R)}
        → Served p r (record s { limiter = l; exceeded = suc s.exceeded }) rs end
        → Served p (suc r) s (too_many_requests ∷ rs) end

  -- The requests are served so, with as many passed on as the limiter admits.
  ServedAll : ℕ → ℕ → Front (Limiter F) T → List (Reply R) → Front (Limiter F) T → Type 0
  ServedAll n p s rs end = (r : ℕ) × (p + r ≡ n) × Served p r s rs end

  served_step :
      (n : ℕ) (o : Bool × Limiter F) (s : Front (Limiter F) T)
      → ((t : Front (Limiter F) T)
          → ServedAll n
              (admitted F (client_ip remote_addr) now n t.limiter)
              t
              (answers n t)
              (after_requests n t))
      → ServedAll
          (suc n)
          (if o.0
            then suc (admitted F (client_ip remote_addr) now n o.1)
            else admitted F (client_ip remote_addr) now n o.1)
          s
          ((passed (λ key l. allow F key now l) next o s).0
            ∷ answers n (passed (λ key l. allow F key now l) next o s).1)
          (after_requests n (passed (λ key l. allow F key now l) next o s).1)
  unfolding passed ServedAll
  served_step n (true, l) s later =
      let (r, sum, rest) = later (record s { limiter = l; inner = (next s.inner).1 }) in
      (r, omega (arith, sum), let_through rest)
  served_step n (false, l) s later =
      let (r, sum, rest) = later (record s { limiter = l; exceeded = suc s.exceeded }) in
      (suc r, omega (arith, sum), turned_away rest)

  served_all :
      (n : ℕ) (s : Front (Limiter F) T)
      → ServedAll n
          (admitted F (client_ip remote_addr) now n s.limiter)
          s
          (answers n s)
          (after_requests n s)
  unfolding answers after_requests admitted handler ServedAll
  served_all zero s = (0, omega arith, all_served)
  served_all (suc n) s =
      served_step n (allow F (client_ip remote_addr) now s.limiter) s (served_all n)

  stepped :
      (n : ℕ) (o : Bool × Limiter F) (s : Front (Limiter F) T)
      → ((t : Front (Limiter F) T)
          → (after_requests n t).exceeded + admitted F (client_ip remote_addr) now n t.limiter
            ≡ t.exceeded + n)
      → (after_requests n (passed (λ key l. allow F key now l) next o s).1).exceeded
          + (if o.0
              then suc (admitted F (client_ip remote_addr) now n o.1)
              else admitted F (client_ip remote_addr) now n o.1)
        ≡ s.exceeded + suc n
  unfolding passed
  stepped n (true, l) s later =
      let k = later (record s { limiter = l; inner = (next s.inner).1 }) in omega (arith, k)
  stepped n (false, l) s later =
      let k = later (record s { limiter = l; exceeded = suc s.exceeded }) in omega (arith, k)

  refused_and_admitted :
      (n : ℕ) (s : Front (Limiter F) T)
      → (after_requests n s).exceeded + admitted F (client_ip remote_addr) now n s.limiter
        ≡ s.exceeded + n
  unfolding after_requests admitted handler
  refused_and_admitted zero s = omega arith
  refused_and_admitted (suc n) s =
      stepped n (allow F (client_ip remote_addr) now s.limiter) s (refused_and_admitted n)

  -- Of `n` requests of a new client at one time, the burst, or all if they are fewer, is passed on
  -- and answered by the next handler; each other one is answered 429 and counted, and does not reach
  -- the next handler. This is so for a client without a bucket, while the limiter has room for one,
  -- with a burst of at least 1 that float64 can count up to.
  pub refused-new :
      {top : ℕ} (counts : Counts F top) (n b : ℕ) (s : Front (Limiter F) T)
      → find_bucket F (client_ip remote_addr) (maybe_cleanup F now s.limiter).buckets ≡ none
      → is_full F (maybe_cleanup F now s.limiter) ≡ false
      → s.limiter.cfg.burst ≡ pos (suc b)
      → b < top
      → ((after_requests n s).exceeded ≡ s.exceeded + (n - suc b))
        × Served (min n (suc b)) (n - suc b) s (answers n s) (after_requests n s)
  unfolding ServedAll
  refused-new counts n b s absent room burst small =
      let passed_on =
        admitted-new F (client_ip remote_addr) now counts n b s.limiter absent room burst small in
      let (r, sum, rest) = served_all n s in
      let others : r ≡ n - suc b = omega (arith, sum, passed_on) in
      (
        omega (arith, refused_and_admitted n s, passed_on),
        subst (λ k. Served (min n (suc b)) k s (answers n s) (after_requests n s)) others
            (subst (λ p. Served p r s (answers n s) (after_requests n s)) passed_on rest),
      )
